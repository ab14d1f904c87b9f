-- ===== src/Client/Download.antt =====
-- The download of an upgrade in cmd/navmesh-client/main.go, which resumes a part that is there.
-- The server answers an attempt at a URL from an offset on. The file system is the two files that the
-- code moves, with the errors that a call meets as Booleans. A hash is the list of the bytes that it was
-- given, and `sha256` gives its sum in hexadecimal. A size that is zero or less is 0, and no size passes
-- 2 ^ 63 - 1. The waits between attempts and the reports of progress are not modelled.
pub mod Verified
pub mod Honest
pub mod Resumed
use navmesh_go.Base.{
  ℕ, zero, suc, ◌+◌, ◌-◌, ◌≡◌, Bool, true, false, ◌&&◌, ◌||◌, not, Option, none, some, List, [],
  ◌∷◌, ◌++◌, ltb, leb, ◌==◌, if◌then◌else◌, length,
}
use navmesh_go.Base.Int.{ℤ, pos, negsuc}
use navmesh_go.Base.Text.{
  Text, codes, eq_text, is_empty, trim_space, trim_right, to_lower, has_prefix,
}
use navmesh_go.Base.Strconv.{parse_int}

-- The fields that the download reads.
pub record ClientUpgradeCommand : Type 0 where
  pub download_url : Text
  pub size : ℕ
  pub sha256 : Text

pub record Disk : Type 0 where
  pub part : Option (List ℕ)
  pub target : Option (List ℕ)

-- How io.Copy ends: at the end of the body, by an error of the connection, or by an error of the file
-- after it took some bytes that the hash did not get.
pub data CopyEnd : Type 0 where
  complete : CopyEnd
  interrupted : CopyEnd
  torn : List ℕ → CopyEnd

-- An answer with the bytes of its body that were read, and the errors that the disk gives then.
pub record Response : Type 0 where
  pub status : ℕ
  pub content_range : Text
  pub content_length : ℕ
  pub body : List ℕ
  pub copy_end : CopyEnd
  pub sync_fails : Bool
  pub close_fails : Bool
  pub open_fails : Bool
  pub stat_fails : Bool
  pub reset_fails : Bool

pub data Answer : Type 0 where
  bad_request : Answer
  no_answer : Answer
  answered : Response → Answer

-- The answer to an attempt, by its number, the URL and the offset.
abbrev pub Server : Type 0
Server = ℕ → Text → ℕ → Answer

-- The errors of the disk outside the attempts.
pub record Faults : Type 0 where
  pub prepare_fails : Bool
  pub load_fails : Bool
  pub remove_fails : Bool
  pub promote_fails : Bool

pub data DownloadError : Type 0 where
  target_required prepare_failed load_failed remove_failed request_failed reset_failed open_failed
        stat_failed retryable not_retryable size_mismatch sha256_mismatch promote_failed :
      DownloadError

-- lastErr, and whether its failure is retryable.
pub data LastError : Type 0 where
  fine transient permanent : LastError

pub record Progress : Type 0 where
  pub part : Option (List ℕ)
  pub downloaded_size : ℕ
  pub hashed : List ℕ
  pub total_size : ℕ
  pub last_error : LastError

abbrev pub upgrade_download_max_attempts : ℕ
upgrade_download_max_attempts = 6

-- The text after the last slash, if there is a slash.
abbrev after_slash : Text → Option Text
after_slash [] = none
after_slash (c ∷ s) = elim (after_slash s) [
  | none ↦ if c == b'/' then some s else none
  | some rest ↦ some rest
]

abbrev positive_total : ℤ × Bool → Option ℕ
positive_total (pos n, true) = if ltb 0 n then some n else none
positive_total (pos n, false) = none
positive_total (negsuc n, ok) = none

abbrev total_after : Option Text → Option ℕ
total_after none = none
total_after (some rest) =
    if is_empty rest then none else positive_total (parse_int (trim_space rest))

unfoldable pub parse_upgrade_content_range_total : Text → Option ℕ
parse_upgrade_content_range_total text = total_after (after_slash (trim_space text))

-- Whether there is another attempt; the wait before it is left out.
unfoldable pub retry_upgrade_download : ℕ → Bool
retry_upgrade_download attempt =
    if leb (upgrade_download_max_attempts - 1) attempt then false else true

unfoldable pub is_retryable_upgrade_download_status : ℕ → Bool
is_retryable_upgrade_download_status status =
    (status == 408) || (status == 425) || (status == 429) || (leb 500 status && leb status 599)

unfoldable pub retry_upgrade_download_status : ℕ → ℕ → Bool
unfolding is_retryable_upgrade_download_status retry_upgrade_download
retry_upgrade_download_status attempt status =
    if is_retryable_upgrade_download_status status then retry_upgrade_download attempt else false

abbrev range_or : ℕ → Option ℕ → ℕ
range_or total none = total
range_or total (some parsed) = parsed

-- The new total size, from the Content-Range, the old total or the length of the body.
unfoldable pub response_total : Progress → Response → ℕ
unfolding parse_upgrade_content_range_total
response_total p r =
    let known = range_or p.total_size (parse_upgrade_content_range_total r.content_range) in
    if ltb 0 known
    then known
    else if ltb 0 r.content_length
    then if r.status == 206 then p.downloaded_size + r.content_length else r.content_length
    else p.total_size

-- How an attempt ends: by an error that ends the download, or with whether there is another attempt.
pub data Step : Type 0 where
  failed : DownloadError → Progress → Step
  ended : Bool → Progress → Step

abbrev pub contents : Option (List ℕ) → List ℕ
contents none = []
contents (some bytes) = bytes

abbrev pub extra_bytes : CopyEnd → List ℕ
extra_bytes complete = []
extra_bytes interrupted = []
extra_bytes (torn extra) = extra

abbrev pub is_complete : CopyEnd → Bool
is_complete complete = true
is_complete interrupted = false
is_complete (torn extra) = false

-- lastErr after the file is closed, for the size that it has then.
unfoldable pub copy_error : Response → ℕ → ℕ → LastError
copy_error r current_size total_size =
    if not (is_complete r.copy_end)
    then transient
    else if r.sync_fails
    then transient
    else if r.close_fails
    then transient
    else if ltb 0 total_size
    then if ltb current_size total_size
      then transient
      else if ltb total_size current_size
      then transient
      else fine
    else fine

abbrev or_again : ℕ → LastError → Bool
or_again attempt fine = false
or_again attempt transient = retry_upgrade_download attempt
or_again attempt permanent = retry_upgrade_download attempt

-- The body is written to the file, after its `old` bytes, and to the hash.
unfoldable pub copy_body : ℕ → Response → List ℕ → Progress → Step
unfolding copy_error retry_upgrade_download
copy_body attempt r old p =
    let file = old ++ (r.body ++ extra_bytes r.copy_end) in
    let p' = record p { part = some file; hashed = p.hashed ++ r.body } in
    let e = copy_error r (length file) p.total_size in
    if r.stat_fails
    then failed stat_failed p'
    else ended (or_again attempt e) (record p' { downloaded_size = length file; last_error = e })

abbrev pub restarted : Progress → Progress
restarted p = record p { downloaded_size = 0; hashed = [] }

-- An answer with a body, which continues the part or begins again.
unfoldable pub receive_body : ℕ → Response → Progress → Step
unfolding copy_body
receive_body attempt r p =
    if r.open_fails
    then failed open_failed p
    else if ltb 0 p.downloaded_size
    then if r.status == 206
      then copy_body attempt r (contents p.part) p
      else copy_body attempt r [] (restarted p)
    else copy_body attempt r [] p

-- The range is not satisfiable: the part is complete, or it is removed.
unfoldable pub reject_range : ℕ → Response → Progress → Step
unfolding retry_upgrade_download
reject_range attempt r p =
    if ltb 0 p.total_size && (p.downloaded_size == p.total_size)
    then ended false p
    else if r.reset_fails
    then failed reset_failed p
    else ended (retry_upgrade_download attempt)
        (record (restarted p) { part = none; last_error = transient })

unfoldable pub on_response : ℕ → Response → Progress → Step
unfolding response_total reject_range receive_body retry_upgrade_download_status
    is_retryable_upgrade_download_status
on_response attempt r p =
    let p' = record p { total_size = response_total p r } in
    if r.status == 416
    then reject_range attempt r p'
    else if leb 300 r.status
    then ended (retry_upgrade_download_status attempt r.status) (record p' {
      last_error = if is_retryable_upgrade_download_status r.status then transient else permanent;
    })
    else receive_body attempt r p'

unfoldable pub on_answer : ℕ → Answer → Progress → Step
unfolding on_response retry_upgrade_download
on_answer attempt bad_request p = failed request_failed p
on_answer attempt no_answer p =
    ended (retry_upgrade_download attempt) (record p { last_error = transient })
on_answer attempt (answered r) p = on_response attempt r (record p { last_error = fine })

abbrev pub Attempts : Type 0
Attempts = Progress × Option DownloadError

-- A step, with the attempts that may follow.
abbrev pub go_on : (Progress → Attempts) → Step → Attempts
go_on more (failed e p) = (p, some e)
go_on more (ended true p) = more p
go_on more (ended false p) = (p, none)

-- The attempts from one on, with the number that are left.
unfoldable pub attempts : Server → Text → ℕ → ℕ → Progress → Attempts
unfolding on_answer
attempts server url zero attempt p = (p, none)
attempts server url (suc left) attempt p =
    go_on (λ p'. attempts server url left (suc attempt) p')
      (on_answer attempt (server attempt url p.downloaded_size) p)

abbrev pub Result : Type 0
Result = Disk × Option DownloadError

-- The file is checked, by its size and the sum of its hash, and takes the place of the target.
unfoldable pub check_part :
    (List ℕ → Text) → ClientUpgradeCommand → Faults → Disk → (file hashed : List ℕ) → Result
check_part sha256 upgrade faults disk file hashed =
    if ltb 0 upgrade.size && not (length file == upgrade.size)
    then (record disk { part = some file }, some size_mismatch)
    else if not (is_empty upgrade.sha256)
        && not (eq_text (to_lower (sha256 hashed)) (to_lower upgrade.sha256))
    then (record disk { part = none }, some sha256_mismatch)
    else if faults.promote_fails
    then (record disk { part = some file }, some promote_failed)
    else (record { part = none; target = some file }, none)

unfoldable pub promote :
    (List ℕ → Text)
    → ClientUpgradeCommand
    → Faults
    → Disk
    → (hashed : List ℕ) → Option (List ℕ)
    → LastError
    → Result
unfolding check_part
promote sha256 upgrade faults disk hashed part transient =
    (record disk { part = part }, some retryable)
promote sha256 upgrade faults disk hashed part permanent =
    (record disk { part = part }, some not_retryable)
promote sha256 upgrade faults disk hashed none fine =
    (record disk { part = none }, some stat_failed)
promote sha256 upgrade faults disk hashed (some file) fine =
    check_part sha256 upgrade faults disk file hashed

abbrev pub end_attempts : (List ℕ → Text) → ClientUpgradeCommand → Faults → Disk → Attempts → Result
end_attempts sha256 upgrade faults disk (p, none) =
    promote sha256 upgrade faults disk p.hashed p.part p.last_error
end_attempts sha256 upgrade faults disk (p, some e) = (record disk { part = p.part }, some e)

-- The state before the attempts, for a part that was loaded.
abbrev pub start_of : ClientUpgradeCommand → Option (List ℕ) → Progress
start_of upgrade part = record {
  part = part;
  downloaded_size = length (contents part);
  hashed = contents part;
  total_size = upgrade.size;
  last_error = fine;
}

-- The part that is larger than the package is removed.
abbrev pub oversized : ClientUpgradeCommand → Option (List ℕ) → Bool
oversized upgrade part = ltb 0 upgrade.size && ltb upgrade.size (length (contents part))

unfoldable pub resume :
    (List ℕ → Text) → Server → Text → ClientUpgradeCommand → Faults → Disk → Result
unfolding attempts promote
resume sha256 server url upgrade faults disk =
    let go = λ (part : Option (List ℕ)).
      end_attempts sha256 upgrade faults disk
        (attempts server url upgrade_download_max_attempts 0 (start_of upgrade part)) in
    if faults.load_fails
    then (disk, some load_failed)
    else if oversized upgrade disk.part
    then if faults.remove_fails then (disk, some remove_failed) else go none
    else go disk.part

-- A target without a part becomes the part.
unfoldable pub recover : Disk → Disk
recover disk = elim disk.part [
  | some part ↦ disk
  | none ↦ elim disk.target [ none ↦ disk | some file ↦ record { part = some file; target = none } ]
]

abbrev pub needs_recovery : Disk → Bool
needs_recovery disk = elim disk.part [
  | some part ↦ false
  | none ↦ elim disk.target [ none ↦ false | some file ↦ true ]
]

abbrev pub url_of : Text → Text → Text
url_of api url = if has_prefix url (codes "/") then trim_right (λ c. c == b'/') api ++ url else url

unfoldable pub download_upgrade_binary :
    (List ℕ → Text)
    → Server
    → (api target_path : Text) → ClientUpgradeCommand
    → Faults
    → Disk
    → Result
unfolding resume recover
download_upgrade_binary sha256 server api target_path upgrade faults disk =
    if is_empty (trim_space target_path)
    then (disk, some target_required)
    else if needs_recovery disk && faults.prepare_fails
    then (disk, some prepare_failed)
    else resume sha256 server (url_of api upgrade.download_url) upgrade faults (recover disk)
