-- ===== src/Client/Download/Verified.antt =====
-- What the target of a download holds.
use mathlib.Core.List.{append-nil}
use navmesh_go.Base.{
  ℕ, zero, suc, ◌<◌, ◌≡◌, ◌∙◌, sym, refl, subst, true, false, ◌&&◌, not, Option, none, some, List,
  [], ◌∷◌, ◌++◌, arith, ltb, leb, ◌==◌, length, on_if,
}
use navmesh_go.Base.Text.{Text, eq_text, is_empty, trim_space, to_lower}
use navmesh_go.Client.Download.{
  ClientUpgradeCommand, Disk, Response, Answer, bad_request, no_answer, answered, Server, Faults,
  LastError, fine, transient, permanent, Progress, upgrade_download_max_attempts, Step, failed,
  ended, restarted, Result, check_part, end_attempts, oversized, url_of, needs_recovery, contents,
  extra_bytes, copy_body, receive_body, reject_range, on_response, on_answer, Attempts, go_on,
  attempts, promote, start_of, resume, recover, download_upgrade_binary,
}

-- The file took no bytes in a write that failed.
abbrev pub IsUntorn : Answer → Type 0
IsUntorn bad_request = Unit
IsUntorn no_answer = Unit
IsUntorn (answered r) = extra_bytes r.copy_end ≡ []

-- The hash was given the bytes of the part, and the size is theirs.
abbrev pub IsHashed : Progress → Type 0
IsHashed p = (p.hashed ≡ contents p.part) × (p.downloaded_size ≡ length (contents p.part))

-- What holds after a step that does not end the download.
abbrev pub Ends : (Progress → Type 0) → Step → Type 0
Ends P (failed e p) = Unit
Ends P (ended again p) = P p

abbrev Good : (Progress → Type 0) → Attempts → Type 0
Good P r = r.1 ≡ none → P r.0

go_on-keep :
    (P : Progress → Type 0) (more : Progress → Attempts) (step : Step)
    → Ends P step
    → ((p : Progress) → P p → Good P (more p))
    → Good P (go_on more step)
go_on-keep P more (failed e p) h k none_left = absurd cc
go_on-keep P more (ended true p) h k none_left = k p h none_left
go_on-keep P more (ended false p) h k none_left = h

-- A property that every attempt keeps holds after the attempts.
pub attempts-keep :
    (P : Progress → Type 0) (server : Server) (url : Text)
    → ((attempt : ℕ) (p : Progress)
        → P p
        → Ends P (on_answer attempt (server attempt url p.downloaded_size) p))
    → (left attempt : ℕ) (p : Progress) → P p
    → Good P (attempts server url left attempt p)
unfolding attempts
attempts-keep P server url step zero attempt p h e = h
attempts-keep P server url step (suc left) attempt p h e =
    go_on-keep P (λ p'. attempts server url left (suc attempt) p')
      (on_answer attempt (server attempt url p.downloaded_size) p) (step attempt p h)
      (λ p' h'. attempts-keep P server url step left (suc attempt) p' h') e

pub no_bytes : (bytes : List ℕ) → length bytes ≡ 0 → bytes ≡ []
no_bytes [] e = refl
no_bytes (b ∷ bytes) e = absurd (omega arith)

copy_body-IsHashed :
    (attempt : ℕ) (r : Response) (old : List ℕ) (p : Progress)
    → extra_bytes r.copy_end ≡ []
    → p.hashed ≡ old
    → Ends IsHashed (copy_body attempt r old p)
unfolding copy_body
copy_body-IsHashed attempt r old p e h =
    let whole : p.hashed ++ r.body ≡ old ++ (r.body ++ extra_bytes r.copy_end) =
      rw (e, h, append-nil r.body) refl in
    on_if (Ends IsHashed) r.stat_fails (λ e. tt) (λ e. (whole, refl))

receive_body-IsHashed :
    (attempt : ℕ) (r : Response) (p : Progress)
    → extra_bytes r.copy_end ≡ []
    → IsHashed p
    → Ends IsHashed (receive_body attempt r p)
unfolding receive_body
receive_body-IsHashed attempt r p e (hashed, size) =
    on_if (Ends IsHashed) r.open_fails (λ x. tt)
      (λ x.
        on_if (Ends IsHashed) (ltb 0 p.downloaded_size)
          (λ more.
            on_if (Ends IsHashed) (r.status == 206)
              (λ y. copy_body-IsHashed attempt r (contents p.part) p e hashed)
              (λ y. copy_body-IsHashed attempt r [] (restarted p) e refl))
          (λ start.
            copy_body-IsHashed attempt r [] p e
              (hashed ∙ no_bytes (contents p.part) (ground arith))))

reject_range-IsHashed :
    (attempt : ℕ) (r : Response) (p : Progress)
    → IsHashed p
    → Ends IsHashed (reject_range attempt r p)
unfolding reject_range
reject_range-IsHashed attempt r p h =
    on_if (Ends IsHashed) (ltb 0 p.total_size && (p.downloaded_size == p.total_size)) (λ x. h)
      (λ x. on_if (Ends IsHashed) r.reset_fails (λ y. tt) (λ y. (refl, refl)))

-- Whatever is answered, the hash stays that of the part.
on_answer-IsHashed :
    (attempt : ℕ) (answer : Answer) (p : Progress)
    → IsUntorn answer
    → IsHashed p
    → Ends IsHashed (on_answer attempt answer p)
unfolding on_answer on_response
on_answer-IsHashed attempt bad_request p e h = tt
on_answer-IsHashed attempt no_answer p e h = h
on_answer-IsHashed attempt (answered r) p e h =
    on_if (Ends IsHashed) (r.status == 416) (λ x. reject_range-IsHashed attempt r _ h)
      (λ x.
        on_if (Ends IsHashed) (leb 300 r.status) (λ y. h)
          (λ y. receive_body-IsHashed attempt r _ e h))

-- The target is a file of the size and the sum that the command names, as far as it names them.
pub record IsVerified (sha256 : List ℕ → Text) (upgrade : ClientUpgradeCommand) (disk : Disk)
    : Type 0 where
  pub file : List ℕ
  pub promoted : disk.target ≡ some file
  pub no_part : disk.part ≡ none
  pub sized : 0 < upgrade.size → length file ≡ upgrade.size
  pub summed :
      is_empty upgrade.sha256 ≡ false
      → eq_text (to_lower (sha256 file)) (to_lower upgrade.sha256) ≡ true

module _ (sha256 : List ℕ → Text) (upgrade : ClientUpgradeCommand) (faults : Faults) where
  abbrev Succeeds : Result → Type 0
  Succeeds r = r.1 ≡ none → IsVerified sha256 upgrade r.0

  check_part-Succeeds :
      (disk : Disk) (file : List ℕ) → Succeeds (check_part sha256 upgrade faults disk file file)
  unfolding check_part
  check_part-Succeeds disk file =
      on_if Succeeds (ltb 0 upgrade.size && not (length file == upgrade.size)) (λ x e. absurd cc)
        (λ sized.
          on_if Succeeds
            (not (is_empty upgrade.sha256)
              && not (eq_text (to_lower (sha256 file)) (to_lower upgrade.sha256)))
            (λ x e. absurd cc)
            (λ summed.
              on_if Succeeds faults.promote_fails (λ x e. absurd cc)
                (λ x e. record {
                  file = file;
                  promoted = refl;
                  no_part = refl;
                  sized = λ h. ground arith;
                  summed = λ h. ground arith;
                })))

  promote-Succeeds :
      (disk : Disk) (hashed : List ℕ) (part : Option (List ℕ)) (last : LastError)
      → hashed ≡ contents part
      → Succeeds (promote sha256 upgrade faults disk hashed part last)
  unfolding promote
  promote-Succeeds disk hashed part transient h e = absurd cc
  promote-Succeeds disk hashed part permanent h e = absurd cc
  promote-Succeeds disk hashed none fine h e = absurd cc
  promote-Succeeds disk hashed (some file) fine h e =
      subst (λ l. Succeeds (check_part sha256 upgrade faults disk file l)) (sym h)
        (check_part-Succeeds disk file) e

  end_attempts-Succeeds :
      (disk : Disk) (r : Attempts)
      → Good IsHashed r
      → Succeeds (end_attempts sha256 upgrade faults disk r)
  end_attempts-Succeeds disk (p, some x) h e = absurd cc
  end_attempts-Succeeds disk (p, none) h e =
      promote-Succeeds disk p.hashed p.part p.last_error (h refl).0 e

  resume-Succeeds :
      (server : Server) (url : Text) (disk : Disk)
      → ((attempt offset : ℕ) → IsUntorn (server attempt url offset))
      → Succeeds (resume sha256 server url upgrade faults disk)
  unfolding resume
  resume-Succeeds server url disk untorn =
      let go : (part : Option (List ℕ))
          → Succeeds (
              end_attempts sha256 upgrade faults disk
                (attempts server url upgrade_download_max_attempts 0 (start_of upgrade part))) =
        λ part.
          end_attempts-Succeeds disk
            (attempts server url upgrade_download_max_attempts 0 (start_of upgrade part))
            (attempts-keep IsHashed server url
              (λ attempt p.
                on_answer-IsHashed attempt (server attempt url p.downloaded_size) p
                  (untorn attempt p.downloaded_size))
              upgrade_download_max_attempts 0 (start_of upgrade part) (refl, refl)) in
      on_if Succeeds faults.load_fails (λ x e. absurd cc)
        (λ x.
          on_if Succeeds (oversized upgrade disk.part)
            (λ y. on_if Succeeds faults.remove_fails (λ z e. absurd cc) (λ z. go none))
            (λ y. go disk.part))

  -- Whatever part or target is there, whatever the server answers, and whatever fails, if no write to
  -- the file fails after it took some bytes, a download without an error leaves no part and a target
  -- of the size and the sum that the command names, as far as it names them.
  pub download-IsVerified :
      (server : Server) (api target_path : Text) (disk : Disk)
      → ((attempt : ℕ) (url : Text) (offset : ℕ) → IsUntorn (server attempt url offset))
      → (download_upgrade_binary sha256 server api target_path upgrade faults disk).1 ≡ none
      → IsVerified sha256 upgrade
          (download_upgrade_binary sha256 server api target_path upgrade faults disk).0
  unfolding download_upgrade_binary
  download-IsVerified server api target_path disk untorn =
      on_if Succeeds (is_empty (trim_space target_path)) (λ x e. absurd cc)
        (λ x.
          on_if Succeeds (needs_recovery disk && faults.prepare_fails) (λ y e. absurd cc)
            (λ y.
              resume-Succeeds server (url_of api upgrade.download_url) (recover disk)
                (λ attempt offset. untorn attempt (url_of api upgrade.download_url) offset)))
