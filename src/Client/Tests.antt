-- ===== src/Client/Tests.antt =====
-- The client at concrete inputs.
use mathlib.Core.List.{append-nil}
use navmesh_go.Base.{
  ◌*◌, ◌^◌, ℕ, zero, suc, ◌≡◌, refl, false, Option, none, some, List, [], drop, take, arith, inl,
  inr,
}
use navmesh_go.Base.Text.{Text, codes, trim_space, to_lower, eq_text}
use navmesh_go.Base.Strconv.{parse_int}
use navmesh_go.Base.Int.{pos}
use navmesh_go.Client.Backoff.{normalize_reconnect, backoff_delay, backoff_delay-min}
use navmesh_go.Client.Download.{
  ClientUpgradeCommand, Disk, CopyEnd, complete, interrupted, torn, Response, answered, Server,
  DownloadError, sha256_mismatch, retryable, parse_upgrade_content_range_total,
  is_retryable_upgrade_download_status, recover, download_upgrade_binary,
}
use navmesh_go.Client.Download.Verified.{IsUntorn, IsVerified, download-IsVerified}
use navmesh_go.Client.Download.Honest.{IsHonest}
use navmesh_go.Client.Download.Resumed.{no_faults, download-file}

abbrev file : List ℕ
file = codes "abcde"

-- A sum that is the bytes, which serves as well as another.
abbrev sum_of : List ℕ → Text
sum_of bytes = bytes

abbrev upgrade : ClientUpgradeCommand
upgrade = record { download_url = codes "/packages/1"; size = 5; sha256 = codes "ABCDE" }

abbrev response : ℕ → List ℕ → CopyEnd → Response
response status body copy_end = record {
  status = status;
  content_range = [];
  content_length = 0;
  body = body;
  copy_end = copy_end;
  sync_fails = false;
  close_fails = false;
  open_fails = false;
  stat_fails = false;
  reset_fails = false;
}

-- The connection breaks, the server is busy, and then it serves what is left.
abbrev server : Server
server zero url offset = answered (response 200 (take 2 file) interrupted)
server (suc zero) url offset = answered (response 503 [] complete)
server (suc (suc n)) url offset = answered (response 206 (drop offset file) complete)

abbrev empty_disk : Disk
empty_disk = record { part = none; target = none }

abbrev result : Disk × Option DownloadError
result =
    download_upgrade_binary sum_of server (codes "http://nav") (codes "/tmp/client") upgrade
      no_faults empty_disk

download_test : result ≡ (record { part = none; target = some file }, none)
unfolding download_upgrade_binary trim_space eq_text to_lower
download_test = refl

-- After a write that took a part of what it was given, the hash misses those bytes.
abbrev torn_server : Server
torn_server zero url offset = answered (response 200 (codes "ab") (torn (codes "c")))
torn_server (suc n) url offset = answered (response 206 (drop offset file) complete)

torn_test :
    download_upgrade_binary sum_of torn_server
      (codes "http://nav")
      (codes "/tmp/client")
      upgrade
      no_faults
      empty_disk
    ≡ (empty_disk, some sha256_mismatch)
unfolding download_upgrade_binary trim_space eq_text to_lower
torn_test = refl

-- Without a size in the command, the length of the page of an error is taken for the size.
abbrev busy_server : Server
busy_server zero url offset = answered (record (response 503 [] complete) { content_length = 30 })
busy_server (suc n) url offset =
    answered (record (response 200 file complete) { content_length = 5 })

busy_test :
    (download_upgrade_binary sum_of busy_server
      (codes "http://nav")
      (codes "/tmp/client")
      (record upgrade { size = 0 })
      no_faults
      empty_disk).1
    ≡ some retryable
unfolding download_upgrade_binary trim_space eq_text to_lower
busy_test = refl

content_range_test : parse_upgrade_content_range_total (codes "bytes 2-4/5") ≡ some 5
unfolding parse_upgrade_content_range_total trim_space parse_int
content_range_test = refl

server-IsHonest :
    (attempt : ℕ) (url : Text) (offset : ℕ) → IsHonest file offset (server attempt url offset)
unfolding parse_upgrade_content_range_total is_retryable_upgrade_download_status trim_space
server-IsHonest zero url offset = record {
  total = refl;
  passing = λ e. absurd cc;
  missing = drop 2 file;
  body = λ e. refl;
  untorn = refl;
  opens = refl;
  has_size = refl;
  resets = refl;
}
server-IsHonest (suc zero) url offset = record {
  total = refl;
  passing = λ e. inr refl;
  missing = [];
  body = λ e. absurd cc;
  untorn = refl;
  opens = refl;
  has_size = refl;
  resets = refl;
}
server-IsHonest (suc (suc n)) url offset = record {
  total = refl;
  passing = λ e. absurd cc;
  missing = [];
  body = λ e. append-nil (drop offset file);
  untorn = refl;
  opens = refl;
  has_size = refl;
  resets = refl;
}

server-IsUntorn : (attempt : ℕ) (url : Text) (offset : ℕ) → IsUntorn (server attempt url offset)
server-IsUntorn zero url offset = refl
server-IsUntorn (suc zero) url offset = refl
server-IsUntorn (suc (suc n)) url offset = refl

download-IsVerified_example : IsVerified sum_of upgrade result.0
unfolding download_upgrade_binary trim_space eq_text to_lower
download-IsVerified_example =
    download-IsVerified sum_of upgrade no_faults server (codes "http://nav") (codes "/tmp/client")
      empty_disk server-IsUntorn refl

download-file_example : result ≡ (record { part = none; target = some file }, none)
unfolding eq_text to_lower trim_space recover
download-file_example =
    download-file sum_of upgrade file (omega arith) refl (λ e. refl) server server-IsHonest 2
      (omega arith)
      (λ url offset h. record {
        copied = refl;
        synced = refl;
        closed = refl;
        rest = inl (refl, refl);
      })
      (codes "http://nav") (codes "/tmp/client") empty_disk refl (file, refl)

-- Five seconds doubled four times are more than a minute.
backoff_delay-min_example :
    backoff_delay (normalize_reconnect (pos (5 * 10 ^ 9)) (pos (60 * 10 ^ 9))) 5 ≡ pos (60 * 10 ^ 9)
backoff_delay-min_example =
    backoff_delay-min (5 * 10 ^ 9) (60 * 10 ^ 9) 5 (omega arith) (omega arith) (omega arith)
