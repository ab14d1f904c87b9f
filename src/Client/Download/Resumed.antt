-- ===== src/Client/Download/Resumed.antt =====
-- A download from a server that serves one file.
use navmesh_go.Base.{
  ℕ, zero, suc, ◌+◌, ◌≤◌, ◌<◌, ◌≡◌, sym, refl, ap, subst, Bool, true, false, ◌&&◌, not, none, some,
  List, ◌⊎◌, arith, ltb, ◌==◌, length, length-append, Bool-cases, inl, inr,
}
use navmesh_go.Base.Text.{Text, eq_text, is_empty, trim_space, to_lower}
use navmesh_go.Client.Download.{
  ClientUpgradeCommand, Disk, Server, Faults, Progress, upgrade_download_max_attempts, Step, failed,
  ended, check_part, end_attempts, oversized, url_of, needs_recovery, contents, Attempts, go_on,
  attempts, promote, start_of, resume, recover, download_upgrade_binary,
}
use navmesh_go.Client.Download.Honest.{
  IsHonest, IsWhole, IsStart, Holds, Arrived, Fits, on_answer-Fits, within,
}

module _ (file : List ℕ) (some_file : 0 < length file) where
  abbrev Done : Attempts → Type 0
  Done r = (r.1 ≡ none) × Arrived file some_file r.0

  go_on-Done :
      (W : Type 0) (attempt : ℕ) (more : Progress → Attempts) (step : Step)
      → Fits file some_file W attempt step
      → W ⊎ suc attempt < upgrade_download_max_attempts
      → ((p : Progress) → Holds file some_file p → ¬ W → Done (more p))
      → Done (go_on more step)
  go_on-Done W attempt more (failed e p) fits c k = absurd fits
  go_on-Done W attempt more (ended true p) (h, not_whole) c k = k p h not_whole
  go_on-Done W attempt more (ended false p) fits c k = (refl, fits c)

  module _ (server : Server) (url : Text) (whole_at : ℕ)
      (honest : (attempt offset : ℕ) → IsHonest file offset (server attempt url offset))
      (whole : (offset : ℕ)
        → offset ≤ length file
        → IsWhole file offset (server whole_at url offset)) where
    attempts-Done :
        (left attempt : ℕ) (p : Progress)
        → attempt ≤ whole_at
        → whole_at < attempt + left
        → whole_at < upgrade_download_max_attempts
        → Holds file some_file p
        → Done (attempts server url left attempt p)
    unfolding attempts
    attempts-Done zero attempt p low high bound h = absurd (omega arith)
    attempts-Done (suc left) attempt p low high bound h =
        let W : Type 0 = IsWhole file p.downloaded_size (server attempt url p.downloaded_size) in
        let fits =
          on_answer-Fits file some_file attempt (server attempt url p.downloaded_size) p
            (honest attempt p.downloaded_size) h in
        let now : attempt ≡ whole_at → W = λ e.
          subst (λ i. IsWhole file p.downloaded_size (server i url p.downloaded_size)) (sym e)
            (whole p.downloaded_size (within file some_file p h)) in
        go_on-Done W attempt (λ p'. attempts server url left (suc attempt) p') _ fits
          (elim (Bool-cases (attempt == whole_at)) [
            | inl e ↦ inl (now (ground arith))
            | inr e ↦ inr (ground arith)
          ])
          (λ p' h' not_whole.
            attempts-Done left (suc attempt) p'
              (elim (Bool-cases (attempt == whole_at)) [
                | inl e ↦ absurd (not_whole (now (ground arith)))
                | inr e ↦ ground arith
              ])
              (omega arith) bound h')

-- No error of the disk outside the attempts.
abbrev pub no_faults : Faults
no_faults = record {
  prepare_fails = false;
  load_fails = false;
  remove_fails = false;
  promote_fails = false;
}

promote-file :
    (sha256 : List ℕ → Text) (upgrade : ClientUpgradeCommand) (disk : Disk) (file : List ℕ)
    → upgrade.size ≡ length file
    → (is_empty upgrade.sha256 ≡ false
        → eq_text (to_lower (sha256 file)) (to_lower upgrade.sha256) ≡ true)
    → check_part sha256 upgrade no_faults disk file file
      ≡ (record { part = none; target = some file }, none)
unfolding check_part
promote-file sha256 upgrade disk file size sum =
    let sized : ltb 0 upgrade.size && not (length file == upgrade.size) ≡ false = ground arith in
    elim (Bool-cases (is_empty upgrade.sha256)) [
      | inl none_given ↦ rw (sized, none_given) refl
      | inr given ↦ rw (sized, given, sum given) refl
    ]

and_false : (b : Bool) → b && false ≡ false
and_false true = refl
and_false false = refl

module _ (sha256 : List ℕ → Text) (upgrade : ClientUpgradeCommand) (file : List ℕ)
    (some_file : 0 < length file) (size : upgrade.size ≡ length file)
    (sum : is_empty upgrade.sha256 ≡ false
      → eq_text (to_lower (sha256 file)) (to_lower upgrade.sha256) ≡ true)
    (server : Server)
    (honest : (attempt : ℕ) (url : Text) (offset : ℕ)
      → IsHonest file offset (server attempt url offset))
    (whole_at : ℕ) (in_time : whole_at < upgrade_download_max_attempts)
    (whole : (url : Text) (offset : ℕ)
      → offset ≤ length file
      → IsWhole file offset (server whole_at url offset)) where
  end_attempts-file :
      (disk : Disk) (r : Attempts)
      → Done file some_file r
      → end_attempts sha256 upgrade no_faults disk r
        ≡ (record { part = none; target = some file }, none)
  unfolding promote
  end_attempts-file disk (p, some e) (ok, arrived) = absurd cc
  end_attempts-file disk (p, none) (ok, (last, part, hashed)) =
      rw (last, part, hashed) (promote-file sha256 upgrade disk file size sum)

  resume-file :
      (url : Text) (disk : Disk)
      → IsStart file some_file disk.part
      → resume sha256 server url upgrade no_faults disk
        ≡ (record { part = none; target = some file }, none)
  unfolding resume
  resume-file url disk (missing, split) =
      let fits : oversized upgrade disk.part ≡ false =
        ground (arith, ap length split, length-append (contents disk.part) missing) in
      let arrived =
        attempts-Done file some_file server url whole_at (λ i. honest i url) (whole url)
          upgrade_download_max_attempts 0 (start_of upgrade disk.part) (omega arith) in_time in_time
          ((refl, refl), size, (missing, split)) in
      rw fits (
        end_attempts-file disk
          (attempts server url upgrade_download_max_attempts 0 (start_of upgrade disk.part))
          arrived)

  -- The file is not empty, the command names its size, and its sum if it names one; the server serves
  -- it, or fails in a way that passes, at every attempt, and answers one of the six attempts with all
  -- that is left; the disk works; and the part, or the target in its place, is a start of the file.
  -- Then the download ends without an error, the target is the file, and no part is left.
  pub download-file :
      (api target_path : Text) (disk : Disk)
      → is_empty (trim_space target_path) ≡ false
      → IsStart file some_file (recover disk).part
      → download_upgrade_binary sha256 server api target_path upgrade no_faults disk
        ≡ (record { part = none; target = some file }, none)
  unfolding download_upgrade_binary
  download-file api target_path disk path start =
      let no_fault : needs_recovery disk && false ≡ false = and_false (needs_recovery disk) in
      rw (path, no_fault) (resume-file (url_of api upgrade.download_url) (recover disk) start)
