-- ===== src/Upgrade/Report/Progress.antt =====
-- The progress that is written, in the range of its status.
use navmesh_go.Base.{ℕ, ◌≡◌, ◌⊎◌, arith}
use navmesh_go.Base.Int.{ℤ, pos, ◌≤ℤ◌}
use navmesh_go.Base.Text.{Text}
use navmesh_go.Domain.{upgrade_running, upgrade_success, upgrade_failed, upgrade_canceled}
use navmesh_go.Upgrade.Report.{report_status, report_progress, report_downloaded_size}

-- What a progress may be in a status: 1 to 99 while it runs, 100 after success, 0 to 100 else.
abbrev pub InRange : ℕ → ℤ → Type 0
InRange status progress =
    (pos 0 ≤ℤ progress)
    × (progress ≤ℤ pos 100)
    × (status ≡ upgrade_running → (pos 1 ≤ℤ progress) × (progress ≤ℤ pos 99))
    × (status ≡ upgrade_success → progress ≡ pos 100)

-- Whatever a device reports, and whatever was written before, the progress is in the range of its status.
pub report_progress-InRange :
    (status : ℕ) (progress previous : ℤ) → InRange status (report_progress status progress previous)
unfolding report_progress
report_progress-InRange status progress previous = ground arith

pub report_downloaded_size-nonneg :
    (downloaded previous : ℤ)
    → pos 0 ≤ℤ previous
    → pos 0 ≤ℤ report_downloaded_size downloaded previous
unfolding report_downloaded_size
report_downloaded_size-nonneg downloaded previous h = ground arith

-- A reported status is one of the four that a device may set, or none.
pub report_status_cases :
    (value : Text)
    → (report_status value ≡ 0)
      ⊎ (report_status value ≡ upgrade_running)
      ⊎ (report_status value ≡ upgrade_success)
      ⊎ (report_status value ≡ upgrade_failed)
      ⊎ (report_status value ≡ upgrade_canceled)
unfolding report_status
report_status_cases value = ground arith
