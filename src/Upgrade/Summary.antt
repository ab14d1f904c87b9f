-- ===== src/Upgrade/Summary.antt =====
-- services/device_upgrade_service.go, summarizeUpgradeBatch: the state of a batch, from the rows of a
-- query that counts the tasks of each status and sums their progress. Counts are small next to the
-- range of int.
pub mod Counts
use navmesh_go.Base.{ℕ, Bool, true, false, List, [], ◌∷◌, ◌==◌, if◌then◌else◌}
use navmesh_go.Base.Int.{ℤ, pos, pos_part, ltb_ℤ, eq_ℤ, add_ℤ, quot_ℤ}
use navmesh_go.Base.Text.{Text, codes}
use navmesh_go.Domain.{
  DeviceUpgradeBatch, upgrade_pending, upgrade_running, upgrade_success, upgrade_failed,
  upgrade_canceled,
}
use navmesh_go.Upgrade.Kind.{clamp_int}

pub record UpgradeBatchTaskAggregate : Type 0 where
  pub status : ℕ
  pub count : ℤ
  pub progress_sum : ℤ

-- The counters of the loop over the rows.
pub record Counters : Type 0 where
  pub total : ℤ
  pub progress_sum : ℤ
  pub pending : ℤ
  pub running : ℤ
  pub success : ℤ
  pub failed : ℤ
  pub canceled : ℤ

unfoldable pub set_count : ℕ → ℤ → Counters → Counters
set_count status n c =
    if status == upgrade_pending
    then record c { pending = n }
    else if status == upgrade_running
    then record c { running = n }
    else if status == upgrade_success
    then record c { success = n }
    else if status == upgrade_failed
    then record c { failed = n }
    else if status == upgrade_canceled
    then record c { canceled = n }
    else c

unfoldable pub count_row : Counters → UpgradeBatchTaskAggregate → Counters
unfolding set_count
count_row c row = set_count row.status row.count (record c {
  total = add_ℤ c.total row.count;
  progress_sum = add_ℤ c.progress_sum row.progress_sum;
})

unfoldable pub count_rows : Counters → List UpgradeBatchTaskAggregate → Counters
unfolding count_row
count_rows c [] = c
count_rows c (row ∷ rest) = count_rows (count_row c row) rest

abbrev pub zero_counters : Counters
zero_counters = record {
  total = pos 0;
  progress_sum = pos 0;
  pending = pos 0;
  running = pos 0;
  success = pos 0;
  failed = pos 0;
  canceled = pos 0;
}

pub record DeviceUpgradeBatchSummary : Type 0 where
  pub total_count : ℤ
  pub pending_count : ℤ
  pub running_count : ℤ
  pub success_count : ℤ
  pub failed_count : ℤ
  pub canceled_count : ℤ
  pub finished_count : ℤ
  pub progress : ℤ
  pub status : Text

unfoldable pub batch_status : ℤ → Counters → Text
batch_status total c =
    if eq_ℤ total (pos 0)
    then codes "empty"
    else if ltb_ℤ (pos 0) c.running
    then codes "running"
    else if ltb_ℤ (pos 0) c.pending
    then codes "pending"
    else if ltb_ℤ (pos 0) c.failed
    then codes "failed"
    else if ltb_ℤ (pos 0) c.canceled
    then codes "canceled"
    else codes "success"

unfoldable pub summarize : ℤ → Counters → DeviceUpgradeBatchSummary
unfolding batch_status clamp_int
summarize given c =
    let total = if ltb_ℤ (pos 0) c.total then c.total else given in
    record {
      total_count = total;
      pending_count = c.pending;
      running_count = c.running;
      success_count = c.success;
      failed_count = c.failed;
      canceled_count = c.canceled;
      finished_count = add_ℤ (add_ℤ c.success c.failed) c.canceled;
      progress =
          if ltb_ℤ (pos 0) total
          then clamp_int (quot_ℤ c.progress_sum (pos_part total)) (pos 0) (pos 100)
          else pos 0;
      status = batch_status total c;
    }

unfoldable pub summarize_upgrade_batch :
    DeviceUpgradeBatch → List UpgradeBatchTaskAggregate → DeviceUpgradeBatchSummary
unfolding summarize count_rows
summarize_upgrade_batch batch rows = summarize batch.total_count (count_rows zero_counters rows)
