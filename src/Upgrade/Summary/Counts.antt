-- ===== src/Upgrade/Summary/Counts.antt =====
-- The summary of a batch counts its tasks.
use navmesh_go.Base.{
  ℕ, ◌+◌, ◌≤◌, ◌≡◌, ◌∙◌, ◌↔◌, sym, refl, ap, Bool, true, false, ◌||◌, List, [], ◌∷◌, arith, ◌==◌,
  if◌then◌else◌, length, keep, length-keep-le, all,
}
use navmesh_go.Base.Int.{ℤ, pos, ltb_ℤ, add_ℤ, ◌≤ℤ◌}
use navmesh_go.Base.Text.{codes}
use navmesh_go.Domain.{
  DeviceUpgradeBatch, DeviceUpgradeTask, upgrade_pending, upgrade_running, upgrade_success,
  upgrade_failed, upgrade_canceled,
}
use navmesh_go.Upgrade.Kind.{clamp_int}
use navmesh_go.Upgrade.Summary.{
  UpgradeBatchTaskAggregate, Counters, set_count, count_row, count_rows, zero_counters,
  batch_status, summarize, summarize_upgrade_batch,
}

-- The tasks with a status, and those without it.
abbrev pub with_status : ℕ → List DeviceUpgradeTask → List DeviceUpgradeTask
with_status k tasks = keep (λ t. t.status == k) tasks

abbrev pub other_status : ℕ → List DeviceUpgradeTask → List DeviceUpgradeTask
other_status k tasks = keep (λ t. if t.status == k then false else true) tasks

abbrev sum_progress : List DeviceUpgradeTask → ℤ
sum_progress [] = pos 0
sum_progress (t ∷ ts) = add_ℤ t.progress (sum_progress ts)

-- The rows of the query: GROUP BY status with COUNT(*) and SUM(progress).
abbrev pub Groups : List DeviceUpgradeTask → List UpgradeBatchTaskAggregate → Type 0
Groups tasks [] = tasks ≡ []
Groups tasks (row ∷ rest) =
    (row.count ≡ pos (length (with_status row.status tasks)))
    × (row.progress_sum ≡ sum_progress (with_status row.status tasks))
    × (1 ≤ length (with_status row.status tasks))
    × Groups (other_status row.status tasks) rest

with_status-other :
    (j k : ℕ) (tasks : List DeviceUpgradeTask)
    → length (with_status k (other_status j tasks))
      ≡ (if j == k then 0 else length (with_status k tasks))
unfolding keep
with_status-other j k [] = ground arith
with_status-other j k (t ∷ ts) = ground (arith, with_status-other j k ts)

length-other_status :
    (j : ℕ) (tasks : List DeviceUpgradeTask)
    → length (with_status j tasks) + length (other_status j tasks) ≡ length tasks
unfolding keep
length-other_status j [] = omega arith
length-other_status j (t ∷ ts) = ground (arith, length-other_status j ts)

-- The counter of a status.
abbrev pub counter : ℕ → Counters → ℤ
counter k c =
    if k == upgrade_pending
    then c.pending
    else if k == upgrade_running
    then c.running
    else if k == upgrade_success
    then c.success
    else if k == upgrade_failed
    then c.failed
    else c.canceled

abbrev pub is_known : ℕ → Bool
is_known k =
    k == upgrade_pending
    || k == upgrade_running
    || k == upgrade_success
    || k == upgrade_failed
    || k == upgrade_canceled

counter-count_row :
    (k : ℕ) (c : Counters) (row : UpgradeBatchTaskAggregate)
    → is_known k ≡ true
    → counter k (count_row c row) ≡ (if row.status == k then row.count else counter k c)
unfolding count_row set_count
counter-count_row k c row known = ground arith

counter-count_rows :
    (k : ℕ) (c : Counters) (tasks : List DeviceUpgradeTask) (rows : List UpgradeBatchTaskAggregate)
    → is_known k ≡ true
    → Groups tasks rows
    → counter k (count_rows c rows) ≡ (
        if length (with_status k tasks) == 0
        then counter k c
        else pos (length (with_status k tasks)))
unfolding count_rows keep
counter-count_rows k c tasks [] known g = rw g refl
counter-count_rows k c tasks (row ∷ rest) known (n, p, some_task, g) = ground (
  arith,
  counter-count_rows k (count_row c row) (other_status row.status tasks) rest known g,
  counter-count_row k c row known,
  with_status-other row.status k tasks,
)

total-count_row :
    (c : Counters) (row : UpgradeBatchTaskAggregate)
    → (count_row c row).total ≡ add_ℤ c.total row.count
unfolding count_row set_count
total-count_row c row = ground arith

total-count_rows :
    (m : ℕ) (c : Counters) (tasks : List DeviceUpgradeTask) (rows : List UpgradeBatchTaskAggregate)
    → c.total ≡ pos m
    → Groups tasks rows
    → (count_rows c rows).total ≡ pos (m + length tasks)
unfolding count_rows
total-count_rows m c tasks [] e g = rw g (e ∙ ap pos (omega arith))
total-count_rows m c tasks (row ∷ rest) e (n, p, some_task, g) =
    let here = length (with_status row.status tasks) in
    let now : (count_row c row).total ≡ pos (m + here) =
      total-count_row c row ∙ rw (e, n) (ground arith) in
    let whole = length-other_status row.status tasks in
    total-count_rows (m + here) (count_row c row) (other_status row.status tasks) rest now g
    ∙ ap pos (omega (arith, whole))

-- The counters of the rows of some tasks.
tasks-count_rows :
    (k : ℕ) (tasks : List DeviceUpgradeTask) (rows : List UpgradeBatchTaskAggregate)
    → is_known k ≡ true
    → Groups tasks rows
    → counter k (count_rows zero_counters rows) ≡ pos (length (with_status k tasks))
tasks-count_rows k tasks rows known g =
    ground (arith, counter-count_rows k zero_counters tasks rows known g)

-- For the rows of a batch with some tasks, the summary counts the tasks, those of each status, and
-- those that are over.
pub summarize-counts :
    (batch : DeviceUpgradeBatch) (tasks : List DeviceUpgradeTask)
    (rows : List UpgradeBatchTaskAggregate)
    → 1 ≤ length tasks
    → Groups tasks rows
    → ((summarize_upgrade_batch batch rows).total_count ≡ pos (length tasks))
      × ((summarize_upgrade_batch batch rows).pending_count
          ≡ pos (length (with_status upgrade_pending tasks)))
      × ((summarize_upgrade_batch batch rows).running_count
          ≡ pos (length (with_status upgrade_running tasks)))
      × ((summarize_upgrade_batch batch rows).success_count
          ≡ pos (length (with_status upgrade_success tasks)))
      × ((summarize_upgrade_batch batch rows).failed_count
          ≡ pos (length (with_status upgrade_failed tasks)))
      × ((summarize_upgrade_batch batch rows).canceled_count
          ≡ pos (length (with_status upgrade_canceled tasks)))
      × ((summarize_upgrade_batch batch rows).finished_count
          ≡ pos (
              length (with_status upgrade_success tasks)
              + length (with_status upgrade_failed tasks)
              + length (with_status upgrade_canceled tasks)))
unfolding summarize_upgrade_batch summarize
summarize-counts batch tasks rows some_task g =
    let count : (k : ℕ)
        → is_known k ≡ true
        → counter k (count_rows zero_counters rows) ≡ pos (length (with_status k tasks)) =
      λ k known. tasks-count_rows k tasks rows known g in
    let total = total-count_rows 0 zero_counters tasks rows refl g in
    let s = count upgrade_success refl in
    let f = count upgrade_failed refl in
    let c = count upgrade_canceled refl in
    (
      ground arith,
      count upgrade_pending refl,
      count upgrade_running refl,
      s,
      f,
      c,
      rw (s, f, c) (ground arith),
    )

-- The progress of a batch is a percentage, whatever the rows.
pub summarize-progress :
    (batch : DeviceUpgradeBatch) (rows : List UpgradeBatchTaskAggregate)
    → (pos 0 ≤ℤ (summarize_upgrade_batch batch rows).progress)
      × ((summarize_upgrade_batch batch rows).progress ≤ℤ pos 100)
unfolding summarize_upgrade_batch summarize clamp_int
summarize-progress batch rows = (ground arith, ground arith)

known_sum :
    (tasks : List DeviceUpgradeTask)
    → all (λ t. is_known t.status) tasks ≡ true
    → length (with_status upgrade_pending tasks)
        + length (with_status upgrade_running tasks)
        + length (with_status upgrade_success tasks)
        + length (with_status upgrade_failed tasks)
        + length (with_status upgrade_canceled tasks)
      ≡ length tasks
unfolding keep
known_sum [] h = omega arith
known_sum (t ∷ ts) h = ground (arith, known_sum ts)

all→with_status :
    (k : ℕ) (tasks : List DeviceUpgradeTask)
    → all (λ t. t.status == k) tasks ≡ true
    → length (with_status k tasks) ≡ length tasks
unfolding keep
all→with_status k [] h = refl
all→with_status k (t ∷ ts) h = ground (arith, all→with_status k ts)

with_status→all :
    (k : ℕ) (tasks : List DeviceUpgradeTask)
    → length (with_status k tasks) ≡ length tasks
    → all (λ t. t.status == k) tasks ≡ true
unfolding keep
with_status→all k [] h = refl
with_status→all k (t ∷ ts) h =
    ground (arith, with_status→all k ts, length-keep-le (λ u. u.status == k) ts)

-- The status of the batch from the numbers of its tasks.
status-success :
    (n p r f k : ℕ) (c : Counters)
    → 1 ≤ n
    → c.pending ≡ pos p
    → c.running ≡ pos r
    → c.failed ≡ pos f
    → c.canceled ≡ pos k
    → (batch_status (pos n) c ≡ codes "success") ↔ (p + r + f + k ≡ 0)
unfolding batch_status
status-success n p r f k c some_task ep er ef ek = (ground arith, ground arith)

summarize-status :
    (given : ℤ) (c : Counters) (n : ℕ)
    → 1 ≤ n
    → c.total ≡ pos n
    → (summarize given c).status ≡ batch_status (pos n) c
unfolding summarize
summarize-status given c n some_task e =
    let total : (if ltb_ℤ (pos 0) c.total then c.total else given) ≡ pos n = ground arith in
    ap (λ t. batch_status t c) total

-- A batch of tasks with known statuses is summed up as a success exactly if all of them succeeded.
pub summarize-success :
    (batch : DeviceUpgradeBatch) (tasks : List DeviceUpgradeTask)
    (rows : List UpgradeBatchTaskAggregate)
    → 1 ≤ length tasks
    → all (λ t. is_known t.status) tasks ≡ true
    → Groups tasks rows
    → ((summarize_upgrade_batch batch rows).status ≡ codes "success")
      ↔ (all (λ t. t.status == upgrade_success) tasks ≡ true)
unfolding summarize_upgrade_batch
summarize-success batch tasks rows some_task known g =
    let count : (k : ℕ)
        → is_known k ≡ true
        → counter k (count_rows zero_counters rows) ≡ pos (length (with_status k tasks)) =
      λ k known. tasks-count_rows k tasks rows known g in
    let total = total-count_rows 0 zero_counters tasks rows refl g in
    let sum = known_sum tasks known in
    let status =
      status-success (0 + length tasks) _ _ _ _ (count_rows zero_counters rows) (omega arith)
        (count upgrade_pending refl) (count upgrade_running refl) (count upgrade_failed refl)
        (count upgrade_canceled refl) in
    let same =
      summarize-status batch.total_count (count_rows zero_counters rows) (0 + length tasks)
        (omega arith) total in
    (
      (λ e. with_status→all upgrade_success tasks (omega (arith, sum, status.0 (sym same ∙ e)))),
      (λ h. same ∙ status.1 (omega (arith, sum, all→with_status upgrade_success tasks h))),
    )
