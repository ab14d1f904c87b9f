-- ===== src/Upgrade/Report/Lifecycle.antt =====
-- The life of an upgrade task under the reports of its device.
use navmesh_go.Base.{
  ℕ, ◌≡◌, ◌≢◌, ◌∙◌, sym, refl, ap, Bool, true, false, Option, none, some, List, [], ◌∷◌, ◌++◌, ◌⊎◌,
  inl, inr, arith, ◌==◌, if◌then◌else◌, All, Bool-cases, Option-cases,
}
use navmesh_go.Base.Int.{ℤ, pos, ◌≤ℤ◌, eq_ℤ_iff}
use navmesh_go.Base.Text.{Text, eq_text, eq_text_refl, is_empty, trim_space}
use navmesh_go.Domain.{
  DeviceUpgradeTask, upgrade_pending, upgrade_running, upgrade_success, upgrade_failed,
}
use navmesh_go.Upgrade.Report.{
  DeviceUpgradeReportRequest, TaskUpdates, Effect, update_task, update_client_version, record_event,
  is_upgrade_terminal, report_status, updates_of, apply_updates, success_effects, failure_effects,
  report_valid, report_found, report,
}
use navmesh_go.Upgrade.Report.Progress.{
  InRange, report_progress-InRange, report_downloaded_size-nonneg, report_status_cases,
}

-- The task after the writes of a report.
abbrev pub task_after : List Effect → DeviceUpgradeTask → DeviceUpgradeTask
task_after [] task = task
task_after (update_task guid u ∷ rest) task =
    task_after rest (if eq_text guid task.guid then apply_updates u task else task)
task_after (update_client_version guid version now ∷ rest) task = task_after rest task
task_after (record_event guid level title message ∷ rest) task = task_after rest task

-- A report with its circumstances: the check of the token, whether the update succeeds, the time.
pub record Delivery : Type 0 where
  pub validate : Text → Text → Option Text
  pub updated : Bool
  pub now : ℤ
  pub request : DeviceUpgradeReportRequest

abbrev only : DeviceUpgradeTask → Text → Option DeviceUpgradeTask
only task guid = if eq_text task.guid guid then some task else none

-- The table holds the task alone: a report for another guid finds nothing.
unfoldable pub step : DeviceUpgradeTask → Delivery → DeviceUpgradeTask
step task d = task_after (report (only task) d.validate d.updated d.now d.request).1 task

unfoldable pub run : DeviceUpgradeTask → List Delivery → DeviceUpgradeTask
unfolding step
run task [] = task
run task (d ∷ ds) = run (step task d) ds

-- What a report does to the task: nothing, or the updates of a valid status while it is not over.
abbrev Moves : DeviceUpgradeTask → Delivery → DeviceUpgradeTask → Type 0
Moves task d next =
    (next ≡ task)
    ⊎ ((is_upgrade_terminal task.status ≡ false)
        × (report_status d.request.status ≢ 0)
        × (next
            ≡ apply_updates (updates_of d.now d.request (report_status d.request.status) task)
                task))

side_effects :
    (status : ℕ) (now : ℤ) (req : DeviceUpgradeReportRequest) (old task : DeviceUpgradeTask)
    → task_after
        ((if status == upgrade_success then success_effects now req old else [])
          ++ (if status == upgrade_failed then failure_effects req old else []))
        task
      ≡ task
unfolding success_effects failure_effects
side_effects status now req old task = ground arith

own_update :
    (u : TaskUpdates) (rest : List Effect) (task : DeviceUpgradeTask)
    → task_after (update_task task.guid u ∷ rest) task ≡ task_after rest (apply_updates u task)
own_update u rest task =
    ap (λ b. task_after rest (if b then apply_updates u task else task)) (eq_text_refl task.guid)

valid-Moves :
    (task : DeviceUpgradeTask) (d : Delivery)
    → Moves task d (task_after (report_valid d.updated d.now d.request task).1 task)
unfolding report_valid
valid-Moves task d =
    let s = report_status d.request.status in
    let u = updates_of d.now d.request s task in
    let more =
      (if s == upgrade_success then success_effects d.now d.request task else [])
      ++ (if s == upgrade_failed then failure_effects d.request task else []) in
    elim (Bool-cases (s == 0)) [
      | inl invalid ↦ rw invalid (inl refl)
      | inr valid ↦ elim (Bool-cases (is_upgrade_terminal task.status)) [
        | inl over ↦ rw (valid, over) (inl refl)
        | inr going ↦ elim (Bool-cases d.updated) [
          | inl ok ↦
              rw (valid, going, ok)
                (inr (
                  refl,
                  ground arith,
                  own_update u more task
                      ∙ side_effects s d.now d.request task (apply_updates u task),
                ))
          | inr lost ↦ rw (valid, going, lost) (inl refl)
        ]
      ]
    ]

found-Moves :
    (task : DeviceUpgradeTask) (d : Delivery) (o : Option DeviceUpgradeTask)
    → (o ≡ none) ⊎ (o ≡ some task)
    → Moves task d (task_after (report_found d.validate d.updated d.now d.request o).1 task)
unfolding report_found
found-Moves task d o (inl e) = rw (e, report_found) (inl refl)
found-Moves task d o (inr e) =
    rw (e, report_found)
      (elim (Option-cases (d.validate task.device_guid (trim_space d.request.token))) [
        | inl accepted ↦ rw accepted (valid-Moves task d)
        | inr (message, rejected) ↦ rw rejected (inl refl)
      ])

step-Moves : (task : DeviceUpgradeTask) (d : Delivery) → Moves task d (step task d)
unfolding step report
step-Moves task d = elim (Bool-cases (is_empty (trim_space d.request.task_guid))) [
  | inl unnamed ↦ rw unnamed (inl refl)
  | inr named ↦ elim (Bool-cases (is_empty (trim_space d.request.token))) [
    | inl bare ↦ rw (named, bare) (inl refl)
    | inr token ↦
        rw (named, token)
          (found-Moves task d (only task (trim_space d.request.task_guid)) (ground arith))
  ]
]

-- A task as the service keeps it.
pub record IsConsistent (task : DeviceUpgradeTask) : Type 0 where
  pub range : InRange task.status task.progress
  pub known :
      (task.status ≡ upgrade_pending)
      ⊎ (task.status ≡ upgrade_running)
      ⊎ (is_upgrade_terminal task.status ≡ true)
  pub downloaded : pos 0 ≤ℤ task.downloaded_size
  pub error : task.status ≢ upgrade_failed → task.error_message ≡ []
  pub started : task.status ≡ upgrade_running → task.start_time ≢ pos 0
  pub finished : is_upgrade_terminal task.status ≡ true → task.finish_time ≢ pos 0
  pub unfinished : is_upgrade_terminal task.status ≡ false → task.finish_time ≡ pos 0

apply-IsConsistent :
    (task : DeviceUpgradeTask) (d : Delivery)
    → d.now ≢ pos 0
    → is_upgrade_terminal task.status ≡ false
    → report_status d.request.status ≢ 0
    → IsConsistent task
    → IsConsistent
        (apply_updates (updates_of d.now d.request (report_status d.request.status) task) task)
unfolding apply_updates updates_of is_upgrade_terminal
apply-IsConsistent task d clock going valid v =
    let s = report_status d.request.status in
    let cases = report_status_cases d.request.status in
    record {
      range = report_progress-InRange s d.request.progress task.progress;
      known = ground (arith, cases);
      downloaded =
          report_downloaded_size-nonneg d.request.downloaded_size task.downloaded_size v.downloaded;
      error = ground arith;
      started = ground (arith, eq_ℤ_iff task.start_time (pos 0));
      finished = ground (arith, cases);
      unfinished = ground (arith, cases, v.unfinished);
    }

-- A report at a time other than zero keeps a task consistent.
pub step-IsConsistent :
    (task : DeviceUpgradeTask) (d : Delivery)
    → d.now ≢ pos 0
    → IsConsistent task
    → IsConsistent (step task d)
step-IsConsistent task d clock v = elim (step-Moves task d) [
  | inl same ↦ rw same v
  | inr (going, valid, next) ↦ rw next (apply-IsConsistent task d clock going valid v)
]

-- A task as the service keeps it stays so under any reports at times other than zero.
pub run-IsConsistent :
    (task : DeviceUpgradeTask) (ds : List Delivery)
    → All (λ d. d.now ≢ pos 0) ds
    → IsConsistent task
    → IsConsistent (run task ds)
unfolding run
run-IsConsistent task [] clocks v = v
run-IsConsistent task (d ∷ ds) (clock, clocks) v =
    run-IsConsistent (step task d) ds clocks (step-IsConsistent task d clock v)

step-start_time :
    (task : DeviceUpgradeTask) (d : Delivery)
    → task.start_time ≢ pos 0
    → (step task d).start_time ≡ task.start_time
unfolding apply_updates updates_of
step-start_time task d set = elim (step-Moves task d) [
  | inl same ↦ ap (λ t. t.start_time) same
  | inr (going, valid, next) ↦
      ap (λ t. t.start_time) next ∙ ground (arith, eq_ℤ_iff task.start_time (pos 0))
]

-- The start time of a task that has started is kept by all reports.
pub run-start_time :
    (task : DeviceUpgradeTask) (ds : List Delivery)
    → task.start_time ≢ pos 0
    → (run task ds).start_time ≡ task.start_time
unfolding run
run-start_time task [] set = refl
run-start_time task (d ∷ ds) set =
    let same = step-start_time task d set in
    run-start_time (step task d) ds (λ e. set (sym same ∙ e)) ∙ same
