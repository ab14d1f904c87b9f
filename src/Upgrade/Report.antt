-- ===== src/Upgrade/Report.antt =====
-- services/device_upgrade_service.go, Report: what a device reports about an upgrade.
-- The task table is the argument `find`, the check of the token the argument `validate` (none for a
-- nil error), and `updated` says whether the update of the task succeeded. The writes are returned,
-- in their order; `apply_updates` is what `Updates` does to the row. Report reads the task, checks it
-- and updates it by its guid alone, without a transaction; here that is one step, which no other
-- report of the same task interleaves.
pub mod Progress
pub mod Lifecycle
use navmesh_go.Base.{
  ℕ, ◌≡◌, Bool, true, false, ◌||◌, ◌&&◌, not, Option, none, some, List, [], ◌∷◌, ◌++◌, ◌==◌,
  if◌then◌else◌,
}
use navmesh_go.Base.Int.{ℤ, pos, ltb_ℤ, leb_ℤ, eq_ℤ}
use navmesh_go.Base.Text.{Text, codes, eq_text, is_empty, trim_space, to_lower}
use navmesh_go.Domain.{
  DeviceUpgradeTask, upgrade_pending, upgrade_running, upgrade_success, upgrade_failed,
  upgrade_canceled, release_type_navmesh,
}
use navmesh_go.Upgrade.Kind.{
  clamp_int, min_int, normalize_upgrade_release_type, upgrade_event_title,
}

pub record DeviceUpgradeReportRequest : Type 0 where
  pub token : Text
  pub task_guid : Text
  pub status : Text
  pub progress : ℤ
  pub downloaded_size : ℤ
  pub message : Text
  pub error_message : Text
  pub client_version : Text

unfoldable pub is_upgrade_terminal : ℕ → Bool
is_upgrade_terminal status =
    status == upgrade_success || status == upgrade_failed || status == upgrade_canceled

unfoldable pub report_status : Text → ℕ
report_status value =
    let v = to_lower (trim_space value) in
    if eq_text v (codes "running")
    then upgrade_running
    else if eq_text v (codes "success") || eq_text v (codes "succeeded")
    then upgrade_success
    else if eq_text v (codes "failed") || eq_text v (codes "error")
    then upgrade_failed
    else if eq_text v (codes "canceled") || eq_text v (codes "cancelled")
    then upgrade_canceled
    else 0

unfoldable pub report_progress : ℕ → ℤ → ℤ → ℤ
unfolding clamp_int min_int
report_progress status progress previous =
    if status == upgrade_running
    then if leb_ℤ progress (pos 0)
      then if ltb_ℤ (pos 0) previous then min_int previous (pos 99) else pos 1
      else clamp_int progress (pos 1) (pos 99)
    else if status == upgrade_success
    then pos 100
    else if status == upgrade_failed || status == upgrade_canceled
    then if leb_ℤ progress (pos 0)
      then clamp_int previous (pos 0) (pos 100)
      else clamp_int progress (pos 0) (pos 100)
    else clamp_int progress (pos 0) (pos 100)

unfoldable pub report_downloaded_size : ℤ → ℤ → ℤ
report_downloaded_size downloaded previous =
    if ltb_ℤ downloaded (pos 0)
    then previous
    else if eq_ℤ downloaded (pos 0) && ltb_ℤ (pos 0) previous
    then previous
    else downloaded

-- The columns that `Report` writes; a time is written if it is given.
pub record TaskUpdates : Type 0 where
  pub status : ℕ
  pub progress : ℤ
  pub downloaded_size : ℤ
  pub message : Text
  pub error_message : Text
  pub current_version : Text
  pub update_time : ℤ
  pub start_time : Option ℤ
  pub finish_time : Option ℤ

unfoldable pub updates_of : ℤ → DeviceUpgradeReportRequest → ℕ → DeviceUpgradeTask → TaskUpdates
updates_of now req status task = record {
  status = status;
  progress = report_progress status req.progress task.progress;
  downloaded_size = report_downloaded_size req.downloaded_size task.downloaded_size;
  message = trim_space req.message;
  error_message = if status == upgrade_failed then trim_space req.error_message else [];
  current_version = trim_space req.client_version;
  update_time = now;
  start_time = if status == upgrade_running && eq_ℤ task.start_time (pos 0) then some now else none;
  finish_time =
      if status == upgrade_success || status == upgrade_failed || status == upgrade_canceled
      then some now
      else none;
}

abbrev pub written : Option ℤ → ℤ → ℤ
written none t = t
written (some now) t = now

unfoldable pub apply_updates : TaskUpdates → DeviceUpgradeTask → DeviceUpgradeTask
apply_updates u task = record task {
  status = u.status;
  progress = u.progress;
  downloaded_size = u.downloaded_size;
  message = u.message;
  error_message = u.error_message;
  current_version = u.current_version;
  update_time = u.update_time;
  start_time = written u.start_time task.start_time;
  finish_time = written u.finish_time task.finish_time;
}

pub data Effect : Type 0 where
  update_task : Text → TaskUpdates → Effect
  update_client_version : Text → Text → ℤ → Effect
  record_event : Text → Text → Text → Text → Effect

pub data ReportError : Type 0 where
  task_guid_required token_required task_not_found invalid_status update_failed : ReportError
  token_rejected : Text → ReportError

unfoldable pub success_effects : ℤ → DeviceUpgradeReportRequest → DeviceUpgradeTask → List Effect
success_effects now req task =
    let event =
      record_event task.device_guid (codes "info") (upgrade_event_title task.release_type true)
        task.version in
    if eq_text (normalize_upgrade_release_type task.release_type) release_type_navmesh
    then update_client_version task.device_guid (trim_space req.client_version) now ∷ event ∷ []
    else event ∷ []

unfoldable pub failure_effects : DeviceUpgradeReportRequest → DeviceUpgradeTask → List Effect
failure_effects req task =
    record_event task.device_guid (codes "error") (upgrade_event_title task.release_type false)
      (trim_space req.error_message)
    ∷ []

unfoldable pub report_valid :
    Bool → ℤ → DeviceUpgradeReportRequest → DeviceUpgradeTask → Option ReportError × List Effect
report_valid updated now req task =
    let status = report_status req.status in
    if status == 0
    then (some invalid_status, [])
    else if is_upgrade_terminal task.status
    then (none, [])
    else if updated
    then (
      none,
      update_task task.guid (updates_of now req status task)
          ∷ ((if status == upgrade_success then success_effects now req task else [])
              ++ (if status == upgrade_failed then failure_effects req task else [])),
    )
    else (some update_failed, [])

unfoldable pub report_found :
    (Text → Text → Option Text)
    → Bool
    → ℤ
    → DeviceUpgradeReportRequest
    → Option DeviceUpgradeTask
    → Option ReportError × List Effect
report_found validate updated now req none = (some task_not_found, [])
report_found validate updated now req (some task) =
    elim (validate task.device_guid (trim_space req.token)) [
      | none ↦ report_valid updated now req task
      | some message ↦ (some (token_rejected message), [])
    ]

unfoldable pub report :
    (Text → Option DeviceUpgradeTask)
    → (Text → Text → Option Text)
    → Bool
    → ℤ
    → DeviceUpgradeReportRequest
    → Option ReportError × List Effect
report find validate updated now req =
    if is_empty (trim_space req.task_guid)
    then (some task_guid_required, [])
    else if is_empty (trim_space req.token)
    then (some token_required, [])
    else report_found validate updated now req (find (trim_space req.task_guid))
