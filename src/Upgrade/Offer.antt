-- ===== src/Upgrade/Offer.antt =====
-- services/device_upgrade_service.go: CreateTask for one device, Candidates for a release, and the
-- command that a device fetches.
pub mod Accepted
pub mod Candidates
use navmesh_go.Base.{
  ℕ, ◌≡◌, refl, Bool, true, false, ◌||◌, ◌&&◌, not, Option, none, some, List, [], ◌∷◌, ◌⊎◌, inl,
  inr, ◌==◌, if◌then◌else◌,
}
use navmesh_go.Base.Int.{ℤ, pos, ltb_ℤ, sub64}
use navmesh_go.Base.Text.{Text, codes, eq_text, is_empty, trim_space}
use navmesh_go.Base.Map.{Map, empty, get, put}
use navmesh_go.Domain.{
  Device, Release, DeviceUpgradeTask, upgrade_pending, upgrade_running, upgrade_failed,
}
use navmesh_go.Upgrade.Kind.{is_online_upgradeable_release_type}
use navmesh_go.Upgrade.Plan.{
  Orders, BuildError, counted, release_matches_device_type, release_matches_device_platform,
  release_upgrade_disabled_reason, build_task_with_active_set,
}

pub data TaskError : Type 0 where
  device_guid_required release_guid_required device_not_found release_not_found : TaskError
  not_built : BuildError → TaskError
  not_saved : TaskError

unfoldable pub save_task : Bool → BuildError ⊎ DeviceUpgradeTask → TaskError ⊎ DeviceUpgradeTask
save_task saved (inl e) = inl (not_built e)
save_task saved (inr task) = if saved then inr task else inl not_saved

-- The queries of CreateTask, whether the row is written, and the clock.
pub record Queries : Type 0 where
  pub find_device : Text → Option Device
  pub get_enabled : Text → Option Release
  pub count_active : Text → Option ℕ
  pub saved : Bool
  pub now : ℤ

unfoldable pub create_found :
    Queries
    → Orders
    → Orders
    → Text
    → Text
    → Option Device
    → Option Release
    → TaskError ⊎ DeviceUpgradeTask
unfolding save_task build_task_with_active_set
create_found q o o' message download_url none release = inl device_not_found
create_found q o o' message download_url (some device) none = inl release_not_found
create_found q o o' message download_url (some device) (some release) = save_task q.saved (
    build_task_with_active_set q.now o o' device release [] (trim_space message) download_url false
      (counted q.count_active))

unfoldable pub create_task :
    Queries → Orders → Orders → Text → Text → Text → Text → TaskError ⊎ DeviceUpgradeTask
unfolding create_found
create_task q o o' device_guid release_guid message download_url =
    if is_empty (trim_space device_guid)
    then inl device_guid_required
    else if is_empty (trim_space release_guid)
    then inl release_guid_required
    else create_found q o o' message download_url (q.find_device (trim_space device_guid))
        (q.get_enabled (trim_space release_guid))

pub record DeviceUpgradeCandidate : Type 0 where
  pub device : Device
  pub has_active_upgrade : Bool
  pub active_task_guid : Text
  pub active_task_status : ℕ
  pub online_upgradeable : Bool
  pub upgrade_disabled_reason : Text

-- activeMap
unfoldable pub active_map : Map DeviceUpgradeTask → List DeviceUpgradeTask → Map DeviceUpgradeTask
active_map m [] = m
active_map m (task ∷ rest) = active_map (put m task.device_guid task) rest

unfoldable pub candidate_of : Text → Device → Option DeviceUpgradeTask → DeviceUpgradeCandidate
candidate_of reason device none = record {
  device = device;
  has_active_upgrade = false;
  active_task_guid = [];
  active_task_status = 0;
  online_upgradeable = is_empty reason;
  upgrade_disabled_reason = reason;
}
candidate_of reason device (some task) = record {
  device = device;
  has_active_upgrade = true;
  active_task_guid = task.guid;
  active_task_status = task.status;
  online_upgradeable = is_empty reason;
  upgrade_disabled_reason = reason;
}

-- The loop over the devices; `orders` gives the orders of the aliases in the two comparisons.
unfoldable pub candidates_from :
    (Device → Orders × Orders)
    → Release
    → Map DeviceUpgradeTask
    → List Device
    → List DeviceUpgradeCandidate
unfolding candidate_of release_matches_device_type release_matches_device_platform
    release_upgrade_disabled_reason
candidates_from orders release active [] = []
candidates_from orders release active (device ∷ rest) =
    let others = candidates_from orders release active rest in
    let o = orders device in
    let item =
      candidate_of (release_upgrade_disabled_reason o.1 release device) device
        (get active device.guid) in
    if release_matches_device_type release device
    then if release_matches_device_platform o.0 release device then item ∷ others else others
    else others

-- The devices that are online and the active tasks are the answers of two queries.
unfoldable pub candidates :
    (Device → Orders × Orders)
    → Option Release
    → Option (List Device)
    → Option (List DeviceUpgradeTask)
    → Option (List DeviceUpgradeCandidate)
unfolding candidates_from active_map is_online_upgradeable_release_type
candidates orders none devices tasks = none
candidates orders (some release) none tasks = none
candidates orders (some release) (some devices) none = none
candidates orders (some release) (some devices) (some tasks) =
    if is_online_upgradeable_release_type release.release_type
    then some (candidates_from orders release (active_map empty tasks) devices)
    else none

pub record DeviceUpgradeCommand : Type 0 where
  pub task_guid : Text
  pub release_type : Text
  pub device_type : Text
  pub version : Text
  pub os : Text
  pub arch : Text
  pub file_name : Text
  pub download_url : Text
  pub sha256 : Text
  pub size : ℤ

-- 15 minutes, in milliseconds.
abbrev pub device_upgrade_running_lease : ℤ
device_upgrade_running_lease = pos 900000

-- The condition of the query: the task waits, or its lease has run out.
unfoldable pub pending_query : Text → ℤ → DeviceUpgradeTask → Bool
pending_query device_guid stale_running_before task =
    eq_text task.device_guid device_guid
    && (task.status == upgrade_pending
        || (task.status == upgrade_running && ltb_ℤ task.update_time stale_running_before))

unfoldable pub command_of : DeviceUpgradeTask → DeviceUpgradeCommand
command_of task = record {
  task_guid = task.guid;
  release_type = task.release_type;
  device_type = task.device_type;
  version = task.version;
  os = task.os;
  arch = task.arch;
  file_name = task.file_name;
  download_url = task.download_url;
  sha256 = task.sha256;
  size = task.size;
}

unfoldable pub release_of : DeviceUpgradeTask → Release
release_of task = record {
  guid = [];
  release_type = task.release_type;
  device_type = task.device_type;
  version = [];
  os = task.os;
  arch = task.arch;
  file_name = [];
  sha256 = [];
  size = pos 0;
  download_url = [];
}

-- The update of a task that its device cannot take any more.
unfoldable pub fail_task : ℤ → Text → DeviceUpgradeTask → DeviceUpgradeTask
fail_task now reason task = record task {
  status = upgrade_failed;
  error_message = reason;
  finish_time = now;
  update_time = now;
}

-- The answer to the device, and the row as it is written, if it is.
unfoldable pub command_for :
    Orders
    → ℤ
    → DeviceUpgradeTask
    → Option Device
    → Option DeviceUpgradeCommand × Option DeviceUpgradeTask
unfolding command_of release_of fail_task release_upgrade_disabled_reason
command_for o now task none = (some (command_of task), none)
command_for o now task (some device) =
    let reason = release_upgrade_disabled_reason o (release_of task) device in
    if is_empty reason
    then (some (command_of task), none)
    else (none, some (fail_task now reason task))

unfoldable pub command_found :
    (Text → Option Device)
    → Orders
    → ℤ
    → Option DeviceUpgradeTask
    → Option DeviceUpgradeCommand × Option DeviceUpgradeTask
unfolding command_for
command_found find_device o now none = (none, none)
command_found find_device o now (some task) = command_for o now task (find_device task.device_guid)

-- `find` is the query: the oldest task that meets the condition.
unfoldable pub pending_command :
    ((DeviceUpgradeTask → Bool) → Option DeviceUpgradeTask)
    → (Text → Option Device)
    → Orders
    → ℤ
    → ℤ
    → Text
    → Option DeviceUpgradeCommand × Option DeviceUpgradeTask
unfolding command_found pending_query
pending_command find find_device o start now device_guid =
    command_found find_device o now
      (find (pending_query (trim_space device_guid) (sub64 start device_upgrade_running_lease)))
