-- ===== src/Upgrade/Batch.antt =====
-- services/device_upgrade_service.go, CreateBatch: one release for many devices.
-- The database is the record `Tx` of the answers of one transaction; none or false is an error. A
-- transaction that fails leaves the database as it is, so what is written is part of the result. The
-- summary in the answer, which Upgrade/Summary computes, is left out.
pub mod Tasks
pub mod Single
use navmesh_go.Base.{
  ℕ, ◌≡◌, refl, Bool, true, false, not, Option, none, some, List, [], ◌∷◌, ◌⊎◌, inl, inr,
  if◌then◌else◌, length, map,
}
use navmesh_go.Base.Int.{ℤ, pos}
use navmesh_go.Base.Text.{Text, codes, eq_text, is_empty, trim_space, member}
use navmesh_go.Base.Map.{Map, empty, get, put}
use navmesh_go.Domain.{Device, Release, DeviceUpgradeTask, DeviceUpgradeBatch}
use navmesh_go.Upgrade.Kind.{is_online_upgradeable_release_type, unique_trimmed_strings}
use navmesh_go.Upgrade.Plan.{
  Orders, BuildError, device_not_online, device_disabled, type_not_upgradeable, release_mismatch,
  upgrade_disabled, already_active, count_failed, download_url_required, in_set,
  build_task_with_active_set,
}

pub record DeviceUpgradeFailure : Type 0 where
  pub device_guid : Text
  pub message : Text

-- err.Error(); the text of a failed count is the database's.
unfoldable pub build_message : Text → BuildError → Text
build_message db device_not_online = codes "device is not online"
build_message db device_disabled = codes "device is disabled"
build_message db type_not_upgradeable = codes "release type does not support online upgrade"
build_message db release_mismatch = codes "release does not match device"
build_message db (upgrade_disabled reason) = reason
build_message db already_active = codes "device already has an active upgrade task"
build_message db count_failed = db
build_message db download_url_required = codes "download url required"

pub record Planned : Type 0 where
  pub tasks : List DeviceUpgradeTask
  pub failures : List DeviceUpgradeFailure

-- deviceByGuid
unfoldable pub add_devices : Map Device → List Device → Map Device
add_devices m [] = m
add_devices m (device ∷ rest) = add_devices (put m device.guid device) rest

unfoldable pub add_outcome : Text → BuildError ⊎ DeviceUpgradeTask → Planned → Planned
unfolding build_message
add_outcome guid (inl e) rest = record rest {
  failures = record { device_guid = guid; message = build_message [] e } ∷ rest.failures;
}
add_outcome guid (inr task) rest = record rest { tasks = task ∷ rest.tasks }

unfoldable pub add_missing : Text → Planned → Planned
add_missing guid rest = record rest {
  failures = record { device_guid = guid; message = codes "device not found" } ∷ rest.failures;
}

-- The body of the loop for a device that was looked up.
unfoldable pub plan_device :
    (Device → BuildError ⊎ DeviceUpgradeTask) → Text → Option Device → Planned → Planned
unfolding add_outcome add_missing
plan_device build guid none rest = add_missing guid rest
plan_device build guid (some device) rest = add_outcome guid (build device) rest

unfoldable pub plan_tasks :
    (Device → BuildError ⊎ DeviceUpgradeTask) → Map Device → List Text → Planned
unfolding plan_device get
plan_tasks build devices [] = record { tasks = []; failures = [] }
plan_tasks build devices (guid ∷ rest) =
    plan_device build guid (get devices guid) (plan_tasks build devices rest)

pub record CreateDeviceUpgradeBatchRequest : Type 0 where
  pub device_guids : List Text
  pub message : Text

pub record Tx : Type 0 where
  pub create : Option Text
  pub find_devices : List Text → Option (List Device)
  pub find_active : List Text → Option (List Text)
  pub insert_tasks : List DeviceUpgradeTask → Bool
  pub update_batch : Bool

pub data BatchError : Type 0 where
  release_guid_required release_not_found release_not_upgradeable device_guids_required : BatchError
  no_tasks_created db_error : BatchError

pub record BatchResult : Type 0 where
  pub batch : DeviceUpgradeBatch
  pub tasks : List DeviceUpgradeTask
  pub failures : List DeviceUpgradeFailure

unfoldable pub new_batch : ℤ → Release → Text → Text → DeviceUpgradeBatch
new_batch now release message guid = record {
  guid = guid;
  create_time = now;
  update_time = now;
  release_guid = release.guid;
  release_type = release.release_type;
  device_type = release.device_type;
  version = release.version;
  os = release.os;
  arch = release.arch;
  file_name = release.file_name;
  total_count = pos 0;
  message = trim_space message;
}

-- The circumstances of a call: the clock at each reading, and the orders of the aliases per device.
pub record Scene : Type 0 where
  pub start : ℤ
  pub task_time : Device → ℤ
  pub finish : ℤ
  pub first : Device → Orders
  pub second : Device → Orders

-- The transaction after the plan is made.
unfoldable pub store_tasks :
    Tx
    → Scene
    → DeviceUpgradeBatch
    → List DeviceUpgradeFailure
    → List DeviceUpgradeTask
    → BatchError ⊎ BatchResult
store_tasks tx scene batch failures [] = inl no_tasks_created
store_tasks tx scene batch failures (task ∷ rest) =
    if tx.insert_tasks (task ∷ rest)
    then if tx.update_batch
      then inr record {
        batch = record batch {
          total_count = pos (length (task ∷ rest));
          update_time = scene.finish;
        };
        tasks = task ∷ rest;
        failures = failures;
      }
      else inl db_error
    else inl db_error

unfoldable pub store_plan : Tx → Scene → DeviceUpgradeBatch → Planned → BatchError ⊎ BatchResult
unfolding store_tasks
store_plan tx scene batch planned = store_tasks tx scene batch planned.failures planned.tasks

-- buildTaskWithActiveSet with the arguments of the loop.
unfoldable pub build_for :
    Scene
    → Release
    → DeviceUpgradeBatch
    → Text
    → List Text
    → Device
    → BuildError ⊎ DeviceUpgradeTask
unfolding build_task_with_active_set
build_for scene release batch download_url active device =
    build_task_with_active_set (scene.task_time device) (scene.first device) (scene.second device)
      device release batch.guid batch.message download_url true (in_set active)

-- The plan, from the device rows and the guids of the devices with an active task.
unfoldable pub plan_found :
    Scene
    → Release
    → DeviceUpgradeBatch
    → Text
    → List Text
    → List Device
    → Option (List Text)
    → Option Planned
unfolding plan_tasks add_devices build_for empty
plan_found scene release batch download_url guids devices none = none
plan_found scene release batch download_url guids devices (some active) = some (
    plan_tasks (build_for scene release batch download_url active) (add_devices empty devices)
      guids)

-- `if len(devices) > 0`: without devices no task is looked up.
unfoldable pub active_guids : Tx → List Text → List Device → Option (List Text)
active_guids tx guids [] = some []
active_guids tx guids (device ∷ rest) = tx.find_active guids

unfoldable pub plan_batch :
    Tx
    → Scene
    → Release
    → DeviceUpgradeBatch
    → Text
    → List Text
    → Option (List Device)
    → Option Planned
unfolding plan_found active_guids
plan_batch tx scene release batch download_url guids none = none
plan_batch tx scene release batch download_url guids (some devices) =
    plan_found scene release batch download_url guids devices (active_guids tx guids devices)

unfoldable pub finish_batch :
    Tx → Scene → DeviceUpgradeBatch → Option Planned → BatchError ⊎ BatchResult
unfolding store_plan
finish_batch tx scene batch none = inl db_error
finish_batch tx scene batch (some planned) = store_plan tx scene batch planned

unfoldable pub create_created :
    Tx → Scene → Release → Text → List Text → Text → Option Text → BatchError ⊎ BatchResult
unfolding finish_batch plan_batch new_batch
create_created tx scene release message guids download_url none = inl db_error
create_created tx scene release message guids download_url (some guid) =
    let batch = new_batch scene.start release message guid in
    finish_batch tx scene batch
      (plan_batch tx scene release batch download_url guids (tx.find_devices guids))

unfoldable pub create_named :
    Tx → Scene → Release → Text → List Text → Text → BatchError ⊎ BatchResult
unfolding create_created
create_named tx scene release message [] download_url = inl device_guids_required
create_named tx scene release message (guid ∷ rest) download_url =
    create_created tx scene release message (guid ∷ rest) download_url tx.create

unfoldable pub create_for :
    Tx → Scene → CreateDeviceUpgradeBatchRequest → Text → Option Release → BatchError ⊎ BatchResult
unfolding create_named unique_trimmed_strings is_online_upgradeable_release_type
create_for tx scene req download_url none = inl release_not_found
create_for tx scene req download_url (some release) =
    let guids = unique_trimmed_strings req.device_guids in
    if not (is_online_upgradeable_release_type release.release_type)
    then inl release_not_upgradeable
    else create_named tx scene release req.message guids download_url

-- `get_enabled` is ReleaseService.GetEnabled.
unfoldable pub create_batch :
    (Text → Option Release)
    → Tx
    → Scene
    → Text
    → CreateDeviceUpgradeBatchRequest
    → Text
    → BatchError ⊎ BatchResult
unfolding create_for
create_batch get_enabled tx scene release_guid req download_url =
    let guid = trim_space release_guid in
    if is_empty guid
    then inl release_guid_required
    else create_for tx scene req download_url (get_enabled guid)
