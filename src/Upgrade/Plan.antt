-- ===== src/Upgrade/Plan.antt =====
-- services/device_upgrade_service.go: which devices get a task for a release.
-- The map of the devices that have a running task is a list of guids; without one the tasks are
-- counted by the query `count`, which is none where it fails. Each comparison of platforms may visit
-- the aliases in other orders.
use navmesh_go.Base.{
  ℕ, Bool, ◌||◌, ◌&&◌, not, Option, none, some, List, [], ◌∷◌, ◌⊎◌, inl, inr, ◌==◌, if◌then◌else◌,
  ltb,
}
use navmesh_go.Base.Int.{ℤ, pos}
use navmesh_go.Base.Text.{Text, codes, eq_text, is_empty, trim_space, member}
use navmesh_go.Base.Assoc.{Assoc}
use navmesh_go.Domain.{
  Device, Release, DeviceUpgradeTask, device_status_online, device_status_disabled,
  normalize_defaults, release_type_rain, release_type_hipnames, upgrade_pending,
}
use navmesh_go.Upgrade.Kind.{
  normalize_upgrade_release_type, is_online_upgradeable_release_type, first_non_empty_string,
}
use navmesh_go.Upgrade.Platform.{same_platform, same_device_type}
use navmesh_go.Upgrade.Version.{client_version_at_least}

-- The orders of the aliases in the four calls of one comparison.
pub record Orders : Type 0 where
  pub os_current : Assoc Text
  pub os_target : Assoc Text
  pub arch_current : Assoc Text
  pub arch_target : Assoc Text

unfoldable pub release_matches_device_type : Release → Device → Bool
unfolding normalize_defaults same_device_type
release_matches_device_type release device =
    let r = normalize_defaults release in
    same_device_type device.device_type r.device_type
    || same_device_type device.group_guid r.device_type

unfoldable pub release_matches_device_platform : Orders → Release → Device → Bool
unfolding normalize_defaults same_platform
release_matches_device_platform o release device =
    let r = normalize_defaults release in
    same_platform o.os_current o.os_target device.os r.os
    && same_platform o.arch_current o.arch_target device.arch r.arch

unfoldable pub release_matches_device : Orders → Release → Device → Bool
unfolding release_matches_device_type release_matches_device_platform
release_matches_device o release device =
    release_matches_device_type release device && release_matches_device_platform o release device

-- The empty text for a release that the device can be given.
unfoldable pub release_upgrade_disabled_reason : Orders → Release → Device → Text
unfolding release_matches_device_platform normalize_upgrade_release_type client_version_at_least
release_upgrade_disabled_reason o release device =
    let kind = normalize_upgrade_release_type release.release_type in
    if not (release_matches_device_platform o release device)
    then codes "设备系统或架构与升级包不匹配"
    else if eq_text kind release_type_rain
        && not (
            client_version_at_least device.client_version
              (record { major = pos 0; minor = pos 0; patch = pos 3 }))
    then codes "设备客户端版本不支持北斗降雨在线升级"
    else if eq_text kind release_type_hipnames
        && not (
            client_version_at_least device.client_version
              (record { major = pos 0; minor = pos 0; patch = pos 4 }))
    then codes "设备客户端版本不支持单机版解算在线升级"
    else []

pub data BuildError : Type 0 where
  device_not_online device_disabled type_not_upgradeable release_mismatch : BuildError
  upgrade_disabled : Text → BuildError
  already_active count_failed download_url_required : BuildError

-- What tells whether a device has an active task.
pub data ActiveDevices : Type 0 where
  in_set : List Text → ActiveDevices
  counted : (Text → Option ℕ) → ActiveDevices

unfoldable pub count_error : Option ℕ → Option BuildError
count_error none = some count_failed
count_error (some n) = if ltb 0 n then some already_active else none

unfoldable pub active_error : ActiveDevices → Text → Option BuildError
unfolding count_error
active_error (in_set guids) guid = if member guid guids then some already_active else none
active_error (counted count) guid = count_error (count guid)

unfoldable pub new_task : ℤ → Device → Release → Text → Text → Text → DeviceUpgradeTask
unfolding first_non_empty_string
new_task now device release batch_guid message download_url = record {
  guid = [];
  create_time = now;
  update_time = now;
  batch_guid = trim_space batch_guid;
  device_guid = device.guid;
  release_guid = release.guid;
  release_type = release.release_type;
  device_type = release.device_type;
  version = release.version;
  os = release.os;
  arch = release.arch;
  file_name = release.file_name;
  download_url = first_non_empty_string (release.download_url ∷ download_url ∷ []);
  sha256 = release.sha256;
  size = release.size;
  from_version = device.client_version;
  current_version = [];
  status = upgrade_pending;
  progress = pos 0;
  downloaded_size = pos 0;
  message = trim_space message;
  error_message = [];
  start_time = pos 0;
  finish_time = pos 0;
}

-- The task, if there is an address to download from.
unfoldable pub checked_url : DeviceUpgradeTask → BuildError ⊎ DeviceUpgradeTask
checked_url task = if is_empty task.download_url then inl download_url_required else inr task

-- The rest of buildTask after the checks of the release.
unfoldable pub build_unless : Option BuildError → DeviceUpgradeTask → BuildError ⊎ DeviceUpgradeTask
unfolding checked_url
build_unless (some e) task = inl e
build_unless none task = checked_url task

unfoldable pub build_task_with_active_set :
    ℤ
    → Orders
    → Orders
    → Device
    → Release
    → Text
    → Text
    → Text
    → Bool
    → ActiveDevices
    → BuildError ⊎ DeviceUpgradeTask
build_task_with_active_set now o o' device given batch_guid message download_url require_online
      active =
    let release = normalize_defaults given in
    let reason = release_upgrade_disabled_reason o' release device in
    if require_online && not (device.status == device_status_online)
    then inl device_not_online
    else if device.status == device_status_disabled
    then inl device_disabled
    else if not (is_online_upgradeable_release_type release.release_type)
    then inl type_not_upgradeable
    else if not (release_matches_device o release device)
    then inl release_mismatch
    else if not (is_empty reason)
    then inl (upgrade_disabled reason)
    else build_unless (active_error active device.guid)
        (new_task now device release batch_guid message download_url)
