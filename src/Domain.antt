-- ===== src/Domain.antt =====
-- domains/: the rows of the database, with the fields that the modelled code reads or writes. Of the
-- common BaseDataEntity these are the guid and the two times.
use navmesh_go.Base.{ℕ, Bool, if◌then◌else◌}
use navmesh_go.Base.Int.{ℤ}
use navmesh_go.Base.Text.{Text, codes, is_empty}

-- domains/common.go
abbrev pub status_disabled : ℕ
status_disabled = 0

abbrev pub status_enabled : ℕ
status_enabled = 1

-- domains/device.go
abbrev pub device_status_online : ℕ
device_status_online = 2

abbrev pub device_status_disabled : ℕ
device_status_disabled = 4

pub record Device : Type 0 where
  pub guid : Text
  pub device_type : Text
  pub client_version : Text
  pub os : Text
  pub arch : Text
  pub group_guid : Text
  pub status : ℕ

-- domains/port_mapping.go
pub record PortMapping : Type 0 where
  pub guid : Text
  pub device_guid : Text
  pub name : Text
  pub public_host : Text
  pub target_host : Text
  pub target_port : ℤ
  pub protocol : Text
  pub is_custom_domain : Bool
  pub status : ℕ

-- domains/access_policy.go
pub record AccessPolicy : Type 0 where
  pub guid : Text
  pub name : Text
  pub scope : Text
  pub target_id : Text
  pub allow_ssh : Bool
  pub allow_http : Bool
  pub allow_tcp : Bool
  pub status : ℕ

-- domains/release.go
abbrev pub release_type_rain : Text
release_type_rain = codes "rain"

abbrev pub release_type_hipnames : Text
release_type_hipnames = codes "hipnames"

abbrev pub release_type_navmesh : Text
release_type_navmesh = codes "navmesh"

pub record Release : Type 0 where
  pub guid : Text
  pub release_type : Text
  pub device_type : Text
  pub version : Text
  pub os : Text
  pub arch : Text
  pub file_name : Text
  pub sha256 : Text
  pub size : ℤ
  pub download_url : Text

unfoldable pub normalize_defaults : Release → Release
normalize_defaults r = record r {
  release_type = if is_empty r.release_type then release_type_navmesh else r.release_type;
  device_type = if is_empty r.device_type then codes "all" else r.device_type;
}

-- domains/device_upgrade_task.go
abbrev pub upgrade_pending : ℕ
upgrade_pending = 1

abbrev pub upgrade_running : ℕ
upgrade_running = 2

abbrev pub upgrade_success : ℕ
upgrade_success = 3

abbrev pub upgrade_failed : ℕ
upgrade_failed = 4

abbrev pub upgrade_canceled : ℕ
upgrade_canceled = 5

pub record DeviceUpgradeTask : Type 0 where
  pub guid : Text
  pub create_time : ℤ
  pub update_time : ℤ
  pub batch_guid : Text
  pub device_guid : Text
  pub release_guid : Text
  pub release_type : Text
  pub device_type : Text
  pub version : Text
  pub os : Text
  pub arch : Text
  pub file_name : Text
  pub download_url : Text
  pub sha256 : Text
  pub size : ℤ
  pub from_version : Text
  pub current_version : Text
  pub status : ℕ
  pub progress : ℤ
  pub downloaded_size : ℤ
  pub message : Text
  pub error_message : Text
  pub start_time : ℤ
  pub finish_time : ℤ

pub record DeviceUpgradeBatch : Type 0 where
  pub guid : Text
  pub create_time : ℤ
  pub update_time : ℤ
  pub release_guid : Text
  pub release_type : Text
  pub device_type : Text
  pub version : Text
  pub os : Text
  pub arch : Text
  pub file_name : Text
  pub total_count : ℤ
  pub message : Text
