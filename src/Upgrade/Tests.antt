-- ===== src/Upgrade/Tests.antt =====
-- The upgrade modules at concrete inputs.
use navmesh_go.Base.{
  ℕ, ◌≡◌, refl, true, none, some, List, [], ◌∷◌, inl, arith, ◌==◌, if◌then◌else◌, all, keep, map,
}
use navmesh_go.Base.Int.{ℤ, pos}
use navmesh_go.Base.Text.{Text, codes, eq_text, trim_space, to_lower, member, fields, join}
use navmesh_go.Base.Map.{empty, put}
use navmesh_go.Base.Assoc.{lookup}
use navmesh_go.Domain.{normalize_defaults, Device, Release, DeviceUpgradeTask, DeviceUpgradeBatch}
use navmesh_go.Upgrade.Kind.{normalize_upgrade_release_type}
use navmesh_go.Upgrade.Report.{
  success_effects, is_upgrade_terminal, report_status, report, report_found, report_valid,
  updates_of, apply_updates,
}
use navmesh_go.Upgrade.Report.Lifecycle.{Delivery, run, step, IsConsistent, run-IsConsistent}
use navmesh_go.Upgrade.Platform.{
  aliases, spaced, normalize_platform_name, first_alias, or_else, platform_name_contains_token,
}
use navmesh_go.Upgrade.Plan.{
  release_matches_device, release_upgrade_disabled_reason, build_unless, active_error, new_task,
  Orders,
}
use navmesh_go.Upgrade.Batch.{Tx, Scene, CreateDeviceUpgradeBatchRequest, create_batch}
use navmesh_go.Upgrade.Batch.Single.{IsSingle, tasks_after, create_batch-IsSingle}
use navmesh_go.Upgrade.Summary.{UpgradeBatchTaskAggregate, summarize_upgrade_batch}
use navmesh_go.Upgrade.Summary.Counts.{summarize-counts}
use navmesh_go.Upgrade.Offer.{Queries, create_task, candidates_from}
use navmesh_go.Upgrade.Offer.Accepted.{tasks_with, create_task-IsSingle}
use navmesh_go.Upgrade.Offer.Candidates.{accepts, accepts-candidates_from}
use navmesh_go.Upgrade.Kind.{is_online_upgradeable_release_type, first_non_empty_string}
use navmesh_go.Upgrade.Batch.Single.{active_tasks}
use navmesh_go.Base.Map.{get, empty}

abbrev task_of : Text → ℕ → ℤ → DeviceUpgradeTask
task_of device status finish = record {
  guid = codes "t1";
  create_time = pos 5;
  update_time = pos 5;
  batch_guid = codes "b1";
  device_guid = device;
  release_guid = codes "r1";
  release_type = codes "navmesh";
  device_type = codes "all";
  version = codes "1.0.0";
  os = codes "linux";
  arch = codes "amd64";
  file_name = codes "client";
  download_url = codes "http://x/client";
  sha256 = [];
  size = pos 100;
  from_version = codes "0.9.0";
  current_version = [];
  status = status;
  progress = if status == 3 then pos 100 else pos 0;
  downloaded_size = pos 0;
  message = [];
  error_message = [];
  start_time = if status == 1 then pos 0 else pos 6;
  finish_time = finish;
}

abbrev pending_task : DeviceUpgradeTask
pending_task = task_of (codes "d1") 1 (pos 0)

abbrev running_task : DeviceUpgradeTask
running_task = task_of (codes "d1") 2 (pos 0)

abbrev over_task : DeviceUpgradeTask
over_task = task_of (codes "d1") 3 (pos 9)

abbrev delivery : Text → ℕ → Delivery
delivery status now = record {
  validate = λ device token. none;
  updated = true;
  now = pos now;
  request = record {
    token = codes "secret";
    task_guid = codes "t1";
    status = status;
    progress = pos 50;
    downloaded_size = pos 40;
    message = [];
    error_message = [];
    client_version = codes "1.0.0";
  };
}

abbrev deliveries : List Delivery
deliveries =
    delivery (codes "running") 7 ∷ delivery (codes "Success") 8 ∷ delivery (codes "failed") 9 ∷ []

-- The reports take the task to success, and the late one changes nothing.
deliveries_test : (run pending_task deliveries).status ≡ 3
unfolding run step report report_found report_valid updates_of apply_updates is_upgrade_terminal
    report_status trim_space eq_text to_lower success_effects normalize_upgrade_release_type
deliveries_test = refl

pending-IsConsistent : IsConsistent pending_task
unfolding is_upgrade_terminal
pending-IsConsistent = record {
  range = ground arith;
  known = inl refl;
  downloaded = omega arith;
  error = λ h. refl;
  started = λ h. absurd (omega arith);
  finished = λ h. absurd cc;
  unfinished = λ h. refl;
}

run-IsConsistent_example : IsConsistent (run pending_task deliveries)
run-IsConsistent_example =
    run-IsConsistent pending_task deliveries
      ((λ e. absurd cc), ((λ e. absurd cc), ((λ e. absurd cc), tt))) pending-IsConsistent

-- A name with tokens of two kinds: what it becomes is up to the order.
ambiguous_test :
    map
      (λ order. normalize_platform_name order (codes "linux aarch64"))
      (((codes "linux", codes "linux") ∷ (codes "aarch64", codes "arm64") ∷ [])
        ∷ ((codes "aarch64", codes "arm64") ∷ (codes "linux", codes "linux") ∷ [])
        ∷ [])
    ≡ codes "linux" ∷ codes "arm64" ∷ []
unfolding normalize_platform_name aliases spaced platform_name_contains_token trim_space to_lower
    fields join eq_text member lookup or_else first_alias
ambiguous_test = refl

abbrev device_of : Text → Device
device_of guid = record {
  guid = guid;
  device_type = codes "box";
  client_version = codes "0.9.0";
  os = codes "linux";
  arch = codes "x86_64";
  group_guid = [];
  status = 2;
}

abbrev release : Release
release = record {
  guid = codes "r1";
  release_type = codes "navmesh";
  device_type = codes "box";
  version = codes "1.0.0";
  os = codes "linux";
  arch = codes "amd64";
  file_name = codes "client";
  sha256 = [];
  size = pos 100;
  download_url = codes "http://x/client";
}

unfoldable orders : Device → Orders
orders device = record {
  os_current = aliases;
  os_target = aliases;
  arch_current = aliases;
  arch_target = aliases;
}

unfoldable scene : Scene
unfolding orders
scene = record {
  start = pos 10;
  task_time = λ device. pos 11;
  finish = pos 12;
  first = orders;
  second = orders;
}

-- The devices d1 and d2 are there, d1 with a task that waits.
unfoldable tx : Tx
tx = record {
  create = some (codes "b2");
  find_devices = λ guids. some (device_of (codes "d1") ∷ device_of (codes "d2") ∷ []);
  find_active = λ guids. some (codes "d1" ∷ []);
  insert_tasks = λ tasks. true;
  update_batch = true;
}

abbrev request : CreateDeviceUpgradeBatchRequest
request = record {
  device_guids = codes "d1" ∷ codes " d2 " ∷ codes "d2" ∷ codes "d3" ∷ [];
  message = [];
}

create_batch-IsSingle_example : IsSingle (
    tasks_after
      (pending_task ∷ [])
      (create_batch (λ guid. some release) tx scene (codes "r1") request []))
unfolding tx member keep
create_batch-IsSingle_example =
    create_batch-IsSingle (λ guid. some release) tx scene (codes "r1") request []
      (pending_task ∷ []) (λ guids g asked active. ground arith) (λ g. ground arith)

-- d1 has a task already and d3 is unknown, so d2 alone gets one.
create_batch_test :
    map
      (λ t. t.device_guid)
      (tasks_after [] (create_batch (λ guid. some release) tx scene (codes "r1") request []))
    ≡ codes "d2" ∷ []
unfolding create_batch tx scene orders trim_space eq_text to_lower member put normalize_defaults
    release_matches_device join fields release_upgrade_disabled_reason build_unless active_error
    new_task
create_batch_test = refl

abbrev batch : DeviceUpgradeBatch
batch = record {
  guid = codes "b1";
  create_time = pos 10;
  update_time = pos 12;
  release_guid = codes "r1";
  release_type = codes "navmesh";
  device_type = codes "box";
  version = codes "1.0.0";
  os = codes "linux";
  arch = codes "amd64";
  file_name = codes "client";
  total_count = pos 2;
  message = [];
}

abbrev mixed : List DeviceUpgradeTask
mixed = over_task ∷ task_of (codes "d2") 1 (pos 0) ∷ task_of (codes "d3") 3 (pos 9) ∷ []

abbrev mixed_rows : List UpgradeBatchTaskAggregate
mixed_rows =
    record { status = 1; count = pos 1; progress_sum = pos 0 }
    ∷ record { status = 3; count = pos 2; progress_sum = pos 200 }
    ∷ []

summarize-counts_example : (summarize_upgrade_batch batch mixed_rows).finished_count ≡ pos 2
unfolding keep
summarize-counts_example =
    (summarize-counts batch mixed mixed_rows (omega arith)
      (refl, refl, omega arith, (refl, refl, omega arith, refl))).6

abbrev queries : Queries
queries = record {
  find_device = λ guid. some (device_of (codes "d2"));
  get_enabled = λ guid. some release;
  count_active = λ guid. some (active_tasks guid (pending_task ∷ []));
  saved = true;
  now = pos 20;
}

unfoldable plain_orders : Orders
plain_orders = record { os_current = []; os_target = []; arch_current = []; arch_target = [] }

create_task-IsSingle_example : IsSingle (
    tasks_with
      (pending_task ∷ [])
      (create_task queries plain_orders plain_orders (codes "d2") (codes "r1") [] []))
unfolding keep
create_task-IsSingle_example =
    create_task-IsSingle (pending_task ∷ []) queries plain_orders plain_orders (codes "d2")
      (codes "r1") [] [] (λ g. ground arith) (λ guid. refl)

accepts-candidates_from_example :
    all (accepts scene release batch [] []) (
      candidates_from
        (λ d. (scene.first d, scene.second d))
        release
        empty
        (device_of (codes "d1") ∷ device_of (codes "d2") ∷ []))
    ≡ true
unfolding normalize_defaults is_online_upgradeable_release_type trim_space to_lower eq_text member
    first_non_empty_string
accepts-candidates_from_example =
    accepts-candidates_from scene release batch [] [] refl refl refl empty
      (device_of (codes "d1") ∷ device_of (codes "d2") ∷ []) (λ g h. refl) (refl, (refl, tt))

unfoldable orders_pair : Device → Orders × Orders
unfolding orders
orders_pair device = (orders device, orders device)

candidates_test :
    map
      (λ c. c.online_upgradeable)
      (candidates_from orders_pair release empty (device_of (codes "d1") ∷ []))
    ≡ true ∷ []
unfolding candidates_from orders_pair orders trim_space eq_text to_lower member normalize_defaults
    join fields get empty
candidates_test = refl
