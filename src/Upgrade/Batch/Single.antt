-- ===== src/Upgrade/Batch/Single.antt =====
-- At most one task is active for a device.
use navmesh_go.Base.{
  ℕ, ◌+◌, ◌≤◌, ◌≡◌, refl, Bool, true, false, ◌||◌, Option, none, some, List, [], ◌∷◌, ◌++◌, ◌⊎◌,
  inl, inr, arith, ◌==◌, keep, Bool-cases,
}
use navmesh_go.Base.Text.{Text, is_empty, trim_space, member}
use navmesh_go.Base.Map.{empty, get-empty}
use navmesh_go.Domain.{
  Device, Release, DeviceUpgradeTask, DeviceUpgradeBatch, upgrade_pending, upgrade_running,
}
use navmesh_go.Upgrade.Kind.{unique_from, is_online_upgradeable_release_type}
use navmesh_go.Upgrade.Batch.{
  Planned, add_devices, Tx, BatchResult, BatchError, Scene, build_for, plan_found, active_guids,
  plan_batch, store_tasks, new_batch, create_named, DeviceUpgradeFailure, finish_batch,
  create_created, create_for, create_batch, CreateDeviceUpgradeBatchRequest,
}
use navmesh_go.Upgrade.Batch.Tasks.{
  occurrences, unique-once, build_for-Builds, add_devices-Keyed, empty-Keyed, task_guids,
  plan_tasks-Bound, plan_tasks-nobody,
}

-- Where the query of the active tasks counts.
abbrev pub is_active : DeviceUpgradeTask → Bool
is_active task = task.status == upgrade_pending || task.status == upgrade_running

-- The number of active tasks of a device.
abbrev pub active_tasks : Text → List DeviceUpgradeTask → ℕ
active_tasks g tasks = occurrences g (task_guids (keep is_active tasks))

-- Every device has at most one active task.
abbrev pub IsSingle : List DeviceUpgradeTask → Type 0
IsSingle tasks = (g : Text) → active_tasks g tasks ≤ 1

abbrev Covers : List DeviceUpgradeTask → List Text → Option (List Text) → Type 0
Covers tasks guids none = Unit
Covers tasks guids (some found) =
    (g : Text) → member g guids ≡ true → 1 ≤ active_tasks g tasks → member g found ≡ true

-- The query for the active tasks of some devices names each of them that has one.
abbrev pub FindsActive : Tx → List DeviceUpgradeTask → Type 0
FindsActive tx tasks = (guids : List Text) → Covers tasks guids (tx.find_active guids)

-- The table of the tasks after the call: a failed transaction leaves it as it is.
abbrev pub tasks_after : List DeviceUpgradeTask → BatchError ⊎ BatchResult → List DeviceUpgradeTask
tasks_after tasks (inl e) = tasks
tasks_after tasks (inr result) = result.tasks ++ tasks

member-occurrences :
    (g : Text) (guids : List Text) → member g guids ≡ false → occurrences g guids ≡ 0
unfolding member
member-occurrences g [] h = refl
member-occurrences g (guid ∷ rest) h = ground (arith, member-occurrences g rest)

active_tasks-le :
    (g : Text) (tasks : List DeviceUpgradeTask)
    → active_tasks g tasks ≤ occurrences g (task_guids tasks)
unfolding keep
active_tasks-le g [] = omega arith
active_tasks-le g (t ∷ ts) = ground (arith, active_tasks-le g ts)

active_tasks-append :
    (g : Text) (ts us : List DeviceUpgradeTask)
    → active_tasks g (ts ++ us) ≡ active_tasks g ts + active_tasks g us
unfolding keep
active_tasks-append g [] us = omega arith
active_tasks-append g (t ∷ ts) us = ground (arith, active_tasks-append g ts us)

-- A plan that can be carried out.
abbrev Fits : List DeviceUpgradeTask → Option Planned → Type 0
Fits tasks none = Unit
Fits tasks (some planned) =
    (g : Text) → occurrences g (task_guids planned.tasks) + active_tasks g tasks ≤ 1

module _ (tx : Tx) (tasks : List DeviceUpgradeTask) (single : IsSingle tasks) where
  plan_found-Fits :
      (scene : Scene) (release : Release) (batch : DeviceUpgradeBatch) (url : Text)
      (guids : List Text) (devices : List Device) (found : Option (List Text))
      → ((g : Text) → occurrences g guids ≤ 1)
      → Covers tasks guids found
      → Fits tasks (plan_found scene release batch url guids devices found)
  unfolding plan_found
  plan_found-Fits scene release batch url guids devices none once covers = tt
  plan_found-Fits scene release batch url guids devices (some active) once covers = λ g.
      let bound =
        plan_tasks-Bound active (build_for scene release batch url active)
          (build_for-Builds scene release batch url active) g (add_devices empty devices) guids
          (add_devices-Keyed empty devices empty-Keyed) in
      ground (arith, once g, covers g, single g, member-occurrences g guids)

  plan_batch-Fits :
      (scene : Scene) (release : Release) (batch : DeviceUpgradeBatch) (url : Text)
      (guids : List Text) (devices : Option (List Device))
      → ((g : Text) → occurrences g guids ≤ 1)
      → FindsActive tx tasks
      → Fits tasks (plan_batch tx scene release batch url guids devices)
  unfolding plan_batch active_guids plan_found add_devices
  plan_batch-Fits scene release batch url guids none once finds = tt
  plan_batch-Fits scene release batch url guids (some []) once finds = λ g.
      rw
        (plan_tasks-nobody [] (build_for scene release batch url [])
          (build_for-Builds scene release batch url []) empty guids (get-empty {V = Device}))
        (omega (arith, single g))
  plan_batch-Fits scene release batch url guids (some (device ∷ rest)) once finds =
      plan_found-Fits scene release batch url guids (device ∷ rest) (tx.find_active guids) once
        (finds guids)

  store_tasks-IsSingle :
      (scene : Scene) (batch : DeviceUpgradeBatch) (failures : List DeviceUpgradeFailure)
      (new : List DeviceUpgradeTask)
      → IsSingle (new ++ tasks)
      → IsSingle (tasks_after tasks (store_tasks tx scene batch failures new))
  unfolding store_tasks
  store_tasks-IsSingle scene batch failures [] h = single
  store_tasks-IsSingle scene batch failures (task ∷ rest) h =
      elim (Bool-cases (tx.insert_tasks (task ∷ rest))) [
        | inl inserted ↦ elim (Bool-cases tx.update_batch) [
          | inl updated ↦ rw (inserted, updated) h
          | inr lost ↦ rw (inserted, lost) single
        ]
        | inr lost ↦ rw lost single
      ]

  finish_batch-IsSingle :
      (scene : Scene) (batch : DeviceUpgradeBatch) (planned : Option Planned)
      → Fits tasks planned
      → IsSingle (tasks_after tasks (finish_batch tx scene batch planned))
  unfolding finish_batch
  finish_batch-IsSingle scene batch none fits = single
  finish_batch-IsSingle scene batch (some planned) fits =
      store_tasks-IsSingle scene batch planned.failures planned.tasks (λ g.
        rw (active_tasks-append g planned.tasks tasks)
          (omega (arith, fits g, active_tasks-le g planned.tasks)))

  create_created-IsSingle :
      (scene : Scene) (release : Release) (message : Text) (guids : List Text) (url : Text)
      (guid : Option Text)
      → ((g : Text) → occurrences g guids ≤ 1)
      → FindsActive tx tasks
      → IsSingle (tasks_after tasks (create_created tx scene release message guids url guid))
  unfolding create_created
  create_created-IsSingle scene release message guids url none once finds = single
  create_created-IsSingle scene release message guids url (some guid) once finds =
      let batch = new_batch scene.start release message guid in
      finish_batch-IsSingle scene batch _
        (plan_batch-Fits scene release batch url guids (tx.find_devices guids) once finds)

  create_named-IsSingle :
      (scene : Scene) (release : Release) (message : Text) (guids : List Text) (url : Text)
      → ((g : Text) → occurrences g guids ≤ 1)
      → FindsActive tx tasks
      → IsSingle (tasks_after tasks (create_named tx scene release message guids url))
  unfolding create_named
  create_named-IsSingle scene release message [] url once finds = single
  create_named-IsSingle scene release message (guid ∷ rest) url once finds =
      create_created-IsSingle scene release message (guid ∷ rest) url tx.create once finds

  create_for-IsSingle :
      (scene : Scene) (req : CreateDeviceUpgradeBatchRequest) (url : Text)
      (release : Option Release)
      → FindsActive tx tasks
      → IsSingle (tasks_after tasks (create_for tx scene req url release))
  unfolding create_for
  create_for-IsSingle scene req url none finds = single
  create_for-IsSingle scene req url (some release) finds =
      elim (Bool-cases (is_online_upgradeable_release_type release.release_type)) [
        | inl ok ↦ rw ok (
            create_named-IsSingle scene release req.message (unique_from [] req.device_guids) url
              (unique-once req.device_guids) finds)
        | inr bad ↦ rw bad single
      ]

-- If the query of the active tasks names every device of the request that has one, CreateBatch
-- leaves at most one active task for every device where that was so before, also if it fails.
pub create_batch-IsSingle :
    (get_enabled : Text → Option Release) (tx : Tx) (scene : Scene) (release_guid : Text)
    (req : CreateDeviceUpgradeBatchRequest) (url : Text) (tasks : List DeviceUpgradeTask)
    → FindsActive tx tasks
    → IsSingle tasks
    → IsSingle (tasks_after tasks (create_batch get_enabled tx scene release_guid req url))
unfolding create_batch
create_batch-IsSingle get_enabled tx scene release_guid req url tasks finds single =
    elim (Bool-cases (is_empty (trim_space release_guid))) [
      | inl unnamed ↦ rw unnamed single
      | inr named ↦ rw named (
          create_for-IsSingle tx tasks single scene req url (get_enabled (trim_space release_guid))
            finds)
    ]
