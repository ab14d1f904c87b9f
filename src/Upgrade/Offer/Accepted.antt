-- ===== src/Upgrade/Offer/Accepted.antt =====
-- What is offered for an upgrade is accepted, and one task is made at a time.
use navmesh_go.Base.{
  ℕ, ◌≡◌, ◌∙◌, sym, ap, Bool, true, false, Option, none, some, List, [], ◌∷◌, ◌⊎◌, inl, inr, arith,
  Bool-cases, keep,
}
use navmesh_go.Base.Int.{ℤ}
use navmesh_go.Base.Text.{Text, eq_text, eq_text_iff, is_empty, trim_space}
use navmesh_go.Domain.{Device, Release, DeviceUpgradeTask}
use navmesh_go.Upgrade.Plan.{
  Orders, BuildError, counted, count_error, active_error, build_unless, checked_url, new_task,
  build_task_with_active_set,
}
use navmesh_go.Upgrade.Batch.Single.{IsSingle, active_tasks}
use navmesh_go.Upgrade.Offer.{TaskError, Queries, save_task, create_found, create_task}

abbrev Builds : (Text → Option ℕ) → Device → BuildError ⊎ DeviceUpgradeTask → Type 0
Builds count device (inl e) = Unit
Builds count device (inr task) = (task.device_guid ≡ device.guid) × (count device.guid ≡ some 0)

build_task-Builds :
    (now : ℤ) (o o' : Orders) (device : Device) (release : Release) (batch message url : Text)
    (online : Bool) (count : Text → Option ℕ)
    → Builds count device (
        build_task_with_active_set now o o' device release batch message url online (counted count))
unfolding build_task_with_active_set build_unless checked_url active_error count_error new_task
build_task-Builds now o o' device release batch message url online count = ground arith

-- The table of the tasks after the call.
abbrev pub tasks_with :
    List DeviceUpgradeTask → TaskError ⊎ DeviceUpgradeTask → List DeviceUpgradeTask
tasks_with tasks (inl e) = tasks
tasks_with tasks (inr task) = task ∷ tasks

save_task-IsSingle :
    (tasks : List DeviceUpgradeTask) (saved : Bool) (count : Text → Option ℕ) (device : Device)
    (built : BuildError ⊎ DeviceUpgradeTask)
    → IsSingle tasks
    → ((guid : Text) → count guid ≡ some (active_tasks guid tasks))
    → Builds count device built
    → IsSingle (tasks_with tasks (save_task saved built))
unfolding save_task keep
save_task-IsSingle tasks saved count device (inl e) single counts b = single
save_task-IsSingle tasks false count device (inr task) single counts b = single
save_task-IsSingle tasks true count device (inr task) single counts (same, zero_count) = λ g.
    let e : some (active_tasks device.guid tasks) ≡ some 0 =
      sym (counts device.guid) ∙ zero_count in
    let free : active_tasks device.guid tasks ≡ 0 = cc in
    elim (Bool-cases (eq_text task.device_guid g)) [
      | inl here ↦
          let owner : device.guid ≡ g = sym same ∙ (eq_text_iff task.device_guid g).0 here in
          let none_yet : active_tasks g tasks ≡ 0 =
            ap (λ t. active_tasks t tasks) (sym owner) ∙ free in
          ground (arith, none_yet)
      | inr other ↦ ground (arith, single g)
    ]

create_found-IsSingle :
    (tasks : List DeviceUpgradeTask) (q : Queries) (o o' : Orders) (message url : Text)
    (device : Option Device) (release : Option Release)
    → IsSingle tasks
    → ((guid : Text) → q.count_active guid ≡ some (active_tasks guid tasks))
    → IsSingle (tasks_with tasks (create_found q o o' message url device release))
unfolding create_found
create_found-IsSingle tasks q o o' message url none release single counts = single
create_found-IsSingle tasks q o o' message url (some device) none single counts = single
create_found-IsSingle tasks q o o' message url (some device) (some release) single counts =
    save_task-IsSingle tasks q.saved q.count_active device _ single counts
      (build_task-Builds q.now o o' device release [] (trim_space message) url false q.count_active)

-- If the count that CreateTask asks for is that of the table when the row is written, every device
-- has at most one active task after the call if that was so before.
pub create_task-IsSingle :
    (tasks : List DeviceUpgradeTask) (q : Queries) (o o' : Orders)
    (device_guid release_guid message url : Text)
    → IsSingle tasks
    → ((guid : Text) → q.count_active guid ≡ some (active_tasks guid tasks))
    → IsSingle (tasks_with tasks (create_task q o o' device_guid release_guid message url))
unfolding create_task
create_task-IsSingle tasks q o o' device_guid release_guid message url single counts =
    elim (Bool-cases (is_empty (trim_space device_guid))) [
      | inl bare ↦ rw bare single
      | inr device ↦ elim (Bool-cases (is_empty (trim_space release_guid))) [
        | inl bare ↦ rw (device, bare) single
        | inr release ↦
            rw (device, release)
              (create_found-IsSingle tasks q o o' message url
                (q.find_device (trim_space device_guid)) (q.get_enabled (trim_space release_guid))
                single counts)
      ]
    ]
