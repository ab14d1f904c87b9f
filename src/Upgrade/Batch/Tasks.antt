-- ===== src/Upgrade/Batch/Tasks.antt =====
-- The tasks that CreateBatch plans.
use navmesh_go.Base.{
  ◌+◌, length, ℕ, suc, ◌≤◌, ◌≡◌, ◌∙◌, sym, refl, ap, false, ◌||◌, Option, none, some, List, [], ◌∷◌,
  ◌⊎◌, inl, inr, arith, if◌then◌else◌, map, Bool-cases,
}
use navmesh_go.Base.Text.{Text, eq_text, eq_text_iff, is_empty, trim_space, member}
use navmesh_go.Base.Map.{Map, empty, get, put, get-put, get-empty}
use navmesh_go.Domain.{
  Device, Release, DeviceUpgradeTask, DeviceUpgradeBatch, upgrade_pending, device_status_online,
}
use navmesh_go.Upgrade.Kind.{unique_from, unique_trimmed_strings}
use navmesh_go.Upgrade.Plan.{
  BuildError, active_error, build_task_with_active_set, build_unless, checked_url, new_task,
}
use navmesh_go.Upgrade.Batch.{
  Planned, add_devices, plan_device, plan_tasks, add_outcome, add_missing, Scene, build_for,
}

-- How often a text occurs.
abbrev pub occurrences : Text → List Text → ℕ
occurrences g [] = 0
occurrences g (t ∷ ts) = if eq_text t g then suc (occurrences g ts) else occurrences g ts

pub unique_from-occurrences :
    (g : Text) (seen vs : List Text)
    → occurrences g (unique_from seen vs) ≤ (if member g seen then 0 else 1)
unfolding unique_from member
unique_from-occurrences g seen [] = ground arith
unique_from-occurrences g seen (value ∷ rest) =
    let v = trim_space value in
    elim (Bool-cases (is_empty v || member v seen)) [
      | inl skipped ↦ rw skipped (unique_from-occurrences g seen rest)
      | inr taken ↦
          rw taken (ground (arith, unique_from-occurrences g (v ∷ seen) rest, eq_text_iff v g))
    ]

pub unique-once : (vs : List Text) (g : Text) → occurrences g (unique_trimmed_strings vs) ≤ 1
unfolding unique_trimmed_strings member
unique-once vs g = unique_from-occurrences g [] vs

-- What a task that is built satisfies.
abbrev pub Builds : List Text → Device → BuildError ⊎ DeviceUpgradeTask → Type 0
Builds active device (inl e) = Unit
Builds active device (inr task) =
    (task.device_guid ≡ device.guid)
    × (task.status ≡ upgrade_pending)
    × (member device.guid active ≡ false)
    × (is_empty task.download_url ≡ false)
    × (device.status ≡ device_status_online)

pub build_for-Builds :
    (scene : Scene) (release : Release) (batch : DeviceUpgradeBatch) (url : Text)
    (active : List Text) (device : Device)
    → Builds active device (build_for scene release batch url active device)
unfolding build_for build_task_with_active_set build_unless checked_url active_error new_task
build_for-Builds scene release batch url active device = ground arith

-- The rows of the map stand under their guids.
abbrev pub Keyed : Text → Option Device → Type 0
Keyed g none = Unit
Keyed g (some device) = device.guid ≡ g

pub add_devices-Keyed :
    (m : Map Device) (devices : List Device)
    → ((g : Text) → Keyed g (get m g))
    → (g : Text) → Keyed g (get (add_devices m devices) g)
unfolding add_devices
add_devices-Keyed m [] k = k
add_devices-Keyed m (device ∷ rest) k = add_devices-Keyed (put m device.guid device) rest (λ g.
    rw (get-put m device.guid g device) (elim (Bool-cases (eq_text device.guid g)) [
      | inl e ↦ rw e ((eq_text_iff device.guid g).0 e)
      | inr e ↦ rw e (k g)
    ]))

none-Keyed : (g : Text) (o : Option Device) → o ≡ none → Keyed g o
none-Keyed g none e = tt
none-Keyed g (some device) e = absurd cc

pub empty-Keyed : (g : Text) → Keyed g (get (empty {V = Device}) g)
empty-Keyed g = none-Keyed g (get (empty {V = Device}) g) (get-empty {V = Device} g)

abbrev pub task_guids : List DeviceUpgradeTask → List Text
task_guids tasks = map (λ t. t.device_guid) tasks

abbrev pub Bound : List Text → Text → ℕ → Planned → Type 0
Bound active g n planned =
    occurrences g (task_guids planned.tasks) ≤ (if member g active then 0 else n)

add_outcome-Bound :
    (active : List Text) (g guid : Text) (device : Device) (o : BuildError ⊎ DeviceUpgradeTask)
    (rest : Planned) (n : ℕ)
    → Builds active device o
    → device.guid ≡ guid
    → Bound active g n rest
    → Bound active g (if eq_text guid g then suc n else n) (add_outcome guid o rest)
unfolding add_outcome
add_outcome-Bound active g guid device (inl e) rest n b k h = ground arith
add_outcome-Bound active g guid device (inr task) rest n (same, pending, free, url, online) k h =
    elim (Bool-cases (eq_text guid g)) [
      | inl e ↦
          let here : device.guid ≡ g = k ∙ (eq_text_iff guid g).0 e in
          let free' : member g active ≡ false = ap (λ t. member t active) (sym here) ∙ free in
          ground (arith, eq_text_iff task.device_guid g)
      | inr e ↦
          let other : eq_text task.device_guid g ≡ false = ap (λ t. eq_text t g) (same ∙ k) ∙ e in
          rw (e, other) h
    ]

module _ (active : List Text) (build : Device → BuildError ⊎ DeviceUpgradeTask)
    (builds : (device : Device) → Builds active device (build device)) where
  plan_device-Bound :
      (g guid : Text) (found : Option Device) (rest : Planned) (n : ℕ)
      → Keyed guid found
      → Bound active g n rest
      → Bound active g (if eq_text guid g then suc n else n) (plan_device build guid found rest)
  unfolding plan_device add_missing
  plan_device-Bound g guid none rest n k h = ground arith
  plan_device-Bound g guid (some device) rest n k h =
      add_outcome-Bound active g guid device (build device) rest n (builds device) k h

  pub plan_tasks-Bound :
      (g : Text) (devices : Map Device) (guids : List Text)
      → ((j : Text) → Keyed j (get devices j))
      → Bound active g (occurrences g guids) (plan_tasks build devices guids)
  unfolding plan_tasks
  plan_tasks-Bound g devices [] k = omega arith
  plan_tasks-Bound g devices (guid ∷ rest) k =
      plan_device-Bound g guid (get devices guid) (plan_tasks build devices rest)
        (occurrences g rest) (k guid) (plan_tasks-Bound g devices rest k)

  pub plan_tasks-nobody :
      (devices : Map Device) (guids : List Text)
      → ((j : Text) → get devices j ≡ none)
      → (plan_tasks build devices guids).tasks ≡ []
  unfolding plan_tasks plan_device add_missing
  plan_tasks-nobody devices [] k = refl
  plan_tasks-nobody devices (guid ∷ rest) k = rw (k guid) (plan_tasks-nobody devices rest k)

plan_device-length :
    (build : Device → BuildError ⊎ DeviceUpgradeTask) (guid : Text) (found : Option Device)
    (rest : Planned)
    → length (plan_device build guid found rest).tasks
        + length (plan_device build guid found rest).failures
      ≡ suc (length rest.tasks + length rest.failures)
unfolding plan_device add_missing add_outcome
plan_device-length build guid none rest = omega arith
plan_device-length build guid (some device) rest =
    elim (build device)
      as (λ o.
        length (add_outcome guid o rest).tasks + length (add_outcome guid o rest).failures
        ≡ suc (length rest.tasks + length rest.failures)) [
          | inl e ↦ omega arith
          | inr task ↦ omega arith
        ]

-- Each guid of a batch ends as one task or as one failure.
pub plan_tasks-length :
    (build : Device → BuildError ⊎ DeviceUpgradeTask) (devices : Map Device) (guids : List Text)
    → length (plan_tasks build devices guids).tasks
        + length (plan_tasks build devices guids).failures
      ≡ length guids
unfolding plan_tasks
plan_tasks-length build devices [] = omega arith
plan_tasks-length build devices (guid ∷ rest) = omega (
  arith,
  plan_device-length build guid (get devices guid) (plan_tasks build devices rest),
  plan_tasks-length build devices rest,
)
