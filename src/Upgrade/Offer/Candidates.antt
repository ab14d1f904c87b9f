-- ===== src/Upgrade/Offer/Candidates.antt =====
-- The candidates that are shown as upgradeable are accepted by CreateBatch.
use navmesh_go.Base.{
  ◌≡◌, ◌∙◌, refl, ap, Bool, true, false, Option, none, some, List, [], ◌∷◌, ◌⊎◌, inl, inr, arith,
  if◌then◌else◌, Bool-cases, all, All,
}
use navmesh_go.Base.Text.{Text, is_empty, member}
use navmesh_go.Base.Map.{Map, get}
use navmesh_go.Domain.{
  Device, Release, DeviceUpgradeTask, DeviceUpgradeBatch, device_status_online, normalize_defaults,
}
use navmesh_go.Upgrade.Kind.{is_online_upgradeable_release_type, first_non_empty_string}
use navmesh_go.Upgrade.Plan.{
  BuildError, active_error, build_unless, checked_url, new_task, release_matches_device,
  release_matches_device_type, release_matches_device_platform, release_upgrade_disabled_reason,
  build_task_with_active_set,
}
use navmesh_go.Upgrade.Batch.{Scene, build_for}
use navmesh_go.Upgrade.Offer.{DeviceUpgradeCandidate, candidate_of, candidates_from}

abbrev pub is_built : BuildError ⊎ DeviceUpgradeTask → Bool
is_built (inl e) = false
is_built (inr task) = true

-- A candidate that is shown as upgradeable and free can be given a task.
abbrev pub accepts :
    Scene → Release → DeviceUpgradeBatch → Text → List Text → DeviceUpgradeCandidate → Bool
accepts scene release batch url guids c =
    if c.online_upgradeable
    then if c.has_active_upgrade
      then true
      else is_built (build_for scene release batch url guids c.device)
    else true

module _ (scene : Scene) (release : Release) (batch : DeviceUpgradeBatch) (url : Text)
    (guids : List Text) (normal : normalize_defaults release ≡ release)
    (kind : is_online_upgradeable_release_type release.release_type ≡ true)
    (address : is_empty (first_non_empty_string (release.download_url ∷ url ∷ [])) ≡ false) where
  built :
      (device : Device)
      → device.status ≡ device_status_online
      → release_matches_device_type release device ≡ true
      → release_matches_device_platform (scene.first device) release device ≡ true
      → is_empty (release_upgrade_disabled_reason (scene.second device) release device) ≡ true
      → member device.guid guids ≡ false
      → is_built (build_for scene release batch url guids device) ≡ true
  unfolding build_for build_task_with_active_set build_unless checked_url active_error new_task
      release_matches_device
  built device online type_ok platform reason free =
      let r = normalize_defaults release in
      let kind' : is_online_upgradeable_release_type r.release_type ≡ true =
        ap (λ x. is_online_upgradeable_release_type x.release_type) normal ∙ kind in
      let type' : release_matches_device_type r device ≡ true =
        ap (λ x. release_matches_device_type x device) normal ∙ type_ok in
      let platform' : release_matches_device_platform (scene.first device) r device ≡ true =
        ap (λ x. release_matches_device_platform (scene.first device) x device) normal ∙ platform in
      let reason' : is_empty (release_upgrade_disabled_reason (scene.second device) r device)
          ≡ true =
        ap (λ x. is_empty (release_upgrade_disabled_reason (scene.second device) x device)) normal
        ∙ reason in
      let address' : is_empty (first_non_empty_string (r.download_url ∷ url ∷ [])) ≡ false =
        ap (λ x. is_empty (first_non_empty_string (x.download_url ∷ url ∷ []))) normal ∙ address in
      ground (arith, kind', type', platform', reason', address', free, online)

  accepts-candidate_of :
      (device : Device) (task : Option DeviceUpgradeTask)
      → device.status ≡ device_status_online
      → release_matches_device_type release device ≡ true
      → release_matches_device_platform (scene.first device) release device ≡ true
      → (task ≡ none → member device.guid guids ≡ false)
      → accepts scene release batch url guids (
          candidate_of
            (release_upgrade_disabled_reason (scene.second device) release device)
            device
            task)
        ≡ true
  unfolding candidate_of
  accepts-candidate_of device none online type_ok platform free =
      elim (Bool-cases
        (is_empty (release_upgrade_disabled_reason (scene.second device) release device))) [
          | inl open_to ↦ rw open_to (built device online type_ok platform open_to (free refl))
          | inr closed ↦ rw closed refl
        ]
  accepts-candidate_of device (some task) online type_ok platform free =
      elim (Bool-cases
        (is_empty (release_upgrade_disabled_reason (scene.second device) release device))) [
          | inl open_to ↦ rw open_to refl
          | inr closed ↦ rw closed refl
        ]

  -- If the release is as GetEnabled gives it, of a kind that is upgraded online and has an address,
  -- the devices are online, and the tasks of the two queries are for the same devices, then
  -- CreateBatch accepts every candidate that is shown as upgradeable and without a task, in the same
  -- orders of the aliases.
  pub accepts-candidates_from :
      (active : Map DeviceUpgradeTask) (devices : List Device)
      → ((g : Text) → get active g ≡ none → member g guids ≡ false)
      → All (λ d. d.status ≡ device_status_online) devices
      → all
          (accepts scene release batch url guids)
          (candidates_from (λ d. (scene.first d, scene.second d)) release active devices)
        ≡ true
  unfolding candidates_from
  accepts-candidates_from active [] same online = refl
  accepts-candidates_from active (device ∷ rest) same (on, online) =
      let others = accepts-candidates_from active rest same online in
      elim (Bool-cases (release_matches_device_type release device)) [
        | inl t ↦
            elim (Bool-cases
              (release_matches_device_platform (scene.first device) release device)) [
                | inl p ↦
                    rw (t, p)
                      (rw
                        (accepts-candidate_of device (get active device.guid) on t p
                          (same device.guid))
                        others)
                | inr p ↦ rw (t, p) others
              ]
        | inr t ↦ rw t others
      ]
