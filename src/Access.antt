-- ===== src/Access.antt =====
-- services/access_policy_service.go: which protocols a device may be reached by.
-- The condition of a query is a predicate on the rows. `find` stands for the database: the rows that
-- meet a condition, or none for an error.
pub mod Saved
pub mod Cache
mod Tests
use navmesh_go.Base.{
  ℕ, ◌≡◌, refl, Bool, true, false, ◌||◌, ◌&&◌, not, Option, none, some, List, [], ◌∷◌, ◌⊎◌, inl,
  inr, ◌==◌, if◌then◌else◌,
}
use navmesh_go.Base.Int.{ℤ}
use navmesh_go.Base.Text.{Text, codes, eq_text, is_empty, trim_space, to_lower, member}
use navmesh_go.Domain.{Device, AccessPolicy, status_enabled, status_disabled}

pub record PolicyDeviceContext : Type 0 where
  pub group_guid : Text
  pub device_type : Text

abbrev device_context : Option Device → PolicyDeviceContext
device_context none = record { group_guid = []; device_type = [] }
device_context (some device) = record {
  group_guid = trim_space device.group_guid;
  device_type = trim_space device.device_type;
}

-- `find_device` is the query by guid, none for an error.
unfoldable pub load_policy_device_context : (Text → Option Device) → Text → PolicyDeviceContext
load_policy_device_context find_device device_guid =
    if is_empty (trim_space device_guid)
    then record { group_guid = []; device_type = [] }
    else device_context (find_device device_guid)

unfoldable pub targets : PolicyDeviceContext → List Text
targets c =
    if is_empty c.group_guid
    then if is_empty c.device_type then [] ∷ [] else c.device_type ∷ []
    else if is_empty c.device_type
    then c.group_guid ∷ []
    else if eq_text c.group_guid c.device_type
    then c.group_guid ∷ []
    else c.group_guid ∷ c.device_type ∷ []

-- The condition of the query besides `status = 1`.
unfoldable pub policy_query : Text → Text → List Text → AccessPolicy → Bool
policy_query device_guid mapping_guid group_targets policy =
    eq_text policy.scope (codes "global")
    || (eq_text policy.scope (codes "device") && eq_text policy.target_id device_guid)
    || (eq_text policy.scope (codes "group") && member policy.target_id group_targets)
    || (not (is_empty mapping_guid)
        && eq_text policy.scope (codes "mapping")
        && eq_text policy.target_id mapping_guid)

unfoldable pub allow_protocol : Text → Bool → AccessPolicy → Bool
allow_protocol protocol allowed policy =
    if eq_text protocol (codes "ssh")
    then allowed && policy.allow_ssh
    else if eq_text protocol (codes "http") || eq_text protocol (codes "https")
    then allowed && policy.allow_http
    else if eq_text protocol (codes "tcp")
    then allowed && policy.allow_tcp
    else allowed

unfoldable pub allowed_by : Text → Bool → List AccessPolicy → Bool
unfolding allow_protocol
allowed_by protocol allowed [] = allowed
allowed_by protocol allowed (policy ∷ rest) =
    allowed_by protocol (allow_protocol protocol allowed policy) rest

abbrev decide : Text → Option (List AccessPolicy) → Bool
decide protocol none = true
decide protocol (some policies) = allowed_by protocol true policies

unfoldable pub is_allowed :
    (Text → Option Device)
    → ((AccessPolicy → Bool) → Option (List AccessPolicy))
    → Text
    → Text
    → Text
    → Bool
unfolding load_policy_device_context targets policy_query allowed_by
is_allowed find_device find device_guid mapping_guid protocol =
    let device = trim_space device_guid in
    let context = load_policy_device_context find_device device in
    decide (to_lower (trim_space protocol)) (
      find (λ policy.
        policy.status == status_enabled
        && policy_query device (trim_space mapping_guid) (targets context) policy))

pub record SaveAccessPolicyRequest : Type 0 where
  pub guid : Text
  pub name : Text
  pub scope : Text
  pub target_id : Text
  pub allow_ssh : Bool
  pub allow_http : Bool
  pub allow_tcp : Bool
  pub status : ℕ

unfoldable pub normalize_policy_request : SaveAccessPolicyRequest → SaveAccessPolicyRequest
normalize_policy_request req =
    let scope = to_lower (trim_space req.scope) in
    record req {
      guid = trim_space req.guid;
      name = trim_space req.name;
      scope = if is_empty scope then codes "device" else scope;
      target_id = trim_space req.target_id;
      status = if req.status == 0 then status_enabled else req.status;
    }

pub data SaveError : Type 0 where
  name_required scope_required target_required db_error : SaveError

-- The answer of the query for the row by its guid.
pub data Found : Type 0 where
  found : AccessPolicy → Found
  not_found query_failed : Found

unfoldable pub fill_row : SaveAccessPolicyRequest → AccessPolicy → AccessPolicy
fill_row req row = record row {
  name = req.name;
  scope = req.scope;
  target_id = req.target_id;
  allow_ssh = req.allow_ssh;
  allow_http = req.allow_http;
  allow_tcp = req.allow_tcp;
  status = req.status;
}

unfoldable pub new_row : Text → AccessPolicy
new_row guid = record {
  guid = guid;
  name = [];
  scope = [];
  target_id = [];
  allow_ssh = false;
  allow_http = false;
  allow_tcp = false;
  status = 0;
}

unfoldable pub save_row : Bool → SaveAccessPolicyRequest → Found → SaveError ⊎ AccessPolicy
unfolding fill_row new_row
save_row saved req query_failed = inl db_error
save_row saved req not_found = if saved then inr (fill_row req (new_row req.guid)) else inl db_error
save_row saved req (found row) = if saved then inr (fill_row req row) else inl db_error

-- The row that is written, or the error. After a row the HTTP routes are reloaded.
unfoldable pub save : (Text → Found) → Bool → SaveAccessPolicyRequest → SaveError ⊎ AccessPolicy
unfolding normalize_policy_request save_row
save find saved given =
    let req = normalize_policy_request given in
    if is_empty req.name
    then inl name_required
    else if is_empty req.scope
    then inl scope_required
    else if eq_text req.scope (codes "global")
    then save_row saved req (find req.guid)
    else if is_empty req.target_id
    then inl target_required
    else save_row saved req (find req.guid)

unfoldable pub disable_rows : Text → List AccessPolicy → List AccessPolicy
disable_rows guid [] = []
disable_rows guid (row ∷ rest) =
    (if eq_text row.guid guid then record row { status = status_disabled } else row)
    ∷ disable_rows guid rest

-- The rows after an update that succeeds, and none for an empty guid.
unfoldable pub disable : Text → List AccessPolicy → Option (List AccessPolicy)
unfolding disable_rows
disable guid rows =
    if is_empty (trim_space guid) then none else some (disable_rows (trim_space guid) rows)
