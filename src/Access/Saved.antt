-- ===== src/Access/Saved.antt =====
-- The policies that Save writes.
use navmesh_go.Base.{
  ◌≡◌, ◌⊎◌, ◌∙◌, sym, refl, ap, Bool, true, false, inl, inr, if◌then◌else◌, Bool-cases,
}
use navmesh_go.Base.Text.{Text, codes, eq_text, eq_text_iff, is_empty, trim_space, to_lower}
use navmesh_go.Base.Trim.{to_lower-to_lower, trim_space-trim_space, trim_space-to_lower}
use navmesh_go.Domain.{AccessPolicy}
use navmesh_go.Access.{
  SaveAccessPolicyRequest, SaveError, Found, found, not_found, query_failed,
  normalize_policy_request, fill_row, new_row, save_row, save,
}

-- A policy as Save leaves it: scope and target trimmed, the scope in lower case, and a target for
-- every scope but the global one.
pub record IsSaved (policy : AccessPolicy) : Type 0 where
  pub scope : to_lower (trim_space policy.scope) ≡ policy.scope
  pub target : trim_space policy.target_id ≡ policy.target_id
  pub named : policy.scope ≡ codes "group" → is_empty policy.target_id ≡ false

lowered : (t : Text) → to_lower (trim_space (to_lower (trim_space t))) ≡ to_lower (trim_space t)
lowered t =
    ap to_lower (trim_space-to_lower (trim_space t) ∙ ap to_lower (trim_space-trim_space t))
    ∙ to_lower-to_lower (trim_space t)

device_scope : to_lower (trim_space (codes "device")) ≡ codes "device"
unfolding to_lower trim_space
device_scope = refl

abbrev scope_out : Text → Text
scope_out t = if is_empty t then codes "device" else t

scope-lowered :
    (t : Text)
    → to_lower (trim_space (scope_out (to_lower (trim_space t))))
      ≡ scope_out (to_lower (trim_space t))
scope-lowered t = elim (Bool-cases (is_empty (to_lower (trim_space t)))) [
  | inl bare ↦ rw bare device_scope
  | inr given ↦ rw given (lowered t)
]

-- The outcome of Save: no row, or a row as it should be.
abbrev pub SavesWell : SaveError ⊎ AccessPolicy → Type 0
SavesWell (inl e) = Unit
SavesWell (inr row) = IsSaved row

fill_row-IsSaved :
    (given : SaveAccessPolicyRequest) (row : AccessPolicy)
    → (eq_text (normalize_policy_request given).scope (codes "group") ≡ true
        → is_empty (normalize_policy_request given).target_id ≡ false)
    → IsSaved (fill_row (normalize_policy_request given) row)
unfolding fill_row normalize_policy_request
fill_row-IsSaved given row named = record {
  scope = scope-lowered given.scope;
  target = trim_space-trim_space given.target_id;
  named = λ e.
      named ((eq_text_iff (scope_out (to_lower (trim_space given.scope))) (codes "group")).1 e);
}

save_row-SavesWell :
    (saved : Bool) (given : SaveAccessPolicyRequest) (f : Found)
    → (eq_text (normalize_policy_request given).scope (codes "group") ≡ true
        → is_empty (normalize_policy_request given).target_id ≡ false)
    → SavesWell (save_row saved (normalize_policy_request given) f)
unfolding save_row
save_row-SavesWell saved given query_failed named = tt
save_row-SavesWell saved given not_found named = elim (Bool-cases saved) [
  | inl ok ↦ rw ok (fill_row-IsSaved given (new_row (normalize_policy_request given).guid) named)
  | inr lost ↦ rw lost tt
]
save_row-SavesWell saved given (found row) named = elim (Bool-cases saved) [
  | inl ok ↦ rw ok (fill_row-IsSaved given row named)
  | inr lost ↦ rw lost tt
]

global_group :
    {P : Type 0} (s : Text)
    → eq_text s (codes "global") ≡ true
    → eq_text s (codes "group") ≡ true
    → P
unfolding eq_text
global_group s e f =
    let g = sym ((eq_text_iff s (codes "global")).0 e) ∙ (eq_text_iff s (codes "group")).0 f in
    absurd cc

-- Whatever is requested, a row that Save writes has its scope and target trimmed, the scope in lower
-- case, and a target if its scope is a group.
pub save-SavesWell :
    (find : Text → Found) (saved : Bool) (given : SaveAccessPolicyRequest)
    → SavesWell (save find saved given)
unfolding save
save-SavesWell find saved given =
    let req = normalize_policy_request given in
    elim (Bool-cases (is_empty req.name)) [
      | inl nameless ↦ rw nameless tt
      | inr name ↦ elim (Bool-cases (is_empty req.scope)) [
        | inl bare ↦ rw (name, bare) tt
        | inr scope ↦ elim (Bool-cases (eq_text req.scope (codes "global"))) [
          | inl global ↦
              rw (name, scope, global)
                (save_row-SavesWell saved given (find req.guid) (global_group req.scope global))
          | inr other ↦ elim (Bool-cases (is_empty req.target_id)) [
            | inl loose ↦ rw (name, scope, other, loose) tt
            | inr target ↦
                rw (name, scope, other, target)
                  (save_row-SavesWell saved given (find req.guid) (λ e. target))
          ]
        ]
      ]
    ]
