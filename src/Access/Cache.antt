-- ===== src/Access/Cache.antt =====
-- The decision that the HTTP routes keep, and the decision of the policy service.
use navmesh_go.Base.{
  ◌≡◌, ◌∙◌, sym, refl, ap, Bool, true, false, not, ◌&&◌, ◌||◌, Option, some, List, [], ◌∷◌, inl,
  inr, arith, ◌==◌, if◌then◌else◌, keep, All, Bool-cases,
}
use navmesh_go.Base.Text.{Text, codes, eq_text, eq_text_iff, is_empty, trim_space, to_lower, member}
use navmesh_go.Domain.{Device, PortMapping, AccessPolicy, status_enabled}
use navmesh_go.Routes.{route_policy_applies, route_allows_from, route_allows_http}
use navmesh_go.Access.{
  PolicyDeviceContext, device_context, load_policy_device_context, targets, policy_query,
  allow_protocol, allowed_by, is_allowed,
}
use navmesh_go.Access.Saved.{IsSaved}

-- The two ways to test the scope.
scope_chain :
    (s : Text) (a b c : Bool)
    → (if eq_text s (codes "global")
        then true
        else if eq_text s (codes "device")
        then a
        else if eq_text s (codes "group")
        then b
        else if eq_text s (codes "mapping")
        then c
        else false)
      ≡ (eq_text s (codes "global")
          || (eq_text s (codes "device") && a)
          || (eq_text s (codes "group") && b)
          || (eq_text s (codes "mapping") && c))
unfolding eq_text
scope_chain s a b c = elim (Bool-cases (eq_text s (codes "global"))) [
  | inl e ↦ rw ((eq_text_iff s (codes "global")).0 e) refl
  | inr e ↦ elim (Bool-cases (eq_text s (codes "device"))) [
    | inl d ↦ rw ((eq_text_iff s (codes "device")).0 d) (ground arith)
    | inr d ↦ elim (Bool-cases (eq_text s (codes "group"))) [
      | inl g ↦ rw ((eq_text_iff s (codes "group")).0 g) (ground arith)
      | inr g ↦ rw (e, d, g) (ground arith)
    ]
  ]
]

member-targets :
    (t : Text) (c : PolicyDeviceContext)
    → is_empty t ≡ false
    → member t (targets c) ≡ (eq_text t c.group_guid || eq_text t c.device_type)
unfolding member targets
member-targets t c named = ground (
  arith,
  eq_text_iff t c.group_guid,
  eq_text_iff t c.device_type,
  eq_text_iff c.group_guid t,
  eq_text_iff c.device_type t,
  eq_text_iff c.group_guid c.device_type,
  eq_text_iff [] t,
)

applies-policy_query :
    (policy : AccessPolicy) (device : Device) (mapping : PortMapping)
    → IsSaved policy
    → is_empty mapping.guid ≡ false
    → route_policy_applies policy device mapping
      ≡ policy_query device.guid mapping.guid (targets (device_context (some device))) policy
unfolding route_policy_applies policy_query
applies-policy_query policy device mapping saved named =
    let s = policy.scope in
    let t = policy.target_id in
    let c = device_context (some device) in
    let a = eq_text t device.guid in
    let b = not (is_empty t) && (eq_text t c.group_guid || eq_text t c.device_type) in
    let d = eq_text t mapping.guid in
    rw (saved.scope, saved.target)
      (scope_chain s a b d
        ∙ ground (arith, named, member-targets t c, saved.named, eq_text_iff s (codes "group")))

allows_step :
    (b : Bool) (e : AccessPolicy → Bool) (p : AccessPolicy) (rest : List AccessPolicy)
    (device : Device) (mapping : PortMapping)
    → route_allows_from b device mapping (keep e (p ∷ rest))
      ≡ route_allows_from
          (if e p
            then if route_policy_applies p device mapping then b && p.allow_http else b
            else b)
          device
          mapping
          (keep e rest)
unfolding route_allows_from keep
allows_step b e p rest device mapping = elim (Bool-cases (e p)) [
  | inl on ↦ rw on refl
  | inr off ↦ rw off refl
]

allowed_step :
    (b : Bool) (q : AccessPolicy → Bool) (p : AccessPolicy) (rest : List AccessPolicy)
    → allowed_by (codes "http") b (keep q (p ∷ rest))
      ≡ allowed_by (codes "http") (if q p then b && p.allow_http else b) (keep q rest)
unfolding allowed_by allow_protocol keep eq_text
allowed_step b q p rest = elim (Bool-cases (q p)) [ inl on ↦ rw on refl | inr off ↦ rw off refl ]

allows-allowed_by :
    (b : Bool) (rows : List AccessPolicy) (device : Device) (mapping : PortMapping)
    → All IsSaved rows
    → is_empty mapping.guid ≡ false
    → route_allows_from b device mapping (keep (λ p. p.status == status_enabled) rows)
      ≡ allowed_by (codes "http") b (
          keep
            (λ p.
              p.status == status_enabled
              && policy_query device.guid mapping.guid (targets (device_context (some device))) p)
            rows)
unfolding route_allows_from allowed_by keep
allows-allowed_by b [] device mapping saved named = refl
allows-allowed_by b (p ∷ rest) device mapping (s, saved) named =
    let q = applies-policy_query p device mapping s named in
    let enabled : AccessPolicy → Bool = λ r. r.status == status_enabled in
    let query : AccessPolicy → Bool = λ r.
      enabled r
      && policy_query device.guid mapping.guid (targets (device_context (some device))) r in
    let next =
      if enabled p
      then if route_policy_applies p device mapping then b && p.allow_http else b
      else b in
    let agree : (if query p then b && p.allow_http else b) ≡ next = ground (arith, q) in
    allows_step b enabled p rest device mapping
    ∙ allows-allowed_by next rest device mapping saved named
    ∙ ap (λ n. allowed_by (codes "http") n (keep query rest)) (sym agree)
    ∙ sym (allowed_step b query p rest)

-- For a mapping of a device, with policies as Save leaves them and a database that answers the two
-- queries, the decision that the HTTP routes keep is that of the policy service.
pub route_allows_http-is_allowed :
    (rows : List AccessPolicy) (find_device : Text → Option Device)
    (find : (AccessPolicy → Bool) → Option (List AccessPolicy)) (device : Device)
    (mapping : PortMapping)
    → All IsSaved rows
    → ((q : AccessPolicy → Bool) → find q ≡ some (keep q rows))
    → find_device device.guid ≡ some device
    → trim_space device.guid ≡ device.guid
    → is_empty device.guid ≡ false
    → trim_space mapping.guid ≡ mapping.guid
    → is_empty mapping.guid ≡ false
    → route_allows_http device mapping (keep (λ p. p.status == status_enabled) rows)
      ≡ is_allowed find_device find device.guid mapping.guid (codes "http")
unfolding route_allows_http is_allowed load_policy_device_context to_lower trim_space
route_allows_http-is_allowed rows find_device find device mapping saved answers row dt dn mt mn =
    rw (dt, dt, dn, row, mt, answers) (allows-allowed_by true rows device mapping saved mn)
