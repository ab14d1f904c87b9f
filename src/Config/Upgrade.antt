-- ===== src/Config/Upgrade.antt =====
-- The upgrade of the paths of an older configuration.
use navmesh_go.Base.{
  ◌≡◌, sym, refl, ap, subst, Bool, true, false, Option, none, some, List, [], ◌∷◌, Bool-cases, ◌⊎◌,
  inl, inr,
}
use navmesh_go.Base.Assoc.{◌>>=◌, bind_assoc}
use navmesh_go.Base.Text.{Text, codes}
use navmesh_go.Config.{
  document, mapping, scalar, other_kind, Node, node, Content, nil, cell, value_of, find_value,
  mapping_value_node, set_value, root_mapping_node, on_content, on_root, child_of, set_keys,
  with_node, node_at,
}
use navmesh_go.Config.Trees.{IsTree}
use navmesh_go.Config.Legacy.{IsOldPath, is_legacy-IsOldPath, IsOldPath-is_legacy}
use navmesh_go.Config.Read.{within, IsWritten, on_root-IsWritten}
use navmesh_go.Config.Portable.{
  is_legacy_relative_path, upgraded, in_mapping, upgrade_keys, upgrade_legacy_config_path,
}

-- The content of a mapping in which the node that is upgraded is set.
abbrev set_upgraded : Text → Text → List Text → Content → Option Content
set_upgraded value key keys content =
    upgraded value (within key keys content) >>= (λ new. some (set_keys key keys new content))

in_mapping-set :
    (value key : Text) (keys : List Text) (o : Option Node)
    → ((content : Content)
        → upgrade_keys value key keys content ≡ set_upgraded value key keys content)
    → in_mapping (upgrade_keys value key keys) o ≡ (
        upgraded value (with_node (node_at (key ∷ keys)) o)
        >>= (λ new. some (on_content (set_keys key keys new) (child_of o))))
unfolding node_at mapping_value_node
in_mapping-set value key keys none h = refl
in_mapping-set value key keys (some (node mapping t v c)) h = rw (h c) (
    bind_assoc (upgraded value (within key keys c)) (λ new. set_keys key keys new c)
      (λ c'. node mapping t v c'))
in_mapping-set value key keys (some (node document t v c)) h = refl
in_mapping-set value key keys (some (node scalar t v c)) h = refl
in_mapping-set value key keys (some (node other_kind t v c)) h = refl

with_no_keys : (o : Option Node) → with_node (node_at []) o ≡ o
unfolding node_at
with_no_keys none = refl
with_no_keys (some n) = refl

-- The upgrade goes the way of the other changes, where there is something to upgrade.
upgrade_keys-set_upgraded :
    (value key : Text) (keys : List Text) (content : Content)
    → upgrade_keys value key keys content ≡ set_upgraded value key keys content
unfolding upgrade_keys set_keys
upgrade_keys-set_upgraded value key [] content = rw (with_no_keys (find_value key content)) refl
upgrade_keys-set_upgraded value key (k ∷ ks) content =
    let o = find_value key content in
    rw (in_mapping-set value k ks o (λ c. upgrade_keys-set_upgraded value k ks c)) (
      bind_assoc (upgraded value (with_node (node_at (k ∷ ks)) o))
        (λ new. on_content (set_keys k ks new) (child_of o)) (λ n. set_value key n content))

-- What an upgrade of the path under some keys makes of a configuration.
pub record IsUpgraded (cfg : Node) (keys : List Text) (path : Text) (r : Node × Bool) : Type 0 where
  pub kept : r.1 ≡ false → r.0 ≡ cfg
  pub set : r.1 ≡ true → IsWritten cfg r.0 keys path
  pub only_old :
      r.1 ≡ true
      → (tag old : Text) × (content : Content) × (with_node (node_at keys) (root_mapping_node cfg)
          ≡ some (node scalar tag old content))
        × IsOldPath old
  pub every_old :
      (tag old : Text) (content : Content)
      → with_node (node_at keys) (root_mapping_node cfg) ≡ some (node scalar tag old content)
      → IsOldPath old
      → r.1 ≡ true

root_cases :
    (cfg : Node)
    → (root_mapping_node cfg ≡ none)
      ⊎ ((tag value : Text) × (content : Content) × (root_mapping_node cfg
            ≡ some (node mapping tag value content))
          × ((change : Content → Content)
              → on_root (λ old. change content) cfg ≡ on_root change cfg))
unfolding root_mapping_node on_root
root_cases (node document t v nil) = inl refl
root_cases (node document t v (cell (node mapping t' v' c) rest)) = inr (t', v', c, refl, λ f. refl)
root_cases (node document t v (cell (node document t' v' c) rest)) = inl refl
root_cases (node document t v (cell (node scalar t' v' c) rest)) = inl refl
root_cases (node document t v (cell (node other_kind t' v' c) rest)) = inl refl
root_cases (node mapping t v c) = inr (t, v, c, refl, λ f. refl)
root_cases (node scalar t v c) = inl refl
root_cases (node other_kind t v c) = inl refl

-- No scalar with an old path stands in the place.
abbrev NotOld : Option Node → Type 0
NotOld o =
    (tag old : Text) (content : Content) → o ≡ some (node scalar tag old content) → ¬ IsOldPath old

upgraded_cases :
    (value : Text) (o : Option Node)
    → ((upgraded value o ≡ none) × NotOld o)
      ⊎ ((tag old : Text) × (content : Content) × (new : Node) × (o
            ≡ some (node scalar tag old content))
          × IsOldPath old
          × (upgraded value o ≡ some new)
          × (value_of new ≡ value))
upgraded_cases value none = inl (refl, λ tag old content e. absurd cc)
upgraded_cases value (some (node mapping t v c)) = inl (refl, λ tag old content e. absurd cc)
upgraded_cases value (some (node document t v c)) = inl (refl, λ tag old content e. absurd cc)
upgraded_cases value (some (node other_kind t v c)) = inl (refl, λ tag old content e. absurd cc)
upgraded_cases value (some (node scalar t v c)) = elim (Bool-cases (is_legacy_relative_path v)) [
  | inl e ↦
      inr (
        t,
        v,
        c,
        node scalar (codes "!!str") value c,
        refl,
        is_legacy-IsOldPath v e,
        rw e refl,
        refl,
      )
  | inr e ↦ inl (
    rw e refl,
    λ tag old content same is_old.
        let value_same : v ≡ old = cc in
        let legacy = IsOldPath-is_legacy old is_old in
        let not_legacy = ap is_legacy_relative_path value_same in absurd (cc),
  )
]

unchanged :
    (cfg : Node) (keys : List Text) (path : Text) (r : Node × Bool)
    → NotOld (with_node (node_at keys) (root_mapping_node cfg))
    → r ≡ (cfg, false)
    → IsUpgraded cfg keys path r
unchanged cfg keys path r not_old e = subst (IsUpgraded cfg keys path) (sym e) record {
  kept = λ x. refl;
  set = λ x. absurd cc;
  only_old = λ x. absurd cc;
  every_old = λ tag old content found is_old. absurd (not_old tag old content found is_old);
}

-- In a tree whose mappings have a value for each key, upgradeLegacyConfigPath says that it changed the
-- configuration exactly when the keys lead to a scalar with one of the twelve old paths, which a slash
-- may follow, with space around it. Then they lead to the cleaned new path now, and under keys of which
-- neither these nor those are a start of the other, the same is read as before. Otherwise it changes
-- nothing.
pub upgrade-IsUpgraded :
    (clean : Text → Text) (cfg : Node) (key : Text) (keys : List Text) (path : Text)
    → IsTree cfg
    → IsUpgraded cfg
        (key ∷ keys)
        (clean path)
        (upgrade_legacy_config_path clean cfg (key ∷ keys) path)
unfolding upgrade_legacy_config_path node_at mapping_value_node
upgrade-IsUpgraded clean cfg key keys path h =
    let value = clean path in
    elim (root_cases cfg) [
      | inl e ↦
          unchanged cfg (key ∷ keys) value _ (rw e (λ tag old content found. absurd cc)) (rw e refl)
      | inr (tag, v, c, root, same) ↦
          let step = upgrade_keys-set_upgraded value key keys c in
          elim (upgraded_cases value (within key keys c)) [
            | inl (e, not_old) ↦
                unchanged cfg (key ∷ keys) value _ (rw root not_old) (rw (root, step, e) refl)
            | inr (old_tag, old, content, new, found, is_old, u, new_value) ↦
                let e : upgrade_legacy_config_path clean cfg (key ∷ keys) path
                    ≡ (on_root (set_keys key keys new) cfg, true) =
                  rw (root, step, u) (ap (λ c'. (c', true)) (same (set_keys key keys new))) in
                subst (IsUpgraded cfg (key ∷ keys) value) (sym e) record {
                  kept = λ x. absurd cc;
                  set = λ x.
                      subst (IsWritten cfg (on_root (set_keys key keys new) cfg) (key ∷ keys))
                        new_value (on_root-IsWritten cfg key keys new h);
                  only_old = λ x. (old_tag, old, content, rw root found, is_old);
                  every_old = λ t o c' there is_old'. refl;
                }
          ]
    ]
