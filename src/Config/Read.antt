-- ===== src/Config/Read.antt =====
-- What is read from a configuration after a change.
use navmesh_go.Base.{
  ◌≡◌, ◌∙◌, refl, ap, subst, Bool, true, false, Option, none, some, List, [], ◌∷◌, arith,
  if◌then◌else◌, Bool-cases, inl, inr,
}
use navmesh_go.Base.Text.{Text, eq_text, eq_text_iff, trim_space}
use navmesh_go.Config.{
  document, mapping, scalar, other_kind, Node, node, Content, nil, cell, value_of, find_value,
  mapping_value_node, set_value, root_mapping_node, on_content, on_root, child_of, set_keys,
  set_config_scalar, with_node, node_at, string_of, config_string_value,
}
use navmesh_go.Config.Trees.{
  IsTree, AllTrees, IsPaired, MaybeTree, find_value-MaybeTree, set_value-IsPaired,
  find_value-set_value, find_value-set_value_other,
}

-- Two lists of keys of which neither is a start of the other.
abbrev pub diverge : List Text → List Text → Bool
diverge [] bs = false
diverge (a ∷ as') [] = false
diverge (a ∷ as') (b ∷ bs) = if eq_text a b then diverge as' bs else true

-- The node under a key and those that follow it, in the content of a mapping.
abbrev pub within : Text → List Text → Content → Option Node
within key keys content = with_node (node_at keys) (find_value key content)

-- A change of a content that keeps it paired.
abbrev Keeps : (Content → Content) → Type 0
Keeps change = (content : Content) → IsPaired content → IsPaired (change content)

on_content-IsTree :
    (change : Content → Content) (n : Node) → Keeps change → IsTree n → IsTree (on_content change n)
unfolding IsTree AllTrees
on_content-IsTree change (node mapping t v c) keeps (paired, hs) =
    let (p, trees) = keeps c (paired refl, hs) in (λ e. p, trees)
on_content-IsTree change (node document t v c) keeps h =
    let (p, trees) = keeps nil (refl, tt) in (λ e. p, trees)
on_content-IsTree change (node scalar t v c) keeps h =
    let (p, trees) = keeps nil (refl, tt) in (λ e. p, trees)
on_content-IsTree change (node other_kind t v c) keeps h =
    let (p, trees) = keeps nil (refl, tt) in (λ e. p, trees)

child_of-IsTree : (o : Option Node) → MaybeTree o → IsTree (child_of o)
unfolding IsTree AllTrees
child_of-IsTree none h = (λ e. refl, tt)
child_of-IsTree (some n) h = h

pub set_keys-Keeps :
    (key : Text) (keys : List Text) (new : Node) → IsTree new → Keeps (set_keys key keys new)
unfolding set_keys
set_keys-Keeps key [] new h content c = set_value-IsPaired key new content h c
set_keys-Keeps key (k ∷ ks) new h content (paired, hs) =
    set_value-IsPaired key (on_content (set_keys k ks new) (child_of (find_value key content)))
      content
      (on_content-IsTree (set_keys k ks new) (child_of (find_value key content))
        (set_keys-Keeps k ks new h)
        (child_of-IsTree (find_value key content) (find_value-MaybeTree key content hs)))
      (paired, hs)

-- What holds of the content of a mapping after a change, and holds of no content.
on_content_rule :
    (P : Option Node → Type 0) (key : Text) (keys : List Text) (change : Content → Content)
    (n : Node)
    → IsTree n
    → ((content : Content) → IsPaired content → P (within key keys (change content)))
    → P (node_at (key ∷ keys) (on_content change n))
unfolding IsTree AllTrees node_at mapping_value_node
on_content_rule P key keys change (node mapping t v c) (paired, hs) h = h c (paired refl, hs)
on_content_rule P key keys change (node document t v c) x h = h nil (refl, tt)
on_content_rule P key keys change (node scalar t v c) x h = h nil (refl, tt)
on_content_rule P key keys change (node other_kind t v c) x h = h nil (refl, tt)

within-set_keys :
    (key : Text) (keys : List Text) (new : Node) (content : Content)
    → IsPaired content
    → within key keys (set_keys key keys new content) ≡ some new
unfolding set_keys node_at
within-set_keys key [] new content (paired, hs) =
    rw (find_value-set_value key new content paired) refl
within-set_keys key (k ∷ ks) new content (paired, hs) =
    let child = child_of (find_value key content) in
    rw (find_value-set_value key (on_content (set_keys k ks new) child) content paired) (
      on_content_rule (λ o. o ≡ some new) k ks (set_keys k ks new) child
        (child_of-IsTree (find_value key content) (find_value-MaybeTree key content hs))
        (λ c hc. within-set_keys k ks new c hc))

node_at-child_of :
    (key : Text) (keys : List Text) (o : Option Node)
    → node_at (key ∷ keys) (child_of o) ≡ with_node (node_at (key ∷ keys)) o
unfolding node_at mapping_value_node find_value
node_at-child_of key keys none = refl
node_at-child_of key keys (some n) = refl

node_at-on_content :
    (key : Text) (keys : List Text) (change : Content → Content) (n : Node)
    → IsTree n
    → ((content : Content)
        → IsPaired content
        → within key keys (change content) ≡ within key keys content)
    → node_at (key ∷ keys) (on_content change n) ≡ node_at (key ∷ keys) n
unfolding IsTree AllTrees node_at mapping_value_node find_value
node_at-on_content key keys change (node mapping t v c) (paired, hs) h = h c (paired refl, hs)
node_at-on_content key keys change (node document t v c) x h = h nil (refl, tt)
node_at-on_content key keys change (node scalar t v c) x h = h nil (refl, tt)
node_at-on_content key keys change (node other_kind t v c) x h = h nil (refl, tt)

within-set_keys_other :
    (key : Text) (keys : List Text) (other : Text) (others : List Text) (new : Node)
    (content : Content)
    → IsPaired content
    → diverge (key ∷ keys) (other ∷ others) ≡ true
    → within other others (set_keys key keys new content) ≡ within other others content
unfolding set_keys
within-set_keys_other key [] other others new content (paired, hs) d =
    elim (Bool-cases (eq_text key other)) [
      | inl same ↦ absurd (ground arith)
      | inr e ↦ rw (find_value-set_value_other key other new content paired e) refl
    ]
within-set_keys_other key (k ∷ ks) other [] new content (paired, hs) d =
    elim (Bool-cases (eq_text key other)) [
      | inl same ↦ absurd (ground arith)
      | inr e ↦ rw (find_value-set_value_other key other _ content paired e) refl
    ]
within-set_keys_other key (k ∷ ks) other (o ∷ os) new content (paired, hs) d =
    let child = child_of (find_value key content) in
    let new_child = on_content (set_keys k ks new) child in
    elim (Bool-cases (eq_text key other)) [
      | inl same ↦
          let e : key ≡ other = (eq_text_iff key other).0 same in
          let deeper : diverge (k ∷ ks) (o ∷ os) ≡ true = ground arith in
          let found : find_value other (set_value key new_child content) ≡ some new_child =
            subst (λ x. find_value x (set_value key new_child content) ≡ some new_child) e
              (find_value-set_value key new_child content paired) in
          rw found (
            node_at-on_content o os (set_keys k ks new) child
              (child_of-IsTree (find_value key content) (find_value-MaybeTree key content hs))
              (λ c hc. within-set_keys_other k ks o os new c hc deeper)
            ∙ node_at-child_of o os (find_value key content)
            ∙ ap (λ x. with_node (node_at (o ∷ os)) (find_value x content)) e)
      | inr e ↦ rw (find_value-set_value_other key other new_child content paired e) refl
    ]

abbrev at_root : List Text → Node → Option Node
at_root keys cfg = with_node (node_at keys) (root_mapping_node cfg)

on_root_rule :
    (P : Option Node → Type 0) (key : Text) (keys : List Text) (change : Content → Content)
    (cfg : Node)
    → IsTree cfg
    → ((content : Content) → IsPaired content → P (within key keys (change content)))
    → P (at_root (key ∷ keys) (on_root change cfg))
unfolding IsTree AllTrees node_at mapping_value_node root_mapping_node on_root
on_root_rule P key keys change (node document t v nil) x h = h nil (refl, tt)
on_root_rule P key keys change (node document t v (cell (node mapping t' v' c) rest)) (p, (q, s))
      h =
    h c (q.0 refl, q.1)
on_root_rule P key keys change (node document t v (cell (node document t' v' c) rest)) x h =
    h nil (refl, tt)
on_root_rule P key keys change (node document t v (cell (node scalar t' v' c) rest)) x h =
    h nil (refl, tt)
on_root_rule P key keys change (node document t v (cell (node other_kind t' v' c) rest)) x h =
    h nil (refl, tt)
on_root_rule P key keys change (node mapping t v c) (paired, hs) h = h c (paired refl, hs)
on_root_rule P key keys change (node scalar t v c) x h = h nil (refl, tt)
on_root_rule P key keys change (node other_kind t v c) x h = h nil (refl, tt)

at_root-on_root :
    (key : Text) (keys : List Text) (change : Content → Content) (cfg : Node)
    → IsTree cfg
    → ((content : Content)
        → IsPaired content
        → within key keys (change content) ≡ within key keys content)
    → at_root (key ∷ keys) (on_root change cfg) ≡ at_root (key ∷ keys) cfg
unfolding IsTree AllTrees node_at mapping_value_node root_mapping_node on_root find_value
at_root-on_root key keys change (node document t v nil) x h = h nil (refl, tt)
at_root-on_root key keys change (node document t v (cell (node mapping t' v' c) rest)) (p, (q, s))
      h =
    h c (q.0 refl, q.1)
at_root-on_root key keys change (node document t v (cell (node document t' v' c) rest)) x h =
    h nil (refl, tt)
at_root-on_root key keys change (node document t v (cell (node scalar t' v' c) rest)) x h =
    h nil (refl, tt)
at_root-on_root key keys change (node document t v (cell (node other_kind t' v' c) rest)) x h =
    h nil (refl, tt)
at_root-on_root key keys change (node mapping t v c) (paired, hs) h = h c (paired refl, hs)
at_root-on_root key keys change (node scalar t v c) x h = h nil (refl, tt)
at_root-on_root key keys change (node other_kind t v c) x h = h nil (refl, tt)

on_root-IsTree :
    (change : Content → Content) (cfg : Node)
    → Keeps change
    → IsTree cfg
    → IsTree (on_root change cfg)
unfolding IsTree AllTrees on_root
on_root-IsTree change (node document t v nil) keeps h =
    let (p, trees) = keeps nil (refl, tt) in (λ e. absurd cc, ((λ e. p, trees), tt))
on_root-IsTree change (node document t v (cell root rest)) keeps (p, (q, s)) =
    (λ e. absurd cc, (on_content-IsTree change root keeps q, s))
on_root-IsTree change (node mapping t v c) keeps (paired, hs) =
    let (p, trees) = keeps c (paired refl, hs) in (λ e. p, trees)
on_root-IsTree change (node scalar t v c) keeps h =
    let (p, trees) = keeps nil (refl, tt) in (λ e. p, trees)
on_root-IsTree change (node other_kind t v c) keeps h =
    let (p, trees) = keeps nil (refl, tt) in (λ e. p, trees)

scalar-IsTree : (tag value : Text) → IsTree (node scalar tag value nil)
unfolding IsTree AllTrees
scalar-IsTree tag value = (λ e. refl, tt)

pub set_config_scalar-IsTree :
    (cfg : Node) (keys : List Text) (tag value : Text)
    → IsTree cfg
    → IsTree (set_config_scalar cfg keys tag value)
unfolding set_config_scalar
set_config_scalar-IsTree cfg [] tag value h = h
set_config_scalar-IsTree cfg (key ∷ keys) tag value h =
    on_root-IsTree (set_keys key keys (node scalar tag value nil)) cfg
      (set_keys-Keeps key keys (node scalar tag value nil) (scalar-IsTree tag value)) h

-- Nodes that are read back are where the keys lead, and others stay.
pub record IsWritten (cfg cfg' : Node) (keys : List Text) (value : Text) : Type 0 where
  pub read : config_string_value cfg' keys ≡ trim_space value
  pub others :
      (keys' : List Text)
      → diverge keys keys' ≡ true
      → config_string_value cfg' keys' ≡ config_string_value cfg keys'

pub on_root-IsWritten :
    (cfg : Node) (key : Text) (keys : List Text) (new : Node)
    → IsTree cfg
    → IsWritten cfg (on_root (set_keys key keys new) cfg) (key ∷ keys) (value_of new)
unfolding config_string_value
on_root-IsWritten cfg key keys new h = record {
  read =
      on_root_rule (λ o. string_of o ≡ trim_space (value_of new)) key keys (set_keys key keys new)
        cfg h (λ c hc. ap string_of (within-set_keys key keys new c hc));
  others = other_keys;
}
  where
    other_keys :
        (keys' : List Text)
        → diverge (key ∷ keys) keys' ≡ true
        → string_of (at_root keys' (on_root (set_keys key keys new) cfg))
          ≡ string_of (at_root keys' cfg)
    other_keys [] d = absurd cc
    other_keys (other ∷ others) d = ap string_of (
        at_root-on_root other others (set_keys key keys new) cfg h
          (λ c hc. within-set_keys_other key keys other others new c hc d))

-- In a tree whose mappings have a value for each key, what setConfigScalar writes under some keys is
-- what configStringValue reads under them, but for space around it, and what it reads under other
-- keys, of which neither list is a start of the other, does not change.
pub set_config_scalar-IsWritten :
    (cfg : Node) (key : Text) (keys : List Text) (tag value : Text)
    → IsTree cfg
    → IsWritten cfg (set_config_scalar cfg (key ∷ keys) tag value) (key ∷ keys) value
unfolding set_config_scalar
set_config_scalar-IsWritten cfg key keys tag value h =
    on_root-IsWritten cfg key keys (node scalar tag value nil) h
