-- ===== src/Config/Trees.antt =====
-- Trees in which every mapping has a value for each key, and the two operations on a mapping.
use navmesh_go.Base.{
  ◌≡◌, refl, Bool, true, false, Option, none, some, arith, Bool-cases, inl, inr, on_if,
}
use navmesh_go.Base.Text.{Text, eq_text, eq_text_refl, eq_text_iff}
use navmesh_go.Config.{
  mapping, Node, node, Content, nil, cell, value_of, scalar_string_node, find_value, set_value,
}

-- Whether a content is keys with their values.
abbrev pub is_paired : Content → Bool
is_paired nil = true
is_paired (cell k nil) = false
is_paired (cell k (cell v rest)) = is_paired rest

unfoldable mutual
  pub IsTree : Node → Type 0
  IsTree (node kind tag value content) =
      (kind ≡ mapping → is_paired content ≡ true) × AllTrees content

  pub AllTrees : Content → Type 0
  AllTrees nil = Unit
  AllTrees (cell n rest) = IsTree n × AllTrees rest

-- The content of a mapping in a tree.
abbrev pub IsPaired : Content → Type 0
IsPaired content = (is_paired content ≡ true) × AllTrees content

abbrev pub MaybeTree : Option Node → Type 0
MaybeTree none = Unit
MaybeTree (some n) = IsTree n

pub find_value-MaybeTree :
    (key : Text) (content : Content) → AllTrees content → MaybeTree (find_value key content)
unfolding find_value AllTrees IsTree
find_value-MaybeTree key nil h = tt
find_value-MaybeTree key (cell k nil) h = tt
find_value-MaybeTree key (cell k (cell v rest)) (hk, (hv, hs)) =
    on_if MaybeTree (eq_text (value_of k) key) (λ e. hv) (λ e. find_value-MaybeTree key rest hs)

pub set_value-IsPaired :
    (key : Text) (new : Node) (content : Content)
    → IsTree new
    → IsPaired content
    → IsPaired (set_value key new content)
unfolding set_value scalar_string_node AllTrees IsTree
set_value-IsPaired key new nil h c = (refl, ((λ e. refl, tt), (h, tt)))
set_value-IsPaired key new (cell k nil) h (paired, hs) = absurd cc
set_value-IsPaired key new (cell k (cell v rest)) h (paired, (hk, (hv, hs))) =
    let (later, trees) = set_value-IsPaired key new rest h (paired, hs) in
    on_if IsPaired (eq_text (value_of k) key) (λ e. (paired, (hk, (h, hs))))
      (λ e. (later, (hk, (hv, trees))))

-- What is set is found.
pub find_value-set_value :
    (key : Text) (new : Node) (content : Content)
    → is_paired content ≡ true
    → find_value key (set_value key new content) ≡ some new
unfolding find_value set_value scalar_string_node
find_value-set_value key new nil h = rw (eq_text_refl key) refl
find_value-set_value key new (cell k nil) h = absurd cc
find_value-set_value key new (cell k (cell v rest)) h =
    elim (Bool-cases (eq_text (value_of k) key)) [
      | inl e ↦ rw (e, e) refl
      | inr e ↦ rw (e, e) (find_value-set_value key new rest h)
    ]

-- Another key keeps its value.
pub find_value-set_value_other :
    (key other : Text) (new : Node) (content : Content)
    → is_paired content ≡ true
    → eq_text key other ≡ false
    → find_value other (set_value key new content) ≡ find_value other content
unfolding find_value set_value scalar_string_node
find_value-set_value_other key other new nil h d = rw d refl
find_value-set_value_other key other new (cell k nil) h d = absurd cc
find_value-set_value_other key other new (cell k (cell v rest)) h d =
    let later = find_value-set_value_other key other new rest h d in
    elim (Bool-cases (eq_text (value_of k) key)) [
      | inl e ↦
          let differs : eq_text (value_of k) other ≡ false =
            ground (arith, eq_text_iff (value_of k) key) in
          rw (e, differs) refl
      | inr e ↦ elim (Bool-cases (eq_text (value_of k) other)) [
        | inl f ↦ rw (e, f) refl
        | inr f ↦ rw (e, f) later
      ]
    ]
