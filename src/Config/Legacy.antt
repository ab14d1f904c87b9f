-- ===== src/Config/Legacy.antt =====
-- The paths of the older configurations, as isLegacyRelativePath of utils/config.go knows them.
use navmesh_go.Base.{
  ◌≡◌, ◌∙◌, sym, refl, ap, subst, true, List, [], ◌∷◌, ◌++◌, ◌⊎◌, inl, inr, arith, Elem, All,
  Bool-cases,
}
use navmesh_go.Base.Text.{Text, codes, eq_text, eq_text_iff, trim_space, member}
use navmesh_go.Config.Portable.{trim_slash, is_legacy_relative_path}

abbrev pub old_paths : List Text
old_paths =
    codes "./data"
    ∷ codes "data"
    ∷ codes "./data/oss"
    ∷ codes "data/oss"
    ∷ codes "./data/cache.json"
    ∷ codes "data/cache.json"
    ∷ codes "./data/ip2geo"
    ∷ codes "data/ip2geo"
    ∷ codes "./data/navmesh"
    ∷ codes "data/navmesh"
    ∷ codes "logback"
    ∷ codes "./logback"
    ∷ []

-- One of the twelve paths, which a slash may follow, with space around it.
abbrev pub IsOldPath : Text → Type 0
IsOldPath value =
    (path : Text) × Elem path old_paths
    × ((trim_space value ≡ path) ⊎ (trim_space value ≡ path ++ codes "/"))

member-Elem : (t : Text) (l : List Text) → member t l ≡ true → Elem t l
unfolding member
member-Elem t [] h = absurd cc
member-Elem t (u ∷ us) h = elim (Bool-cases (eq_text u t)) [
  | inl e ↦ inl ((eq_text_iff u t).0 e)
  | inr e ↦ inr (member-Elem t us (rw e at h))
]

Elem-member : (t : Text) (l : List Text) → Elem t l → member t l ≡ true
unfolding member
Elem-member t [] h = absurd h
Elem-member t (u ∷ us) (inl e) = rw ((eq_text_iff u t).1 e) refl
Elem-member t (u ∷ us) (inr e) = ground (arith, Elem-member t us e)

All-Elem : {A : Type 0} (P : A → Type 0) (xs : List A) → All P xs → (a : A) → Elem a xs → P a
All-Elem P [] h a e = absurd e
All-Elem P (x ∷ xs) h a (inl e) = subst P e h.0
All-Elem P (x ∷ xs) h a (inr e) = All-Elem P xs h.1 a e

-- TrimSuffix takes one slash away, or nothing.
trim_slash_cases : (t : Text) → (t ≡ trim_slash t) ⊎ (t ≡ trim_slash t ++ codes "/")
trim_slash_cases [] = inl refl
trim_slash_cases (c ∷ []) = ground arith
trim_slash_cases (c ∷ d ∷ s) = elim (trim_slash_cases (d ∷ s)) [
  | inl e ↦ inl (ap (◌∷◌ c) e)
  | inr e ↦ inr (ap (◌∷◌ c) e)
]

trim_slash-append : (t : Text) → trim_slash (t ++ codes "/") ≡ t
trim_slash-append [] = refl
trim_slash-append (c ∷ []) = refl
trim_slash-append (c ∷ d ∷ s) = ap (◌∷◌ c) (trim_slash-append (d ∷ s))

old_paths_bare : (path : Text) → Elem path old_paths → trim_slash path ≡ path
old_paths_bare path e =
    let bare : All (λ p. trim_slash p ≡ p) old_paths = ground arith in
    All-Elem (λ p. trim_slash p ≡ p) old_paths bare path e

pub is_legacy-IsOldPath : (value : Text) → is_legacy_relative_path value ≡ true → IsOldPath value
unfolding is_legacy_relative_path
is_legacy-IsOldPath value h = (
  trim_slash (trim_space value),
  member-Elem (trim_slash (trim_space value)) old_paths h,
  trim_slash_cases (trim_space value),
)

pub IsOldPath-is_legacy : (value : Text) → IsOldPath value → is_legacy_relative_path value ≡ true
unfolding is_legacy_relative_path
IsOldPath-is_legacy value (path, e, inl bare) =
    Elem-member (trim_slash (trim_space value)) old_paths
      (subst (λ p. Elem p old_paths) (sym (ap trim_slash bare ∙ old_paths_bare path e)) e)
IsOldPath-is_legacy value (path, e, inr slashed) =
    Elem-member (trim_slash (trim_space value)) old_paths
      (subst (λ p. Elem p old_paths) (sym (ap trim_slash slashed ∙ trim_slash-append path)) e)
