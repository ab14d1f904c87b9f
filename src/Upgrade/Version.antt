-- ===== src/Upgrade/Version.antt =====
-- services/device_upgrade_service.go: the version that a client reports, compared with a wanted one.
use navmesh_go.Base.{
  ◌≡◌, refl, sym, ap, ◌∙◌, Bool, true, false, not, Option, none, some, List, [], ◌∷◌, ◌⊎◌, inl, inr,
  arith, if◌then◌else◌, Bool-cases, Option-cases,
}
use navmesh_go.Base.Int.{ℤ, pos, ltb_ℤ, leb_ℤ, eq_ℤ, ◌≤ℤ◌, ◌<ℤ◌}
use navmesh_go.Base.Text.{Text, codes, is_empty, trim_space, trim_prefix, to_lower, split}
use navmesh_go.Base.Assoc.{◌>>=◌}
use navmesh_go.Base.Strconv.{is_digit, parse_int}

-- The digits at the start.
unfoldable pub leading_digits : Text → Text
leading_digits [] = []
leading_digits (c ∷ s) = let rest = leading_digits s in if is_digit c then c ∷ rest else []

-- utils.Str2Int: the first result of strconv.Atoi.
unfoldable pub str2_int : Text → ℤ
unfolding parse_int
str2_int s = (parse_int (trim_space s)).0

unfoldable pub parse_part : Text → Option ℤ
unfolding leading_digits str2_int
parse_part part =
    let digits = leading_digits (trim_space part) in
    if is_empty digits then none else some (str2_int digits)

pub record Version : Type 0 where
  pub major : ℤ
  pub minor : ℤ
  pub patch : ℤ

unfoldable pub parse_parts : List Text → Option Version
unfolding parse_part
parse_parts (a ∷ b ∷ c ∷ rest) = do
  major ← parse_part a
  minor ← parse_part b
  patch ← parse_part c
  some record { major = major; minor = minor; patch = patch }
parse_parts (a ∷ b ∷ []) = none
parse_parts (a ∷ []) = none
parse_parts [] = none

unfoldable pub parse_version_numbers : Text → Option Version
unfolding parse_parts
parse_version_numbers value =
    parse_parts (split b'.' (trim_space (trim_prefix (to_lower value) (codes "v"))))

unfoldable pub at_least : Version → Version → Bool
at_least v want =
    if not (eq_ℤ v.major want.major)
    then ltb_ℤ want.major v.major
    else if not (eq_ℤ v.minor want.minor)
    then ltb_ℤ want.minor v.minor
    else leb_ℤ want.patch v.patch

unfoldable pub parsed_at_least : Option Version → Version → Bool
unfolding at_least
parsed_at_least none want = false
parsed_at_least (some v) want = at_least v want

unfoldable pub client_version_at_least : Text → Version → Bool
unfolding parse_version_numbers parsed_at_least
client_version_at_least value want = parsed_at_least (parse_version_numbers value) want

abbrev Lex : Version → Version → Type 0
Lex v w =
    (w.major <ℤ v.major)
    ⊎ ((w.major ≤ℤ v.major)
        × ((w.minor <ℤ v.minor) ⊎ ((w.minor ≤ℤ v.minor) × (w.patch ≤ℤ v.patch))))

at_least-Lex : (v w : Version) → at_least v w ≡ true → Lex v w
unfolding at_least
at_least-Lex v w h = elim (Bool-cases (eq_ℤ v.major w.major)) [
  | inl a ↦ elim (Bool-cases (eq_ℤ v.minor w.minor)) [
    | inl b ↦ inr (ground arith, inr (ground arith, ground arith))
    | inr b ↦ inr (ground arith, inl (ground arith))
  ]
  | inr a ↦ inl (ground arith)
]

Lex-at_least : (v w : Version) → Lex v w → at_least v w ≡ true
unfolding at_least
Lex-at_least v w (inl h) = ground arith
Lex-at_least v w (inr (a, inl h)) = ground arith
Lex-at_least v w (inr (a, inr (b, h))) = ground arith

Lex-trans : (u v w : Version) → Lex u v → Lex v w → Lex u w
Lex-trans u v w (inl h) (inl k) = inl (omega arith)
Lex-trans u v w (inl h) (inr (a, k)) = inl (omega arith)
Lex-trans u v w (inr (a, h)) (inl k) = inl (omega arith)
Lex-trans u v w (inr (a, inl h)) (inr (b, inl k)) = inr (omega arith, inl (omega arith))
Lex-trans u v w (inr (a, inl h)) (inr (b, inr (c, k))) = inr (omega arith, inl (omega arith))
Lex-trans u v w (inr (a, inr (c, h))) (inr (b, inl k)) = inr (omega arith, inl (omega arith))
Lex-trans u v w (inr (a, inr (c, h))) (inr (b, inr (d, k))) =
    inr (omega arith, inr (omega arith, omega arith))

-- A client that satisfies a version satisfies every version that one is at least.
pub client_version_at_least_trans :
    (value : Text) (want lower : Version)
    → client_version_at_least value want ≡ true
    → at_least want lower ≡ true
    → client_version_at_least value lower ≡ true
unfolding client_version_at_least parsed_at_least
client_version_at_least_trans value want lower h k =
    elim (Option-cases (parse_version_numbers value)) [
      | inl e ↦ absurd cc
      | inr (v, e) ↦
          let h' : at_least v want ≡ true = sym (ap (λ o. parsed_at_least o want) e) ∙ h in
          rw e (
            Lex-at_least v lower
              (Lex-trans v want lower (at_least-Lex v want h') (at_least-Lex want lower k)))
    ]

test :
    client_version_at_least
      (codes "v0.0.4-beta")
      (record { major = pos 0; minor = pos 0; patch = pos 4 })
    ≡ true
unfolding client_version_at_least split trim_space trim_prefix to_lower
test = refl
