-- ===== src/Base/Trim.antt =====
-- Trimming and lowering a text twice changes nothing more.
use Prim.Native.Nat.{ℕ}
use mathlib.Core.Path.{◌≡◌, refl, sym, ap, ◌∙◌}
use mathlib.Core.Logic.{inl, inr}
use mathlib.Core.Bool.{Bool, false}
use mathlib.Core.List.{[], ◌∷◌, map}
use native.Mathlib.Omega.{arith}
use navmesh_go.Base.Tests.{if◌then◌else◌, Bool-cases}
use navmesh_go.Base.Text.{Text, is_space, trim_left, trim_right, trim, trim_space, lower, to_lower}

-- The first character is none of those that are trimmed.
abbrev HeadOut : (ℕ → Bool) → Text → Type 0
HeadOut p [] = Unit
HeadOut p (c ∷ s) = p c ≡ false

module _ (p : ℕ → Bool) where
  trim_left-HeadOut : (s : Text) → HeadOut p (trim_left p s)
  unfolding trim_left
  trim_left-HeadOut [] = tt
  trim_left-HeadOut (c ∷ s) = elim (Bool-cases (p c)) [
    | inl out ↦ rw out (trim_left-HeadOut s)
    | inr kept ↦ rw kept kept
  ]

  trim_left_out : (s : Text) → HeadOut p s → trim_left p s ≡ s
  unfolding trim_left
  trim_left_out [] h = refl
  trim_left_out (c ∷ s) h = rw h refl

  abbrev end : ℕ → Text → Text
  end c [] = if p c then [] else c ∷ []
  end c (d ∷ r) = c ∷ d ∷ r

  trim_right-nil : trim_right p [] ≡ []
  unfolding trim_right
  trim_right-nil = refl

  trim_right-end : (c : ℕ) (s : Text) → trim_right p (c ∷ s) ≡ end c (trim_right p s)
  unfolding trim_right
  trim_right-end c s = go (trim_right p s)
    where
      go : (r : Text) → elim r [ [] ↦ if p c then [] else c ∷ [] | d ∷ r ↦ c ∷ d ∷ r ] ≡ end c r
      go [] = refl
      go (d ∷ r) = refl

  end-HeadOut : (c : ℕ) (r : Text) → p c ≡ false → HeadOut p (end c r)
  end-HeadOut c [] h = rw h h
  end-HeadOut c (d ∷ r) h = h

  trim_right-HeadOut : (s : Text) → HeadOut p s → HeadOut p (trim_right p s)
  trim_right-HeadOut [] h = rw trim_right-nil tt
  trim_right-HeadOut (c ∷ s) h = rw (trim_right-end c s) (end-HeadOut c (trim_right p s) h)

  end-trim_right : (c : ℕ) (r : Text) → trim_right p r ≡ r → trim_right p (end c r) ≡ end c r
  unfolding trim_right
  end-trim_right c [] h = elim (Bool-cases (p c)) [
    | inl out ↦ rw out refl
    | inr kept ↦ rw kept (rw kept refl)
  ]
  end-trim_right c (d ∷ r) h = trim_right-end c (d ∷ r) ∙ ap (end c) h

  trim_right-trim_right : (s : Text) → trim_right p (trim_right p s) ≡ trim_right p s
  trim_right-trim_right [] = ap (trim_right p) trim_right-nil
  trim_right-trim_right (c ∷ s) =
      rw (trim_right-end c s) (end-trim_right c (trim_right p s) (trim_right-trim_right s))

  trim-trim : (s : Text) → trim p (trim p s) ≡ trim p s
  unfolding trim
  trim-trim s =
      ap (trim_right p) (
        trim_left_out (trim_right p (trim_left p s))
          (trim_right-HeadOut (trim_left p s) (trim_left-HeadOut s)))
      ∙ trim_right-trim_right (trim_left p s)

  -- A map of the characters that keeps the test commutes with the trims.
  module _ (f : ℕ → ℕ) (keeps : (c : ℕ) → p (f c) ≡ p c) where
    trim_left-map : (s : Text) → trim_left p (map f s) ≡ map f (trim_left p s)
    unfolding trim_left
    trim_left-map [] = refl
    trim_left-map (c ∷ s) = elim (Bool-cases (p c)) [
      | inl out ↦ rw (keeps c, out) (trim_left-map s)
      | inr kept ↦ rw (keeps c, kept) refl
    ]

    end-map : (c : ℕ) (r : Text) → end (f c) (map f r) ≡ map f (end c r)
    end-map c [] = elim (Bool-cases (p c)) [
      | inl out ↦ rw (keeps c, out) refl
      | inr kept ↦ rw (keeps c, kept) refl
    ]
    end-map c (d ∷ r) = refl

    trim_right-map : (s : Text) → trim_right p (map f s) ≡ map f (trim_right p s)
    trim_right-map [] = trim_right-nil ∙ ap (map f) (sym trim_right-nil)
    trim_right-map (c ∷ s) =
        trim_right-end (f c) (map f s)
        ∙ ap (end (f c)) (trim_right-map s)
        ∙ end-map c (trim_right p s)
        ∙ ap (map f) (sym (trim_right-end c s))

    trim-map : (s : Text) → trim p (map f s) ≡ map f (trim p s)
    unfolding trim
    trim-map s = ap (trim_right p) (trim_left-map s) ∙ trim_right-map (trim_left p s)

lower-is_space : (c : ℕ) → is_space (lower c) ≡ is_space c
unfolding is_space
lower-is_space c = ground arith

lower-lower : (c : ℕ) → lower (lower c) ≡ lower c
lower-lower c = ground arith

pub to_lower-to_lower : (s : Text) → to_lower (to_lower s) ≡ to_lower s
unfolding to_lower
to_lower-to_lower [] = refl
to_lower-to_lower (c ∷ s) = rw (lower-lower c, to_lower-to_lower s) refl

pub trim_space-trim_space : (s : Text) → trim_space (trim_space s) ≡ trim_space s
unfolding trim_space
trim_space-trim_space s = trim-trim is_space s

pub trim_space-to_lower : (s : Text) → trim_space (to_lower s) ≡ to_lower (trim_space s)
unfolding trim_space to_lower
trim_space-to_lower s = trim-map is_space lower lower-is_space s
