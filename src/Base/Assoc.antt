-- ===== src/Base/Assoc.antt =====
-- Association lists with distinct keys: the representation of a Go map.
use mathlib.Core.Path.{◌≡◌, refl}
use mathlib.Core.Bool.{Bool}
use mathlib.Core.Option.{Option, none, some}
use mathlib.Core.List.{List, [], ◌∷◌}
use native.Mathlib.Omega.{arith}
use navmesh_go.Base.Tests.{if◌then◌else◌}
use navmesh_go.Base.Text.{Text, eq_text, eq_text_iff}

-- Chains of results that may be missing.
infixl 10 ◌>>=◌
abbrev pub ◌>>=◌ {ℓ κ} : {A : Type ℓ} {B : Type κ} → Option A → (A → Option B) → Option B
none >>= f = none
some a >>= f = f a

-- Two functions that always give something, one after the other.
pub bind_assoc {ℓ κ μ} :
    {A : Type ℓ} {B : Type κ} {C : Type μ} (o : Option A) (f : A → B) (g : B → C)
    → ((o >>= (λ a. some (f a))) >>= (λ b. some (g b))) ≡ (o >>= (λ a. some (g (f a))))
bind_assoc none f g = refl
bind_assoc (some a) f g = refl

abbrev pub Assoc : Type 0 → Type 0
Assoc V = List (Text × V)

module _ {V : Type 0} where
  unfoldable pub lookup : Text → Assoc V → Option V
  lookup k [] = none
  lookup k ((j, v) ∷ l) = if eq_text j k then some v else lookup k l

  unfoldable pub without : Text → Assoc V → Assoc V
  without k [] = []
  without k ((j, v) ∷ l) = let rest = without k l in if eq_text j k then rest else (j, v) ∷ rest

  -- The entries that pass a test.
  unfoldable pub only : (Text → V → Bool) → Assoc V → Assoc V
  only p [] = []
  only p ((j, v) ∷ l) = let rest = only p l in if p j v then (j, v) ∷ rest else rest

  abbrev pub Distinct : Assoc V → Type 0
  Distinct [] = Unit
  Distinct ((j, v) ∷ l) = (lookup j l ≡ none) × Distinct l

  abbrev pub kept : (V → Bool) → Option V → Option V
  kept p none = none
  kept p (some v) = if p v then some v else none

  pub lookup-without :
      (k j : Text) (l : Assoc V)
      → lookup j (without k l) ≡ (if eq_text k j then none else lookup j l)
  unfolding lookup without
  lookup-without k j [] = ground arith
  lookup-without k j ((i, v) ∷ l) =
      ground (arith, lookup-without k j l, eq_text_iff i k, eq_text_iff i j, eq_text_iff k j)

  pub without-Distinct : (k : Text) (l : Assoc V) → Distinct l → Distinct (without k l)
  unfolding without
  without-Distinct k [] d = tt
  without-Distinct k ((j, v) ∷ l) d = ground (arith, without-Distinct k l d.1, lookup-without k j l)

  only-none :
      (p : Text → V → Bool) (k : Text) (l : Assoc V)
      → lookup k l ≡ none
      → lookup k (only p l) ≡ none
  unfolding lookup only
  only-none p k [] h = refl
  only-none p k ((j, v) ∷ l) h = ground (arith, only-none p k l)

  pub lookup-only :
      (p : Text → V → Bool) (k : Text) (l : Assoc V)
      → Distinct l
      → lookup k (only p l) ≡ kept (p k) (lookup k l)
  unfolding lookup only
  lookup-only p k [] d = refl
  lookup-only p k ((j, v) ∷ l) d =
      ground (arith, lookup-only p k l d.1, only-none p k l, eq_text_iff j k)

  pub only-Distinct : (p : Text → V → Bool) (l : Assoc V) → Distinct l → Distinct (only p l)
  unfolding only
  only-Distinct p [] d = tt
  only-Distinct p ((j, v) ∷ l) d = ground (arith, only-Distinct p l d.1, only-none p j l d.0)

  -- `for k, v := range m`, with a new value or none for each entry.
  unfoldable pub refine : (V → Option V) → Assoc V → Assoc V
  refine f [] = []
  refine f ((j, v) ∷ l) =
      let rest = refine f l in elim (f v) [ none ↦ rest | some w ↦ (j, w) ∷ rest ]

  abbrev pub bind : (V → Option V) → Option V → Option V
  bind f none = none
  bind f (some v) = f v

  refine-none :
      (f : V → Option V) (k : Text) (l : Assoc V) → lookup k l ≡ none → lookup k (refine f l) ≡ none
  unfolding lookup refine
  refine-none f k [] h = refl
  refine-none f k ((j, v) ∷ l) h = ground (arith, refine-none f k l)

  pub lookup-refine :
      (f : V → Option V) (k : Text) (l : Assoc V)
      → Distinct l
      → lookup k (refine f l) ≡ bind f (lookup k l)
  unfolding lookup refine
  lookup-refine f k [] d = refl
  lookup-refine f k ((j, v) ∷ l) d =
      ground (arith, lookup-refine f k l d.1, refine-none f k l, eq_text_iff j k)

  pub refine-Distinct : (f : V → Option V) (l : Assoc V) → Distinct l → Distinct (refine f l)
  unfolding refine
  refine-Distinct f [] d = tt
  refine-Distinct f ((j, v) ∷ l) d = ground (arith, refine-Distinct f l d.1, refine-none f j l d.0)
