-- ===== src/Base/Map.antt =====
-- Go maps with string keys. Clients compute with these functions and reason by `map_laws`.
use Prim.Native.Nat.{ℕ}
use mathlib.Core.Path.{◌≡◌, refl}
use mathlib.Core.Bool.{Bool, true}
use mathlib.Core.Option.{Option, none, some}
use mathlib.Core.List.{[], ◌∷◌}
use native.Mathlib.Omega.{arith}
use navmesh_go.Base.Tests.{◌==◌, if◌then◌else◌}
use navmesh_go.Base.Lists.{length}
use navmesh_go.Base.Text.{Text, eq_text, eq_text_iff}
use navmesh_go.Base.Assoc.{
  Assoc, Distinct, kept, lookup, without, only, lookup-without, without-Distinct, lookup-only,
  refine, bind, lookup-refine, refine-Distinct, only-Distinct,
}

pub record Map (V : Type 0) : Type 0 where
  pub entries : Assoc V
  pub distinct : Distinct entries

module _ {V : Type 0} where
  -- make(map[string]V)
  unfoldable pub empty : Map V
  empty = record { entries = []; distinct = tt }

  -- v, ok := m[k]
  unfoldable pub get : Map V → Text → Option V
  unfolding lookup
  get m k = lookup k m.entries

  -- delete(m, k)
  unfoldable pub delete : Map V → Text → Map V
  unfolding without
  delete m k = record {
    entries = without k m.entries;
    distinct = without-Distinct k m.entries m.distinct;
  }

  pub insert-Distinct :
      (k : Text) (v : V) (l : Assoc V) → Distinct l → Distinct ((k, v) ∷ without k l)
  insert-Distinct k v l d =
      ground (arith, lookup-without k k l, eq_text_iff k k, without-Distinct k l d)

  -- m[k] = v
  unfoldable pub put : Map V → Text → V → Map V
  unfolding without
  put m k v = record {
    entries = (k, v) ∷ without k m.entries;
    distinct = insert-Distinct k v m.entries m.distinct;
  }

  -- for k, v := range m { if !p(k, v) { delete(m, k) } }
  unfoldable pub retain : (Text → V → Bool) → Map V → Map V
  unfolding only
  retain p m = record {
    entries = only p m.entries;
    distinct = only-Distinct p m.entries m.distinct;
  }

  -- for k, v := range m { m[k] = f(v) }, or delete(m, k) where f(v) is none
  unfoldable pub replace_all : (V → Option V) → Map V → Map V
  unfolding refine
  replace_all f m = record {
    entries = refine f m.entries;
    distinct = refine-Distinct f m.entries m.distinct;
  }

  -- len(m)
  unfoldable pub size : Map V → ℕ
  size m = length m.entries

  pub get-empty : (k : Text) → get empty k ≡ none
  unfolding get empty
  get-empty k = refl

  pub get-delete :
      (m : Map V) (k j : Text) → get (delete m k) j ≡ (if eq_text k j then none else get m j)
  unfolding get delete
  get-delete m k j = lookup-without k j m.entries

  pub get-put :
      (m : Map V) (k j : Text) (v : V)
      → get (put m k v) j ≡ (if eq_text k j then some v else get m j)
  unfolding get put
  get-put m k j v = ground (arith, lookup-without k j m.entries)

  pub get-retain :
      (p : Text → V → Bool) (m : Map V) (k : Text) → get (retain p m) k ≡ kept (p k) (get m k)
  unfolding get retain
  get-retain p m k = lookup-only p k m.entries m.distinct

module _ {V : Type 0} where
  lookup-none : (l : Assoc V) (k : Text) → (length l == 0) ≡ true → lookup k l ≡ none
  unfolding lookup
  lookup-none [] k h = refl
  lookup-none (e ∷ l) k h = absurd (ground arith)

  -- A map of size 0 has no entry.
  pub get-size_zero : (m : Map V) (k : Text) → (size m == 0) ≡ true → get m k ≡ none
  unfolding size get
  get-size_zero m k h = lookup-none m.entries k h

module _ {V : Type 0} where
  pub get-replace_all :
      (f : V → Option V) (m : Map V) (k : Text) → get (replace_all f m) k ≡ bind f (get m k)
  unfolding get replace_all
  get-replace_all f m k = lookup-refine f k m.entries m.distinct

pub ruleset map_laws = (get-empty, get-delete, get-put, get-retain)
