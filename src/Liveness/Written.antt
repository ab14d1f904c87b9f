-- ===== src/Liveness/Written.antt =====
-- What the loop over the batches of a flush writes.
use navmesh_go.Base.{
  ◌≡◌, ◌∙◌, sym, refl, subst, Option, some, List, [], ◌∷◌, ◌++◌, length, concat, All, Option-cases,
  inl, inr,
}
use navmesh_go.Base.Int.{ℤ}
use navmesh_go.Base.Text.{Text}
use navmesh_go.Liveness.{write_batch, write_batches, batches}
use navmesh_go.Liveness.Batches.{FitsBatch, concat-batches, batches-FitsBatch}

some-injective : {A : Type 0} {a b : A} → some a ≡ some b → a ≡ b
some-injective e = cc

module _ {Store : Type 0} (update_devices update_connections : List Text → ℤ → Store → Option Store)
    (now : ℤ) where
  -- The guids are written in order, in chunks of 1 to 300: for each chunk the devices are updated,
  -- then the connections, and every update succeeds.
  pub data Written : List Text → Store → Store → Type 0 where
    nothing : (store : Store) → Written [] store store
    chunk :
        (batch rest : List Text) (before devices connections after : Store)
        → FitsBatch batch
        → update_devices batch now before ≡ some devices
        → update_connections batch now devices ≡ some connections
        → Written rest connections after
        → Written (batch ++ rest) before after

  write_batches-Written :
      (bs : List (List Text)) (before after : Store)
      → All FitsBatch bs
      → write_batches update_devices update_connections now bs before ≡ some after
      → Written (concat bs) before after
  unfolding write_batches write_batch
  write_batches-Written [] before after fits e =
      subst (Written [] before) (some-injective e) (nothing before)
  write_batches-Written (batch ∷ bs) before after (fit, fits) e =
      elim (Option-cases (update_devices batch now before)) [
        | inl failed ↦ absurd (cc)
        | inr (devices, d) ↦ elim (Option-cases (update_connections batch now devices)) [
          | inl failed ↦ absurd (cc)
          | inr (connections, c) ↦
              let next : write_batches update_devices update_connections now (batch ∷ bs) before
                  ≡ write_batches update_devices update_connections now bs connections =
                rw (d, c, write_batches, write_batch) refl in
              chunk batch (concat bs) before devices connections after fit d c
                (write_batches-Written bs connections after fits (sym next ∙ e))
        ]
      ]

  pub batches-Written :
      (guids : List Text) (before after : Store)
      → write_batches update_devices update_connections now (batches (length guids) 0 guids) before
        ≡ some after
      → Written guids before after
  batches-Written guids before after e =
      subst (λ l. Written l before after) (concat-batches guids)
        (write_batches-Written (batches (length guids) 0 guids) before after
          (batches-FitsBatch (length guids) 0 guids) e)
