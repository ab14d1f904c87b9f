-- ===== src/Liveness/Batches.antt =====
-- The batches of a flush: every guid is in one batch, and no batch is larger than the limit.
use navmesh_go.Base.{
  ℕ, zero, suc, ◌+◌, ◌-◌, ◌≤◌, ◌<◌, ◌≡◌, ◌∙◌, sym, ap, List, ◌++◌, arith, ltb, leb, leb→le,
  Bool-cases, inl, inr, ltb→lt, length, take, drop, concat, min, length-take, length-drop, drop_all,
  take_all, drop-drop, take-append-drop, All,
}
use mathlib.Core.List.{append-nil}
use navmesh_go.Base.Text.{Text}
use navmesh_go.Liveness.{liveness_flush_batch_size, batches}

-- A slice of `k` elements from `start` on, or of what there is, and what follows it.
slice_split :
    {A : Type 0} (k start : ℕ) (xs : List A)
    → take (min (start + k) (length xs) - start) (drop start xs) ++ drop (start + k) xs
      ≡ drop start xs
slice_split k start xs = elim (Bool-cases (leb (start + k) (length xs))) [
  | inl full ↦
      let width : min (start + k) (length xs) - start ≡ k = omega (arith, leb→le _ _ full) in
      rw (width, ← drop-drop k start xs) (take-append-drop k (drop start xs))
  | inr last ↦
      let short : length xs ≤ start + k = ground arith in
      let width : min (start + k) (length xs) - start ≡ length xs - start = omega arith in
      rw (width, drop_all (start + k) xs short)
        (append-nil _
          ∙ take_all (length xs - start) (drop start xs) (omega (arith, length-drop start xs)))
]

concat-batches_from :
    (fuel start : ℕ) (guids : List Text)
    → length guids ≤ start + fuel
    → concat (batches fuel start guids) ≡ drop start guids
unfolding batches
concat-batches_from zero start guids h = sym (drop_all start guids (omega arith))
concat-batches_from (suc fuel) start guids h = elim (Bool-cases (ltb start (length guids))) [
  | inl more ↦
      rw (more, concat-batches_from fuel (start + liveness_flush_batch_size) guids (omega arith))
        (slice_split liveness_flush_batch_size start guids)
  | inr last ↦ rw last (sym (drop_all start guids (ground arith)))
]

-- The batches of a flush hold the guids of the snapshot in order, each as often as it is there:
-- as many rounds as there are guids are enough for the loop to end.
pub concat-batches : (guids : List Text) → concat (batches (length guids) 0 guids) ≡ guids
concat-batches guids = concat-batches_from (length guids) 0 guids (omega arith)

-- A batch is neither empty nor larger than the limit.
abbrev pub FitsBatch : List Text → Type 0
FitsBatch batch = (0 < length batch) × (length batch ≤ liveness_flush_batch_size)

-- Every batch has between 1 and 300 guids.
pub batches-FitsBatch :
    (fuel start : ℕ) (guids : List Text) → All FitsBatch (batches fuel start guids)
unfolding batches
batches-FitsBatch zero start guids = tt
batches-FitsBatch (suc fuel) start guids = elim (Bool-cases (ltb start (length guids))) [
  | inl more ↦
      let width = min (start + liveness_flush_batch_size) (length guids) - start in
      let size : length (take width (drop start guids)) ≡ min width (length guids - start) =
        length-take width (drop start guids) ∙ ap (min width) (length-drop start guids) in
      rw more (
        (omega (arith, size, ltb→lt _ _ more), omega (arith, size, ltb→lt _ _ more)),
        batches-FitsBatch fuel (start + liveness_flush_batch_size) guids,
      )
  | inr last ↦ rw last tt
]
