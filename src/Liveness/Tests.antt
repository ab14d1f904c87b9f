-- ===== src/Liveness/Tests.antt =====
-- Tests of the liveness registry, and the theorems of Batches and Flush at concrete inputs.
use navmesh_go.Base.{
  ◌≡◌, refl, Bool, true, false, Option, none, some, List, [], ◌∷◌, ◌++◌, inl, concat,
}
use navmesh_go.Base.Int.{ℤ, pos}
use navmesh_go.Base.Text.{Text, codes, eq_text, trim_space}
use navmesh_go.Base.Map.{get, put, empty, delete, size}
use navmesh_go.Liveness.{
  LivenessRegistry, touch, Call, touches, run, step, flush, batches, snapshot, finish,
  write_snapshot, write_batches, write_batch, ack, ack_entries, guids_of,
}
use navmesh_go.Liveness.Dirty.{after_ack}
use navmesh_go.Liveness.Batches.{concat-batches}
use navmesh_go.Liveness.Written.{Written}
use navmesh_go.Liveness.Flush.{IsTransaction, flush-dirty, flush-writes, flush_error}

abbrev a : Text
a = codes "a"

abbrev b : Text
b = codes "b"

-- A database that is the list of the guids that were written, and whose commits succeed.
abbrev Log : Type 0
Log = List Text

abbrev record_batch : List Text → ℤ → Log → Option Log
record_batch batch now log = some (batch ++ log)

abbrev commit : Unit {0} → (Log → Option Log) → Log → Log × Bool
commit h f log = elim (f log) [ none ↦ (log, false) | some log' ↦ (log', true) ]

commit-IsTransaction : IsTransaction commit
commit-IsTransaction = record {
  rolled_back = λ h f s e. rw (e, commit);
  committed = λ h f s s' e. inl (rw (e, commit));
}

-- A database whose writes fail.
abbrev refuse_batch : List Text → ℤ → Log → Option Log
refuse_batch batch now log = none

abbrev one : LivenessRegistry (Unit {0})
one = record { dirty = put empty a (pos 7); db = some tt }

abbrev during : List (ℤ × Call)
during = (pos 50, touches a (pos 20)) ∷ (pos 60, touches b (pos 0)) ∷ []

concat-batches_example : concat (batches 2 0 (a ∷ b ∷ [])) ≡ a ∷ b ∷ []
concat-batches_example = concat-batches (a ∷ b ∷ [])

flush-dirty_example :
    get (flush record_batch record_batch commit (pos 90) none during one []).0.dirty a
    ≡ after_ack (get one.dirty a) (get (run one during).dirty a)
unfolding flush snapshot write_snapshot finish write_batches write_batch batches get put empty size
    eq_text
flush-dirty_example =
    flush-dirty record_batch record_batch commit (pos 90) none during one [] refl a

flush_test :
    get (flush record_batch record_batch commit (pos 90) none during one []).0.dirty a
    ≡ some (pos 20)
unfolding flush snapshot write_snapshot finish write_batches write_batch batches get put empty size
    eq_text run step touch ack ack_entries delete trim_space
flush_test = refl

flush-writes_example :
    Written record_batch record_batch
      (pos 90)
      (guids_of one.dirty)
      []
      (flush record_batch record_batch commit (pos 90) none during one []).1
unfolding flush snapshot write_snapshot finish write_batches write_batch batches get put empty size
    eq_text
flush-writes_example =
    flush-writes record_batch record_batch commit (pos 90) none during one [] commit-IsTransaction
      refl

flush_error_example :
    ((flush refuse_batch record_batch commit (pos 90) none during one []).0 ≡ run one during)
    × ((flush refuse_batch record_batch commit (pos 90) none during one []).1 ≡ [])
unfolding flush snapshot write_snapshot finish write_batches write_batch batches get put empty size
    eq_text
flush_error_example =
    flush_error refuse_batch record_batch commit (pos 90) none during one [] commit-IsTransaction
      (λ e. cc)
