-- ===== src/Liveness/Flush.antt =====
-- What a flush does to the registry and to the database, with calls of other goroutines in between.
use navmesh_go.Base.{
  ◌≡◌, ◌≢◌, ◌∙◌, sym, refl, ap, Bool, true, false, ◌⊎◌, Option, none, some, List, [], ◌∷◌, map,
  arith, Option-cases, Bool-cases, inl, inr, length, ◌==◌,
}
use navmesh_go.Base.Int.{ℤ}
use navmesh_go.Base.Text.{Text}
use navmesh_go.Base.Assoc.{Assoc, kept}
use navmesh_go.Base.Map.{Map, get, size, get-size_zero}
use navmesh_go.Liveness.{
  LivenessRegistry, FlushError, ack, snapshot, Call, run, flush, finish, write_snapshot,
  write_batches, batches, guids_of,
}
use navmesh_go.Liveness.Written.{Written, nothing, batches-Written}
use navmesh_go.Liveness.Dirty.{after_ack, get-ack_entries}

-- gorm's `Transaction`: if the function fails, nothing is written and an error is returned; if it
-- succeeds, either its writes are committed, or the commit fails and nothing is written.
pub record IsTransaction {Handle Store : Type 0}
    (transaction : Handle → (Store → Option Store) → Store → Store × Bool) : Type 0 where
  pub rolled_back :
      (h : Handle) (f : Store → Option Store) (s : Store)
      → f s ≡ none
      → transaction h f s ≡ (s, false)
  pub committed :
      (h : Handle) (f : Store → Option Store) (s s' : Store)
      → f s ≡ some s'
      → (transaction h f s ≡ (s', true)) ⊎ (transaction h f s ≡ (s, false))

names_of_none : (l : Assoc ℤ) → (length l == 0) ≡ true → map (λ e. e.0) l ≡ []
names_of_none [] h = refl
names_of_none (e ∷ l) h = absurd (ground arith)

guids_of-size_zero : (m : Map ℤ) → (size m == 0) ≡ true → guids_of m ≡ []
unfolding size
guids_of-size_zero m h = names_of_none m.entries h

module _ {Handle Store : Type 0} where
  finish_dirty :
      (items : Map ℤ) (r : LivenessRegistry Handle) (done : Store × Bool) (g : Text)
      → (finish items r done).2 ≡ none
      → get (finish items r done).0.dirty g ≡ after_ack (get items g) (get r.dirty g)
  unfolding finish ack get
  finish_dirty items r (s, true) g h = get-ack_entries items.entries r.dirty g items.distinct
  finish_dirty items r (s, false) g h = cc

  finish_store :
      (items : Map ℤ) (r : LivenessRegistry Handle) (done : Store × Bool)
      → (finish items r done).2 ≡ none
      → done ≡ ((finish items r done).1, true)
  unfolding finish
  finish_store items r (s, true) h = refl
  finish_store items r (s, false) h = cc

  finish_error :
      (items : Map ℤ) (r : LivenessRegistry Handle) (done : Store × Bool)
      → (finish items r done).2 ≢ none
      → (done.1 ≡ false) × ((finish items r done).0 ≡ r) × ((finish items r done).1 ≡ done.0)
  unfolding finish
  finish_error items r (s, true) h = absurd (h refl)
  finish_error items r (s, false) h = (refl, refl, refl)

module _ {Handle Store : Type 0}
    (update_devices update_connections : List Text → ℤ → Store → Option Store)
    (transaction : Handle → (Store → Option Store) → Store → Store × Bool) (now : ℤ)
    (nav_db : Option Handle) (during : List (ℤ × Call)) (r : LivenessRegistry Handle)
    (store : Store) where
  abbrev flushed : LivenessRegistry Handle × Store × Option FlushError
  flushed = flush update_devices update_connections transaction now nav_db during r store

  abbrev writes : Store → Option Store
  writes =
      write_batches update_devices update_connections now
        (batches (length (guids_of r.dirty)) 0 (guids_of r.dirty))

  write_snapshot_dirty :
      (db : Option Handle) (g : Text)
      → (write_snapshot update_devices update_connections transaction now r.dirty db
          (run r during)
          store).2
        ≡ none
      → get
          (write_snapshot update_devices update_connections transaction now r.dirty db
            (run r during)
            store).0.dirty
          g
        ≡ after_ack (get r.dirty g) (get (run r during).dirty g)
  unfolding write_snapshot
  write_snapshot_dirty none g h = cc
  write_snapshot_dirty (some db) g h = finish_dirty r.dirty (run r during) _ g h

  -- A flush that returns nil leaves, for each device, what was touched after the snapshot and
  -- nothing else: a device of the snapshot stays dirty only with a time later than its snapshot.
  pub flush-dirty :
      flushed.2 ≡ none
      → (g : Text) → get flushed.0.dirty g ≡ after_ack (get r.dirty g) (get (run r during).dirty g)
  unfolding flush snapshot
  flush-dirty h g = elim (Bool-cases (size r.dirty == 0)) [
    | inl none_dirty ↦ rw none_dirty (
        ap (λ o. after_ack o (get (run r during).dirty g))
          (sym (get-size_zero r.dirty g none_dirty)))
    | inr some_dirty ↦ rw some_dirty (write_snapshot_dirty _ g (rw some_dirty at h))
  ]

  module _ (law : IsTransaction transaction) where
    transaction_writes :
        (h : Handle) (f : Store → Option Store) (s' : Store)
        → transaction h f store ≡ (s', true)
        → f store ≡ some s'
    transaction_writes h f s' e = elim (Option-cases (f store)) [
      | inl failed ↦ cc (law.rolled_back h f store failed)
      | inr (s, wrote) ↦ elim (law.committed h f store s wrote) [ inl kept ↦ cc | inr lost ↦ cc ]
    ]

    transaction_keeps :
        (h : Handle) (f : Store → Option Store)
        → (transaction h f store).1 ≡ false
        → (transaction h f store).0 ≡ store
    transaction_keeps h f e = elim (Option-cases (f store)) [
      | inl failed ↦ ground (arith, law.rolled_back h f store failed)
      | inr (s, wrote) ↦ elim (law.committed h f store s wrote) [
        | inl kept ↦ ground arith
        | inr lost ↦ ground arith
      ]
    ]

    write_snapshot_store :
        (db : Option Handle)
        → (write_snapshot update_devices update_connections transaction now r.dirty db
            (run r during)
            store).2
          ≡ none
        → writes store
          ≡ some
              (write_snapshot update_devices update_connections transaction now r.dirty db
                (run r during)
                store).1
    unfolding write_snapshot
    write_snapshot_store none h = cc
    write_snapshot_store (some db) h =
        transaction_writes db writes _ (finish_store r.dirty (run r during) _ h)

    write_snapshot_error :
        (db : Option Handle)
        → (write_snapshot update_devices update_connections transaction now r.dirty db
            (run r during)
            store).2
          ≢ none
        → ((write_snapshot update_devices update_connections transaction now r.dirty db
              (run r during)
              store).0
            ≡ run r during)
          × ((write_snapshot update_devices update_connections transaction now r.dirty db
                (run r during)
                store).1
              ≡ store)
    unfolding write_snapshot
    write_snapshot_error none h = (refl, refl)
    write_snapshot_error (some db) h =
        let (lost, same_r, same_s) = finish_error r.dirty (run r during) _ h in
        (same_r, same_s ∙ transaction_keeps db writes lost)

    -- If a transaction either commits the writes of its function or writes nothing and fails, then a
    -- flush that returns nil has written the guids of the snapshot to the database in order, in chunks
    -- of 1 to 300, each with both updates, all of which succeeded, and the database is as the last
    -- update left it.
    pub flush-writes :
        flushed.2 ≡ none
        → Written update_devices update_connections now (guids_of r.dirty) store flushed.1
    unfolding flush snapshot
    flush-writes h = elim (Bool-cases (size r.dirty == 0)) [
      | inl none_dirty ↦ rw (none_dirty, guids_of-size_zero r.dirty none_dirty) (nothing store)
      | inr some_dirty ↦ rw some_dirty (
          batches-Written update_devices update_connections now (guids_of r.dirty) store _
            (write_snapshot_store _ (rw some_dirty at h)))
    ]

    -- A flush that returns an error changes neither the registry nor the database: no activity is
    -- lost, and the calls of other goroutines in the meantime keep their effect.
    pub flush_error : flushed.2 ≢ none → (flushed.0 ≡ run r during) × (flushed.1 ≡ store)
    unfolding flush snapshot
    flush_error h = elim (Bool-cases (size r.dirty == 0)) [
      | inl none_dirty ↦ rw none_dirty (refl, refl)
      | inr some_dirty ↦ rw some_dirty (write_snapshot_error _ (rw some_dirty at h))
    ]
