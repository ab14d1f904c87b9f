-- ===== src/Liveness.antt =====
-- services/liveness_registry.go: device activity that is coalesced into bounded database writes. Receivers are not nil. A method is one step, under the
-- registry's mutex, but for `Flush`, whose three parts (snapshot, transaction, ack) are functions of
-- their own, since calls of other goroutines come in between. `domains.NowMilli` is an argument.
-- The database (gorm) is a parameter: `Store` is its contents, `Handle` a *gorm.DB.
pub mod Dirty
pub mod Batches
pub mod Written
pub mod Flush
mod Tests
use navmesh_go.Base.{
  ℕ, zero, suc, ◌+◌, ◌-◌, ◌*◌, ◌^◌, ◌/◌, ◌<◌, ◌≡◌, Bool, true, false, ◌||◌, ◌&&◌, not, Option, none,
  some, List, [], ◌∷◌, ◌++◌, ltb, leb, ◌==◌, if◌then◌else◌, or_zero, is_some, length, take, drop,
  map, min,
}
use navmesh_go.Base.Int.{ℤ, pos, negsuc, leb_ℤ, ltb_ℤ}
use navmesh_go.Base.Text.{Text, is_empty, trim_space}
use navmesh_go.Base.Assoc.{Assoc}
use navmesh_go.Base.Map.{Map, empty, get, delete, put, retain, size}

abbrev pub liveness_flush_batch_size : ℕ
liveness_flush_batch_size = 300

pub record LivenessRegistry (Handle : Type 0) : Type 0 where
  pub dirty : Map ℤ
  pub db : Option Handle

-- What `Flush` returns when it is not nil.
pub data FlushError : Type 0 where
  database_unavailable transaction_failed : FlushError

-- m[k], 0 if the key is missing.
abbrev pub time_of : Map ℤ → Text → ℤ
time_of m guid = or_zero (get m guid) (pos 0)

-- for guid, flushedAt := range snapshot { if r.dirty[guid] <= flushedAt { delete(r.dirty, guid) } }
unfoldable pub ack_entries : Assoc ℤ → Map ℤ → Map ℤ
ack_entries [] dirty = dirty
ack_entries ((guid, flushed_at) ∷ rest) dirty =
    ack_entries rest (if leb_ℤ (time_of dirty guid) flushed_at then delete dirty guid else dirty)

-- The loop of `Flush` over the batches from `start` on, with the two updates of each; `none` is an error.
module _ {Store : Type 0}
    (update_devices update_connections : List Text → ℤ → Store → Option Store) where
  pub write_batch : ℤ → List Text → Store → Option Store
  write_batch now batch tx = elim (update_devices batch now tx) [
    | none ↦ none
    | some tx' ↦ update_connections batch now tx'
  ]

  pub write_batches : ℤ → List (List Text) → Store → Option Store
  write_batches now [] tx = some tx
  write_batches now (batch ∷ rest) tx = elim (write_batch now batch tx) [
    | none ↦ none
    | some tx' ↦ write_batches now rest tx'
  ]

-- `guids[start:end]` for start = 0, 300, … while start < len(guids).
pub batches : ℕ → ℕ → List Text → List (List Text)
batches zero start guids = []
batches (suc fuel) start guids =
    let stop = min (start + liveness_flush_batch_size) (length guids) in
    let rest = batches fuel (start + liveness_flush_batch_size) guids in
    if ltb start (length guids) then take (stop - start) (drop start guids) ∷ rest else []

abbrev pub guids_of : Map ℤ → List Text
guids_of m = map (λ e. e.0) m.entries

pub data Call : Type 0 where
  touches marks : Text → ℤ → Call
  forgets : Text → Call

module _ {Handle : Type 0} where
  pub new_liveness_registry : Option Handle → LivenessRegistry Handle
  new_liveness_registry db = record { dirty = empty; db = db }

  pub with_db : Option Handle → LivenessRegistry Handle → LivenessRegistry Handle
  with_db db r = record r { db = db }

  pub touch : ℤ → Text → ℤ → LivenessRegistry Handle → LivenessRegistry Handle
  touch now device_guid at r =
      let guid = trim_space device_guid in
      let seen = if leb_ℤ at (pos 0) then now else at in
      if is_empty guid
      then r
      else if ltb_ℤ (time_of r.dirty guid) seen
      then record r { dirty = put r.dirty guid seen }
      else r

  pub last_seen : LivenessRegistry Handle → Text → ℤ
  last_seen r device_guid = time_of r.dirty (trim_space device_guid)

  pub dirty_count : LivenessRegistry Handle → ℕ
  dirty_count r = size r.dirty

  pub snapshot : LivenessRegistry Handle → Option Handle → Map ℤ × Option Handle
  snapshot r nav_db = (r.dirty, elim r.db [ none ↦ nav_db | some db ↦ some db ])

  pub ack : Map ℤ → LivenessRegistry Handle → LivenessRegistry Handle
  unfolding ack_entries
  ack items r = record r { dirty = ack_entries items.entries r.dirty }

  pub mark_persisted : Text → ℤ → LivenessRegistry Handle → LivenessRegistry Handle
  unfolding ack
  mark_persisted device_guid at r =
      let guid = trim_space device_guid in if is_empty guid then r else ack (put empty guid at) r

  pub forget_device : Text → LivenessRegistry Handle → LivenessRegistry Handle
  forget_device device_guid r =
      let guid = trim_space device_guid in
      if is_empty guid then r else record r { dirty = delete r.dirty guid }

  -- The calls that other goroutines make while a flush runs.
  pub step : LivenessRegistry Handle → ℤ × Call → LivenessRegistry Handle
  step r (now, touches guid at) = touch now guid at r
  step r (now, marks guid at) = mark_persisted guid at r
  step r (now, forgets guid) = forget_device guid r

  pub run : LivenessRegistry Handle → List (ℤ × Call) → LivenessRegistry Handle
  run r [] = r
  run r (c ∷ cs) = run (step r c) cs

  -- The end of `Flush`, given what the transaction did.
  pub finish :
      {Store : Type 0}
      → Map ℤ
      → LivenessRegistry Handle
      → Store × Bool
      → LivenessRegistry Handle × Store × Option FlushError
  finish items r (store, true) = (ack items r, store, none)
  finish items r (store, false) = (r, store, some transaction_failed)

  -- `transaction db f` is `db.Transaction(f)`: the new contents, and whether it returned nil.
  module _ {Store : Type 0}
      (update_devices update_connections : List Text → ℤ → Store → Option Store)
      (transaction : Handle → (Store → Option Store) → Store → Store × Bool) where
    abbrev pub write_guids : ℤ → List Text → Handle → Store → Store × Bool
    write_guids now guids h store =
        transaction h
          (write_batches update_devices update_connections now (batches (length guids) 0 guids))
          store

    pub write_snapshot :
        ℤ
        → Map ℤ
        → Option Handle
        → LivenessRegistry Handle
        → Store
        → LivenessRegistry Handle × Store × Option FlushError
    unfolding finish
    write_snapshot now items none r store = (r, store, some database_unavailable)
    write_snapshot now items (some h) r store =
        finish items r (write_guids now (guids_of items) h store)

    -- `during` are the calls that come between the snapshot and the ack, or the return.
    pub flush :
        ℤ
        → Option Handle
        → List (ℤ × Call)
        → LivenessRegistry Handle
        → Store
        → LivenessRegistry Handle × Store × Option FlushError
    unfolding snapshot write_snapshot
    flush now nav_db during r store =
        let (items, db) = snapshot r nav_db in
        let after = run r during in
        if size items == 0 then (after, store, none) else write_snapshot now items db after store
