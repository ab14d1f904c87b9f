-- ===== src/Sessions.antt =====
-- services/session_registry.go: the runtime registry of sessions and of forced closes.
-- A `time.Time` is a number of nanoseconds. Each method takes the time that `time.Now` gave it, and
-- runs as one step, under the registry's mutex. `io.Closer` is the parameter `Closer`; the closers
-- on which `CloseSession` calls `Close` are returned, in the order of the calls.
pub mod Marker
pub mod Active
mod Tests
use navmesh_go.Base.{
  ℕ, ◌+◌, ◌*◌, ◌^◌, ◌<◌, ◌≡◌, Bool, true, false, ◌||◌, not, Option, none, some, List, [], ◌∷◌, ◌++◌,
  ltb, if◌then◌else◌, or_zero, is_some,
}
use navmesh_go.Base.Text.{Text, is_empty}
use navmesh_go.Base.Map.{Map, empty, get, delete, put, retain, size}

-- time.Hour
abbrev pub forced_session_marker_ttl : ℕ
forced_session_marker_ttl = 3600 * 10 ^ 9

pub record Registry (Closer : Type 0) : Type 0 where
  pub sessions : Map (List Closer)
  pub forced_session : Map ℕ

-- `markedAt.Before(now.Add(-forcedSessionMarkerTTL))`
pub is_stale : ℕ → ℕ → Bool
is_stale now marked_at = ltb (marked_at + forced_session_marker_ttl) now

pub data Op (Closer : Type 0) : Type 0 where
  register : Text → List Closer → Op Closer
  unregister close consume : Text → Op Closer

module _ {Closer : Type 0} where
  pub new_registry : Registry Closer
  new_registry = record { sessions = empty; forced_session = empty }

  abbrev pub is_nil : List Closer → Bool
  is_nil [] = true
  is_nil (c ∷ cs) = false

  pub prune_forced_sessions : ℕ → Registry Closer → Registry Closer
  prune_forced_sessions now r = record r {
    forced_session = retain (λ _ marked_at. not (is_stale now marked_at)) r.forced_session;
  }

  abbrev pub closers_of : Registry Closer → Text → List Closer
  closers_of r guid = or_zero (get r.sessions guid) []

  pub register_session : ℕ → Text → List Closer → Registry Closer → Registry Closer
  unfolding prune_forced_sessions
  register_session now guid closers r =
      let pruned = prune_forced_sessions now r in
      if is_empty guid || is_nil closers
      then r
      else record pruned { sessions = put pruned.sessions guid (closers_of pruned guid ++ closers) }

  pub unregister_session : Text → Registry Closer → Registry Closer
  unregister_session guid r =
      if is_empty guid then r else record r { sessions = delete r.sessions guid }

  mark_forced : ℕ → Text → List Closer → Registry Closer → Registry Closer
  unfolding prune_forced_sessions
  mark_forced now guid [] r = r
  mark_forced now guid (c ∷ cs) r =
      let pruned = prune_forced_sessions now r in
      record pruned { forced_session = put pruned.forced_session guid now }

  -- The registry, the closers that are closed, and the result.
  pub close_session : ℕ → Text → Registry Closer → Registry Closer × List Closer × Bool
  unfolding mark_forced
  close_session now guid r =
      let closers = closers_of r guid in
      if is_empty guid then (r, [], false) else (
        mark_forced now guid closers (record r { sessions = delete r.sessions guid }),
        closers,
        not (is_nil closers),
      )

  pub consume_force_closed : ℕ → Text → Registry Closer → Registry Closer × Bool
  unfolding prune_forced_sessions
  consume_force_closed now guid r =
      let pruned = prune_forced_sessions now r in
      if is_empty guid then (r, false) else (
        record pruned { forced_session = delete pruned.forced_session guid },
        is_some (get pruned.forced_session guid),
      )

  -- RuntimeSessionStats.Active
  pub active : Registry Closer → ℕ
  active r = size r.sessions

  -- A call at a time.
  pub step : Registry Closer → ℕ × Op Closer → Registry Closer
  step r (now, register guid closers) = register_session now guid closers r
  step r (now, unregister guid) = unregister_session guid r
  step r (now, close guid) = (close_session now guid r).0
  step r (now, consume guid) = (consume_force_closed now guid r).0

  pub run : Registry Closer → List (ℕ × Op Closer) → Registry Closer
  run r [] = r
  run r (c ∷ cs) = run (step r c) cs
