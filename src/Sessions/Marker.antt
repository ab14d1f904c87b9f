-- ===== src/Sessions/Marker.antt =====
-- The marker of a forced close: who sets it, how long it lasts, and that it is read once.
use navmesh_go.Base.{
  ℕ, ◌+◌, ◌≤◌, ◌≡◌, ap, true, false, Option, none, some, List, [], ◌∷◌, arith, All, ◌≢◌, not,
}
use navmesh_go.Base.Text.{Text, is_empty, eq_text_iff}
use navmesh_go.Base.Assoc.{kept}
use navmesh_go.Base.Map.{get, delete, get-put, get-delete, get-retain}
use navmesh_go.Sessions.{
  Registry, forced_session_marker_ttl, is_stale, prune_forced_sessions, register_session,
  unregister_session, mark_forced, close_session, consume_force_closed, closers_of, Op, register,
  unregister, close, consume, step, run,
}

-- The marker is set, at `m` or later.
abbrev pub Since : ℕ → Option ℕ → Type 0
Since m none = ⊥
Since m (some t) = m ≤ t

kept-Since :
    (m now : ℕ) (o : Option ℕ)
    → now ≤ m + forced_session_marker_ttl
    → Since m o
    → Since m (kept (λ t. not (is_stale now t)) o)
unfolding is_stale
kept-Since m now none h k = k
kept-Since m now (some t) h k = ground arith

module _ {Closer : Type 0} where
  abbrev pub marker : Registry Closer → Text → Option ℕ
  marker r g = get r.forced_session g

  -- The call does not read the marker of `g`.
  abbrev pub Spares : Text → ℕ × Op Closer → Type 0
  Spares g (now, register h cs) = Unit
  Spares g (now, unregister h) = Unit
  Spares g (now, close h) = Unit
  Spares g (now, consume h) = h ≢ g

  -- The call does not close `g`.
  abbrev pub KeepsOpen : Text → ℕ × Op Closer → Type 0
  KeepsOpen g (now, register h cs) = Unit
  KeepsOpen g (now, unregister h) = Unit
  KeepsOpen g (now, close h) = h ≢ g
  KeepsOpen g (now, consume h) = Unit

  prune-Since :
      (m now : ℕ) (r : Registry Closer) (g : Text)
      → now ≤ m + forced_session_marker_ttl
      → Since m (marker r g)
      → Since m (marker (prune_forced_sessions now r) g)
  unfolding prune_forced_sessions
  prune-Since m now r g h k =
      rw (get-retain (λ _ t. not (is_stale now t)) r.forced_session g)
        (kept-Since m now (marker r g) h k)

  mark_forced-Since :
      (m now : ℕ) (h g : Text) (cs : List Closer) (r : Registry Closer)
      → now ≤ m + forced_session_marker_ttl
      → m ≤ now
      → Since m (marker r g)
      → Since m (marker (mark_forced now h cs r) g)
  unfolding mark_forced
  mark_forced-Since m now h g [] r late early k = k
  mark_forced-Since m now h g (c ∷ cs) r late early k =
      rw (get-put (prune_forced_sessions now r).forced_session h g now)
        (ground (arith, prune-Since m now r g late k))

  step-Since :
      (m : ℕ) (r : Registry Closer) (g : Text) (c : ℕ × Op Closer)
      → c.0 ≤ m + forced_session_marker_ttl
      → m ≤ c.0
      → Spares g c
      → Since m (marker r g)
      → Since m (marker (step r c) g)
  unfolding step register_session unregister_session close_session consume_force_closed
  step-Since m r g (now, register h cs) late early s k =
      ground (arith, prune-Since m now r g late k)
  step-Since m r g (now, unregister h) late early s k = ground arith
  step-Since m r g (now, close h) late early s k = ground (
    arith,
    mark_forced-Since m now h g (closers_of r h) (record r { sessions = delete r.sessions h }) late
        early k,
  )
  step-Since m r g (now, consume h) late early s k = ground (
    arith,
    get-delete (prune_forced_sessions now r).forced_session h g,
    eq_text_iff h g,
    prune-Since m now r g late k,
  )

  -- A history between the times `m` and `m + ttl` that does not read the marker of `g`.
  abbrev pub Within : ℕ → Text → List (ℕ × Op Closer) → Type 0
  Within m g [] = Unit
  Within m g (c ∷ cs) =
      (m ≤ c.0) × (c.0 ≤ m + forced_session_marker_ttl) × Spares g c × Within m g cs

  run-Since :
      (m : ℕ) (r : Registry Closer) (g : Text) (cs : List (ℕ × Op Closer))
      → Within m g cs
      → Since m (marker r g)
      → Since m (marker (run r cs) g)
  unfolding run
  run-Since m r g [] w k = k
  run-Since m r g (c ∷ cs) w k = run-Since m (step r c) g cs w.3 (step-Since m r g c w.1 w.0 w.2 k)

  close-Since :
      (now : ℕ) (g : Text) (r : Registry Closer) (c : Closer) (cs : List Closer)
      → is_empty g ≡ false
      → closers_of r g ≡ c ∷ cs
      → Since now (marker (close_session now g r).0 g)
  unfolding close_session
  close-Since now g r c cs named e = ground (
    arith,
    get-put (prune_forced_sessions now (record r { sessions = delete r.sessions g })).forced_session
        g g now,
    eq_text_iff g g,
  )

  consume-Since :
      (m later : ℕ) (g : Text) (r : Registry Closer)
      → is_empty g ≡ false
      → later ≤ m + forced_session_marker_ttl
      → Since m (marker r g)
      → (consume_force_closed later g r).1 ≡ true
  unfolding consume_force_closed
  consume-Since m later g r named late k = ground (arith, prune-Since m later r g late k)

  -- A session that was closed with its closers registered is reported as force-closed to the next
  -- `ConsumeForceClosed` on its guid, if this comes within the marker's hour: whatever calls, on
  -- this or other guids, come in between in that hour, none of them a `ConsumeForceClosed` on this guid.
  pub consume-close :
      (now later : ℕ) (g : Text) (r : Registry Closer) (c : Closer) (cs : List Closer)
      (history : List (ℕ × Op Closer))
      → is_empty g ≡ false
      → closers_of r g ≡ c ∷ cs
      → Within now g history
      → later ≤ now + forced_session_marker_ttl
      → (consume_force_closed later g (run (step r (now, close g)) history)).1 ≡ true
  unfolding step
  consume-close now later g r c cs history named e w late =
      consume-Since now later g (run (close_session now g r).0 history) named late
        (run-Since now (close_session now g r).0 g history w (close-Since now g r c cs named e))

  unmarked-prune :
      (now : ℕ) (r : Registry Closer) (g : Text)
      → marker r g ≡ none
      → marker (prune_forced_sessions now r) g ≡ none
  unfolding prune_forced_sessions
  unmarked-prune now r g e =
      rw (get-retain (λ _ t. not (is_stale now t)) r.forced_session g) (ap (kept _) e)

  unmarked-mark_forced :
      (now : ℕ) (h g : Text) (cs : List Closer) (r : Registry Closer)
      → h ≢ g
      → marker r g ≡ none
      → marker (mark_forced now h cs r) g ≡ none
  unfolding mark_forced
  unmarked-mark_forced now h g [] r d e = e
  unmarked-mark_forced now h g (c ∷ cs) r d e = ground (
    arith,
    get-put (prune_forced_sessions now r).forced_session h g now,
    eq_text_iff h g,
    unmarked-prune now r g e,
  )

  unmarked-step :
      (r : Registry Closer) (g : Text) (c : ℕ × Op Closer)
      → KeepsOpen g c
      → marker r g ≡ none
      → marker (step r c) g ≡ none
  unfolding step register_session unregister_session close_session consume_force_closed
  unmarked-step r g (now, register h cs) k e = ground (arith, unmarked-prune now r g e)
  unmarked-step r g (now, unregister h) k e = ground arith
  unmarked-step r g (now, close h) k e = ground (
    arith,
    unmarked-mark_forced now h g (closers_of r h) (record r { sessions = delete r.sessions h }) k e,
  )
  unmarked-step r g (now, consume h) k e =
      ground (
        arith,
        get-delete (prune_forced_sessions now r).forced_session h g,
        unmarked-prune now r g e,
      )

  unmarked-run :
      (r : Registry Closer) (g : Text) (cs : List (ℕ × Op Closer))
      → All (KeepsOpen g) cs
      → marker r g ≡ none
      → marker (run r cs) g ≡ none
  unfolding run
  unmarked-run r g [] k e = e
  unmarked-run r g (c ∷ cs) k e = unmarked-run (step r c) g cs k.1 (unmarked-step r g c k.0 e)

  -- A guid that has no marker is not reported as force-closed after any calls, at any times, that
  -- do not close it: no other operation sets its marker.
  pub consume-run_unmarked :
      (later : ℕ) (g : Text) (r : Registry Closer) (history : List (ℕ × Op Closer))
      → All (KeepsOpen g) history
      → marker r g ≡ none
      → (consume_force_closed later g (run r history)).1 ≡ false
  unfolding consume_force_closed
  consume-run_unmarked later g r history k e =
      ground (arith, unmarked-prune later (run r history) g (unmarked-run r g history k e))

  consume-marker :
      (now : ℕ) (g : Text) (r : Registry Closer)
      → is_empty g ≡ false
      → marker (consume_force_closed now g r).0 g ≡ none
  unfolding consume_force_closed
  consume-marker now g r named =
      ground (arith, get-delete (prune_forced_sessions now r).forced_session g g, eq_text_iff g g)

  -- The marker is read once: after a `ConsumeForceClosed` on a guid, further ones return false, at
  -- any time and after any calls that do not close the guid again.
  pub consume-consume :
      (now later : ℕ) (g : Text) (r : Registry Closer) (history : List (ℕ × Op Closer))
      → is_empty g ≡ false
      → All (KeepsOpen g) history
      → (consume_force_closed later g (run (step r (now, consume g)) history)).1 ≡ false
  unfolding step
  consume-consume now later g r history named k =
      consume-run_unmarked later g (consume_force_closed now g r).0 history k
        (consume-marker now g r named)
