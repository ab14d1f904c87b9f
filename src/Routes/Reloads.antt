-- ===== src/Routes/Reloads.antt =====
-- httpgateway/route_store.go, RequestReload and Run: requests for a reload meet the goroutine that
-- reloads, until its context is cancelled. The channel holds one token, so several requests become
-- one. `covered` says whether a reload has started since the last request; the code does not keep it.
use navmesh_go.Base.{◌≡◌, ◌≢◌, ◌⊎◌, Bool, true, false, arith, if◌then◌else◌, List, [], ◌∷◌}

-- Run waits for a token, waits for the timer, has begun to reload, or has returned.
pub data Phase : Type 0 where
  idle waiting reloading stopped : Phase

pub record Reloader : Type 0 where
  pub token : Bool
  pub phase : Phase
  pub cancelled : Bool
  pub covered : Bool

pub data Event : Type 0 where
  request wake elapse done cancel quit : Event

unfoldable pub request_reload : Reloader → Reloader
request_reload r = record r { token = true; covered = false }

-- `case <-s.reloadCh`
unfoldable pub take_token : Reloader → Reloader
take_token r = if r.token then record r { token = false; phase = waiting } else r

-- The timer has fired: the tokens are taken, and the reload begins.
unfoldable pub drain : Reloader → Reloader
drain r = record r { token = false; phase = reloading; covered = true }

-- `case <-ctx.Done()`
unfoldable pub return_if_cancelled : Reloader → Reloader
return_if_cancelled r = if r.cancelled then record r { phase = stopped } else r

-- One step of the goroutine or of a caller; an event that cannot happen in a phase changes nothing.
unfoldable pub on_event : Event → Reloader → Reloader
unfolding request_reload take_token drain return_if_cancelled
on_event request r = request_reload r
on_event wake r = elim r.phase [ idle ↦ take_token r | waiting ↦ r | reloading ↦ r | stopped ↦ r ]
on_event elapse r = elim r.phase [ idle ↦ r | waiting ↦ drain r | reloading ↦ r | stopped ↦ r ]
on_event done r = elim r.phase [
  | idle ↦ r
  | waiting ↦ r
  | reloading ↦ record r { phase = idle }
  | stopped ↦ r
]
on_event cancel r = record r { cancelled = true }
on_event quit r = elim r.phase [
  | idle ↦ return_if_cancelled r
  | waiting ↦ return_if_cancelled r
  | reloading ↦ r
  | stopped ↦ r
]

unfoldable pub run_events : List Event → Reloader → Reloader
unfolding on_event
run_events [] r = r
run_events (e ∷ es) r = run_events es (on_event e r)

-- While Run has not returned, a request is not forgotten: a token or the timer will make it covered.
-- It returns only after its context was cancelled.
pub record Safe (r : Reloader) : Type 0 where
  pub pending : r.phase ≢ stopped → r.covered ≡ false → (r.token ≡ true) ⊎ (r.phase ≡ waiting)
  pub returned : r.phase ≡ stopped → r.cancelled ≡ true

on_event-Safe : (e : Event) (r : Reloader) → Safe r → Safe (on_event e r)
unfolding on_event request_reload take_token drain return_if_cancelled
on_event-Safe e r s = ground arith

-- If it is so at first, then after any events: Run has returned only if its context was cancelled, and
-- while it has not returned, a request that no start of a reload has followed has a token or the timer
-- that will start one.
pub run_events-Safe : (es : List Event) (r : Reloader) → Safe r → Safe (run_events es r)
unfolding run_events
run_events-Safe [] r s = s
run_events-Safe (e ∷ es) r s = run_events-Safe es (on_event e r) (on_event-Safe e r s)

-- From any such state in which Run has not returned, when no further request comes and Run does not
-- return, the goroutine covers the last request by the end of the reload that runs, one wake and one
-- timer.
pub run_events-covered :
    (r : Reloader)
    → Safe r
    → r.phase ≢ stopped
    → (run_events (elapse ∷ done ∷ wake ∷ elapse ∷ []) r).covered ≡ true
unfolding run_events on_event take_token drain
run_events-covered r s going = ground arith
