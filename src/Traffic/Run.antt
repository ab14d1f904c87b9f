-- ===== src/Traffic/Run.antt =====
-- The days of an interface add up to what its counters moved.
use navmesh_go.Base.{
  ◌≡◌, ◌∙◌, sym, refl, ap, subst, Bool, true, false, ◌&&◌, Option, none, some, List, [], ◌∷◌, arith,
  if◌then◌else◌, on_if,
}
use navmesh_go.Base.Int.{ℤ}
use navmesh_go.Base.Text.{Text, eq_text, eq_text_refl, eq_text_iff}
use navmesh_go.Traffic.{
  TrafficSample, DeviceTrafficState, TrafficTables, find_state, traffic_counter_reset, Sample,
  apply_sample, record_sample, sample_of, record_some, record_heartbeat_sample,
}
use navmesh_go.Traffic.Totals.{
  Meter, began_again, move, meter_step, state_counters, Shows, find_state-update_states,
  find_state-update_states_other, total_rx-count_delta, total_tx-count_delta,
}

-- The sample of an interface moves its meter.
own_sample :
    (day_of : ℤ → Text) (s : Sample) (tables : TrafficTables) (m : Meter)
    (o : Option DeviceTrafficState)
    → find_state s.device_guid s.iface tables.states ≡ o
    → Shows s.device_guid s.iface tables m
    → Shows s.device_guid s.iface (apply_sample day_of s tables o) (move s (state_counters o) m)
unfolding find_state traffic_counter_reset
own_sample day_of s tables m none found (last, rx, tx) =
    let a = eq_text_refl s.device_guid in let b = eq_text_refl s.iface in (rw (a, b) refl, rx, tx)
own_sample day_of s tables m (some old) found (last, rx, tx) =
    let a = eq_text_refl s.device_guid in
    let b = eq_text_refl s.iface in
    let state = find_state-update_states s tables.states old found in
    let total_r = total_rx-count_delta s.device_guid s.iface day_of s old tables.daily in
    let total_t = total_tx-count_delta s.device_guid s.iface day_of s old tables.daily in
    on_if (Shows s.device_guid s.iface (apply_sample day_of s tables (some old)))
      (began_again (record { rx = old.rx_bytes; tx = old.tx_bytes; boot_id = old.traffic_boot_id })
        s)
      (λ again.
        let x : traffic_counter_reset old s.rx s.tx s.boot_id ≡ true = again in
        (state, ground arith, ground arith))
      (λ on.
        let x : traffic_counter_reset old s.rx s.tx s.boot_id ≡ false = on in
        (state, ground arith, ground arith))

-- The sample of another interface leaves it.
other_sample :
    (guid iface : Text) (day_of : ℤ → Text) (s : Sample) (tables : TrafficTables) (m : Meter)
    (o : Option DeviceTrafficState)
    → eq_text s.device_guid guid && eq_text s.iface iface ≡ false
    → Shows guid iface tables m
    → Shows guid iface (apply_sample day_of s tables o) m
unfolding find_state
other_sample guid iface day_of s tables m none other (last, rx, tx) = (rw other last, rx, tx)
other_sample guid iface day_of s tables m (some old) other (last, rx, tx) =
    let total_r = total_rx-count_delta guid iface day_of s old tables.daily in
    let total_t = total_tx-count_delta guid iface day_of s old tables.daily in
    (
      ap state_counters (find_state-update_states_other guid iface s tables.states other) ∙ last,
      ground arith,
      ground arith,
    )

record_sample-Shows :
    (guid iface : Text) (day_of : ℤ → Text) (s : Sample) (tables : TrafficTables) (m : Meter)
    → Shows guid iface tables m
    → Shows guid iface (record_sample day_of s tables) (meter_step guid iface s m)
unfolding record_sample
record_sample-Shows guid iface day_of s tables m h =
    let o = find_state s.device_guid s.iface tables.states in
    on_if (Shows guid iface (record_sample day_of s tables))
      (eq_text s.device_guid guid && eq_text s.iface iface)
      (λ own.
        let g : s.device_guid ≡ guid = (eq_text_iff s.device_guid guid).0 (ground arith) in
        let i : s.iface ≡ iface = (eq_text_iff s.iface iface).0 (ground arith) in
        let h' : Shows s.device_guid s.iface tables m =
          subst (λ x. Shows x s.iface tables m) (sym g)
            (subst (λ y. Shows guid y tables m) (sym i) h) in
        subst (λ x. Shows x iface (record_sample day_of s tables) (move s m.last m)) g
          (subst (λ y. Shows s.device_guid y (record_sample day_of s tables) (move s m.last m)) i
            (subst (λ l. Shows s.device_guid s.iface (record_sample day_of s tables) (move s l m))
              h'.0 (own_sample day_of s tables m o refl h'))))
      (λ other. other_sample guid iface day_of s tables m o other h)

-- A call of RecordHeartbeatSample, and whether its transaction fails.
pub record Heartbeat : Type 0 where
  pub guid : Text
  pub request : TrafficSample
  pub now : ℤ
  pub fails : Bool

abbrev pub run : (ℤ → Text) → List Heartbeat → TrafficTables → TrafficTables
run day_of [] tables = tables
run day_of (h ∷ hs) tables =
    run day_of hs (record_heartbeat_sample day_of h.guid h.request h.now h.fails tables)

abbrev metered : Text → Text → Bool → Option Sample → Meter → Meter
metered guid iface fails none m = m
metered guid iface fails (some s) m = if fails then m else meter_step guid iface s m

-- The meter of an interface after some calls.
abbrev pub meter : Text → Text → List Heartbeat → Meter → Meter
meter guid iface [] m = m
meter guid iface (h ∷ hs) m =
    meter guid iface hs (metered guid iface h.fails (sample_of h.guid h.request h.now) m)

record_some-Shows :
    (guid iface : Text) (day_of : ℤ → Text) (fails : Bool) (o : Option Sample)
    (tables : TrafficTables) (m : Meter)
    → Shows guid iface tables m
    → Shows guid iface (record_some day_of fails tables o) (metered guid iface fails o m)
record_some-Shows guid iface day_of fails none tables m h = h
record_some-Shows guid iface day_of true (some s) tables m h = h
record_some-Shows guid iface day_of false (some s) tables m h =
    record_sample-Shows guid iface day_of s tables m h

-- After any calls for any devices and interfaces, at any times and whatever fails, the state of an
-- interface holds its last counters, and its rows of all days add up to the bytes by which the counters
-- went on from one sample to the next, where they did not begin again.
pub run-Shows :
    (guid iface : Text) (day_of : ℤ → Text) (hs : List Heartbeat) (tables : TrafficTables)
    (m : Meter)
    → Shows guid iface tables m
    → Shows guid iface (run day_of hs tables) (meter guid iface hs m)
unfolding record_heartbeat_sample
run-Shows guid iface day_of [] tables m h = h
run-Shows guid iface day_of (e ∷ es) tables m h =
    run-Shows guid iface day_of es
      (record_heartbeat_sample day_of e.guid e.request e.now e.fails tables)
      (metered guid iface e.fails (sample_of e.guid e.request e.now) m)
      (record_some-Shows guid iface day_of e.fails (sample_of e.guid e.request e.now) tables m h)
