-- ===== src/Traffic/Tests.antt =====
-- The traffic at concrete inputs.
use navmesh_go.Base.{ℕ, ◌≡◌, refl, false, none, List, [], ◌∷◌}
use navmesh_go.Base.Int.{ℤ, pos, negsuc}
use navmesh_go.Base.Text.{Text, codes, eq_text, trim_space}
use navmesh_go.Traffic.{TrafficTables, find_state, record_heartbeat_sample}
use navmesh_go.Traffic.Totals.{Meter, total_rx, Shows}
use navmesh_go.Traffic.Run.{Heartbeat, run, meter, run-Shows}

abbrev heartbeat : Text → Text → Text → (rx tx : ℕ) → ℤ → Heartbeat
heartbeat guid iface boot rx tx now = record {
  guid = guid;
  request = record {
    traffic_iface = iface;
    traffic_boot_id = boot;
    traffic_rx_bytes = pos rx;
    traffic_tx_bytes = pos tx;
    traffic_sample_time = now;
  };
  now = now;
  fails = false;
}

-- The third sample names no boot, so that the one of the fourth is not seen as another; the fifth is of
-- another interface, and the last of another boot.
abbrev heartbeats : List Heartbeat
heartbeats =
    heartbeat (codes "d1") (codes " eth0") (codes "a") 100 50 (pos 1)
    ∷ heartbeat (codes "d1") (codes "eth0") (codes "a") 130 50 (pos 2)
    ∷ heartbeat (codes "d1 ") (codes "eth0") [] 150 80 (pos 3)
    ∷ heartbeat (codes "d1") (codes "eth0") (codes "b") 160 90 (pos 4)
    ∷ heartbeat (codes "d1") (codes "wlan0") (codes "b") 900 90 (pos 5)
    ∷ heartbeat (codes "d1") (codes "eth0") (codes "c") 170 90 (pos 6)
    ∷ []

abbrev day_of : ℤ → Text
day_of (pos n) = codes "2026-01-01"
day_of (negsuc n) = codes "1969-12-31"

abbrev empty_tables : TrafficTables
empty_tables = record { states = []; daily = [] }

abbrev new_meter : Meter
new_meter = record { last = none; rx = 0; tx = 0 }

total_test : total_rx (codes "d1") (codes "eth0") (run day_of heartbeats empty_tables).daily ≡ 60
unfolding record_heartbeat_sample trim_space eq_text
total_test = refl

run-Shows_example :
    Shows
      (codes "d1")
      (codes "eth0")
      (run day_of heartbeats empty_tables)
      (meter (codes "d1") (codes "eth0") heartbeats new_meter)
unfolding find_state
run-Shows_example =
    run-Shows (codes "d1") (codes "eth0") day_of heartbeats empty_tables new_meter
      (refl, refl, refl)
