-- ===== src/AccessLog/Tests.antt =====
-- The access log at concrete inputs.
use navmesh_go.Base.{ℕ, zero, suc, ◌≡◌, refl, false, none, some, List, [], ◌∷◌, arith}
use navmesh_go.Base.Int.{pos}
use navmesh_go.Base.Text.{codes, contains, to_lower}
use navmesh_go.AccessLog.{
  MappingLogInput, is_sqlite_busy_error, write_attempts, Answers, Event, put, take, stop, last, run,
  start,
}
use navmesh_go.AccessLog.Utf8.{is_rune_start, truncate_utf8, truncate_utf8-fitting}
use navmesh_go.AccessLog.Counts.{IsBalanced, run-IsBalanced}
use navmesh_go.AccessLog.Order.{IsInOrder, run-InOrder}

abbrev input_of : List ℕ → MappingLogInput
input_of path = record {
  mapping_guid = codes "m1";
  device_guid = codes "d1";
  host = codes "a.example";
  method = codes "GET";
  path = path;
  source_ip = codes "10.0.0.9";
  status_code = pos 200;
  duration_ms = pos 12;
  tunnel_open_ms = pos 3;
  upstream_ms = pos 8;
  first_byte_ms = pos 9;
  reused_conn = false;
  bytes_in = pos 10;
  bytes_out = pos 900;
  error_message = [];
  create_time = pos 0;
}

-- The database is busy at the first attempt.
abbrev busy_once : Answers
busy_once zero = some (codes "database is locked")
busy_once (suc n) = none

abbrev events : List Event
events =
    put (pos 5) (input_of (codes "/a"))
    ∷ put (pos 6) (input_of (codes "/b"))
    ∷ put (pos 7) (input_of (codes "/c"))
    ∷ take (pos 8) busy_once
    ∷ stop
    ∷ put (pos 9) (input_of (codes "/d"))
    ∷ take (pos 9) busy_once
    ∷ last busy_once
    ∷ []

-- A queue of two inputs has no room for the third, and one that is stopped takes none.
written_test : (run events (start 2 3)).writer.written ≡ 2
unfolding run start is_sqlite_busy_error contains to_lower
written_test = refl

dropped_test : (run events (start 2 3)).writer.dropped ≡ 1
unfolding run start is_sqlite_busy_error contains to_lower
dropped_test = refl

truncate_utf8-fitting_example : truncate_utf8 (0x61 ∷ 0xe4 ∷ 0xb8 ∷ 0xad ∷ 0x62 ∷ []) 3 ≡ 0x61 ∷ []
unfolding is_rune_start
truncate_utf8-fitting_example =
    truncate_utf8-fitting
      (record { first = 0x61; others = [] }
        ∷ record { first = 0xe4; others = 0xb8 ∷ 0xad ∷ [] }
        ∷ record { first = 0x62; others = [] }
        ∷ [])
      3 ((refl, tt), ((refl, (refl, (refl, tt))), ((refl, tt), tt))) (omega arith)

run-IsBalanced_example : IsBalanced (run events (start 2 3))
run-IsBalanced_example = run-IsBalanced 2 3 events

run-InOrder_example : IsInOrder (run events (start 2 3))
unfolding write_attempts contains to_lower
run-InOrder_example =
    run-InOrder 2 3 events
      (omega arith, (omega arith, (omega arith, (refl, (tt, (omega arith, (refl, (refl, tt))))))))
