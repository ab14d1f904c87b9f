-- ===== src/Sessions/Tests.antt =====
-- Tests of the session registry, and the theorems of Marker and Active at concrete inputs.
use navmesh_go.Base.{ℕ, ◌≡◌, refl, true, false, List, [], ◌∷◌, arith, is_some}
use navmesh_go.Base.Text.{Text, codes, eq_text}
use navmesh_go.Base.Map.{get, put, empty}
use navmesh_go.Sessions.{
  Registry, new_registry, Op, register, close, consume, step, run, close_session,
  consume_force_closed,
}
use navmesh_go.Sessions.Marker.{consume-close, consume-run_unmarked}
use navmesh_go.Sessions.Active.{close-run_iff}

abbrev a : Text
a = codes "a"

abbrev b : Text
b = codes "b"

abbrev one : Registry ℕ
one = record { sessions = put empty a (7 ∷ []); forced_session = empty }

abbrev traffic : List (ℕ × Op ℕ)
traffic =
    (200, register b (8 ∷ [])) ∷ (300, close b) ∷ (400, consume b) ∷ (500, register a (9 ∷ [])) ∷ []

close_test : (close_session 5 a one).1 ≡ 7 ∷ []
unfolding close_session get put empty eq_text
close_test = refl

consume-close_example :
    (consume_force_closed 900 a (run (step one (100, close a)) traffic)).1 ≡ true
unfolding get put empty eq_text
consume-close_example =
    consume-close 100 900 a one 7 [] traffic refl refl (ground arith) (omega arith)

consume-run_unmarked_example :
    (consume_force_closed 900 a (run one ((200, close b) ∷ (300, consume a) ∷ []))).1 ≡ false
unfolding get put empty eq_text
consume-run_unmarked_example =
    consume-run_unmarked 900 a one ((200, close b) ∷ (300, consume a) ∷ []) (ground arith) refl

abbrev registered : List (ℕ × Op ℕ)
registered = (100, register a (4 ∷ [])) ∷ []

close-run_iff_example :
    (close_session 300 a (run new_registry registered)).2
    ≡ is_some (get (run new_registry registered).sessions a)
close-run_iff_example = close-run_iff 300 a registered refl
