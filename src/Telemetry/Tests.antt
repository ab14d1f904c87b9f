-- ===== src/Telemetry/Tests.antt =====
-- Tests of the sampler, and the theorems of Spacing at concrete inputs.
use navmesh_go.Base.{ℕ, ◌+◌, ◌^◌, ◌/◌, ◌≤◌, ◌≡◌, refl, false, [], ◌∷◌, arith, inr}
use navmesh_go.Base.Int.{pos, sub64}
use navmesh_go.Base.Text.{Text, codes, eq_text, trim_space}
use navmesh_go.Base.Map.{get, put, empty}
use navmesh_go.Telemetry.{new_sampler, should_persist, milliseconds}
use navmesh_go.Telemetry.Spacing.{samples, step, run, should_persist_spacing}

abbrev a : Text
a = codes "a"

abbrev second : ℕ
second = 10 ^ 9

refused_test :
    (should_persist a
      (pos 600)
      (pos second)
      (should_persist a (pos 100) (pos second) new_sampler).0).1
    ≡ false
unfolding should_persist milliseconds sub64 new_sampler get put empty eq_text trim_space
refused_test = refl

should_persist_spacing_example : 100 + second / 10 ^ 6 ≤ 1200
unfolding should_persist run step milliseconds sub64 new_sampler get put empty eq_text trim_space
should_persist_spacing_example =
    should_persist_spacing a 100 1200 second second new_sampler
      (samples a (pos 600) (pos second) ∷ []) refl (omega arith) (omega arith) (omega arith)
      (omega arith) (omega arith) refl (inr refl, tt) refl
