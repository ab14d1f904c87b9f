-- ===== src/Policy/Tests.antt =====
-- Tests of the session limits, and the theorems of Rate and Permits at concrete inputs.
use navmesh_go.Base.{◌+◌, ◌*◌, ◌≤◌, ◌≡◌, refl, List, [], ◌∷◌, arith, length, keep}
use navmesh_go.Base.Int.{pos}
use navmesh_go.Base.Text.{Text, codes}
use navmesh_go.Policy.{RuntimeSettings, is_fresh, new_runtime_policy, minute, second}
use navmesh_go.Policy.Rate.{passed, passed-few}
use navmesh_go.Policy.Rate
use navmesh_go.Policy.Permits
use navmesh_go.Policy.Permits.{run, start, of_device, run-start_counts, run-start_limits}

abbrev limits : RuntimeSettings
limits = record {
  max_concurrent_sessions = pos 2;
  max_device_sessions = pos 1;
  rate_limit_per_minute = pos 2;
  session_idle_timeout = pos minute;
}

abbrev ip : Text
ip = codes "10.0.0.1"

abbrev traffic : List Rate.Call
traffic =
    Rate.acquires (100 * minute) (codes "d") ip
    ∷ Rate.acquires (100 * minute + second) (codes "e") ip
    ∷ Rate.acquires (100 * minute + 2 * second) (codes "f") ip
    ∷ []

abbrev schedule : List Permits.Call
schedule =
    Permits.acquires limits (100 * minute) (codes "d") ip
    ∷ Permits.acquires limits (100 * minute + second) (codes "d") ip
    ∷ Permits.releases 0
    ∷ []

passed-few_example :
    length (keep (is_fresh (101 * minute)) (passed ip limits new_runtime_policy traffic)) ≤ 2
passed-few_example =
    passed-few limits 2 refl (omega arith) ip refl (101 * minute) traffic (omega arith)

run-start_counts_example : (run start schedule).policy.total ≡ length (run start schedule).held
run-start_counts_example = (run-start_counts schedule).0

run-start_limits_example : length (run start schedule).held ≤ 2
run-start_limits_example =
    (run-start_limits 2 1 (omega arith) (omega arith) schedule (ground arith)).0
