-- ===== src/Routes/Tests.antt =====
-- The routes at concrete inputs.
use navmesh_go.Base.{◌≡◌, refl, true, false, none, some, List, [], ◌∷◌, inl}
use navmesh_go.Base.Int.{pos}
use navmesh_go.Base.Text.{Text, codes, eq_text, trim_space, to_lower, member}
use navmesh_go.Base.Map.{empty, get, put}
use navmesh_go.Domain.{Device, PortMapping, AccessPolicy}
use navmesh_go.Routes.{
  RouteStore, Answers, reload, lookup_route, normalize_host, add_devices, device_ids, find_devices,
}
use navmesh_go.Routes.Table.{last_route, lookup_route-reload}
use navmesh_go.Routes.Reloads.{
  Reloader, Safe, Event, idle, request, wake, elapse, done, cancel, quit, run_events,
  run_events-Safe, run_events-covered,
}

abbrev device : Device
device = record {
  guid = codes "d1";
  device_type = codes "box";
  client_version = codes "1.0.0";
  os = codes "linux";
  arch = codes "amd64";
  group_guid = codes "g1";
  status = 2;
}

abbrev mapping_of : Text → Text → PortMapping
mapping_of guid host = record {
  guid = guid;
  device_guid = codes "d1";
  name = codes "web";
  public_host = host;
  target_host = codes "127.0.0.1";
  target_port = pos 80;
  protocol = codes "http";
  is_custom_domain = false;
  status = 1;
}

abbrev policy : AccessPolicy
policy = record {
  guid = codes "p1";
  name = codes "no web";
  scope = codes "group";
  target_id = codes "g1";
  allow_ssh = true;
  allow_http = false;
  allow_tcp = true;
  status = 1;
}

abbrev mappings : List PortMapping
mappings =
    mapping_of (codes "m1") (codes "A.example") ∷ mapping_of (codes "m2") (codes "a.example") ∷ []

unfoldable answers : Answers
answers = record {
  mappings = some mappings;
  devices = λ guids. some (device ∷ []);
  policies = some (policy ∷ []);
}

abbrev no_routes : RouteStore
no_routes = record { current = none }

-- The port and the case of the letters do not matter, and the later mapping wins.
lookup_route_test :
    lookup_route (codes "A.Example:443") (reload (pos 7) answers no_routes).0
    ≡ some record {
      mapping = mapping_of (codes "m2") (codes "a.example");
      device = device;
      allow_http = false;
    }
unfolding lookup_route reload answers eq_text member get put trim_space to_lower
lookup_route_test = refl

lookup_route-reload_example :
    lookup_route (codes "A.Example:443") (reload (pos 7) answers no_routes).0
    ≡ last_route
        (policy ∷ [])
        (get (add_devices empty (device ∷ [])))
        (normalize_host (codes "A.Example:443"))
        mappings
unfolding answers find_devices device_ids eq_text member
lookup_route-reload_example =
    lookup_route-reload (pos 7) answers no_routes (codes "A.Example:443") mappings (device ∷ [])
      (policy ∷ []) refl refl refl

unfoldable failing : Answers
failing = record { mappings = some mappings; devices = λ guids. none; policies = some [] }

abbrev start : Reloader
start = record { token = false; phase = idle; cancelled = false; covered = true }

start-Safe : Safe start
start-Safe = record { pending = λ going missed. absurd cc; returned = λ e. cc }

abbrev es : List Event
es = request ∷ wake ∷ request ∷ elapse ∷ request ∷ done ∷ wake ∷ cancel ∷ quit ∷ request ∷ []

run_events-Safe_example : Safe (run_events es start)
run_events-Safe_example = run_events-Safe es start start-Safe

abbrev asked : Reloader
asked = record { token = true; phase = idle; cancelled = false; covered = false }

asked-Safe : Safe asked
asked-Safe = record { pending = λ going missed. inl refl; returned = λ e. cc }

run_events-covered_example : (run_events (elapse ∷ done ∷ wake ∷ elapse ∷ []) asked).covered ≡ true
run_events-covered_example = run_events-covered asked asked-Safe (λ e. cc)
