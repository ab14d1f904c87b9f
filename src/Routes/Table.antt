-- ===== src/Routes/Table.antt =====
-- What a reload puts into the table.
use navmesh_go.Base.{
  ◌≡◌, ◌∙◌, sym, refl, ap, true, false, Option, none, some, List, [], ◌∷◌, inl, inr, if◌then◌else◌,
  Bool-cases, Option-cases,
}
use navmesh_go.Base.Int.{ℤ}
use navmesh_go.Base.Text.{Text, eq_text, is_empty}
use navmesh_go.Base.Map.{Map, empty, get, get-put, get-empty}
use navmesh_go.Domain.{Device, PortMapping, AccessPolicy}
use navmesh_go.Routes.{
  CachedRoute, RouteStore, normalize_host, is_http, route_allows_http, add_route, add_routes,
  Answers, routes_of, load, store_routes, reload, lookup_route, add_devices, find_devices,
  device_ids,
}

abbrev or_route : Option CachedRoute → Option CachedRoute → Option CachedRoute
or_route none o = o
or_route (some r) o = some r

-- The route of one mapping for a host, if it serves it.
abbrev pub route_for : List AccessPolicy → Text → PortMapping → Option Device → Option CachedRoute
route_for policies host mapping none = none
route_for policies host mapping (some device) =
    let own = normalize_host mapping.public_host in
    let route : CachedRoute = record {
      mapping = mapping;
      device = device;
      allow_http = route_allows_http device mapping policies;
    } in
    if is_http mapping
    then if is_empty own then none else if eq_text own host then some route else none
    else none

-- The last of the mappings that serves a host decides.
abbrev pub last_route :
    List AccessPolicy → (Text → Option Device) → Text → List PortMapping → Option CachedRoute
last_route policies device_of host [] = none
last_route policies device_of host (mapping ∷ rest) =
    or_route (last_route policies device_of host rest)
      (route_for policies host mapping (device_of mapping.device_guid))

add_route-get :
    (policies : List AccessPolicy) (mapping : PortMapping) (o : Option Device)
    (routes : Map CachedRoute) (host : Text)
    → get (add_route policies mapping o routes) host
      ≡ or_route (route_for policies host mapping o) (get routes host)
unfolding add_route
add_route-get policies mapping none routes host = refl
add_route-get policies mapping (some device) routes host =
    let own = normalize_host mapping.public_host in
    elim (Bool-cases (is_http mapping)) [
      | inl http ↦ elim (Bool-cases (is_empty own)) [
        | inl bare ↦ rw (http, bare) refl
        | inr named ↦ elim (Bool-cases (eq_text own host)) [
          | inl here ↦ rw (http, named, here) (get-put routes own host _ ∙ rw here refl)
          | inr other ↦ rw (http, named, other) (get-put routes own host _ ∙ rw other refl)
        ]
      ]
      | inr other ↦ rw other refl
    ]

or_route_assoc :
    (a b c : Option CachedRoute) → or_route a (or_route b c) ≡ or_route (or_route a b) c
or_route_assoc none b c = refl
or_route_assoc (some r) b c = refl

or_route-none : (a : Option CachedRoute) → or_route a none ≡ a
or_route-none none = refl
or_route-none (some r) = refl

add_routes-get :
    (policies : List AccessPolicy) (devices : Map Device) (mappings : List PortMapping)
    (routes : Map CachedRoute) (host : Text)
    → get (add_routes policies devices mappings routes) host
      ≡ or_route (last_route policies (get devices) host mappings) (get routes host)
unfolding add_routes
add_routes-get policies devices [] routes host = refl
add_routes-get policies devices (mapping ∷ rest) routes host =
    let o = get devices mapping.device_guid in
    add_routes-get policies devices rest (add_route policies mapping o routes) host
    ∙ ap (or_route (last_route policies (get devices) host rest))
        (add_route-get policies mapping o routes host)
    ∙ or_route_assoc (last_route policies (get devices) host rest)
        (route_for policies host mapping o) (get routes host)

-- After a reload whose queries succeed, Lookup finds for a host the route of the last mapping that
-- serves it, with its device and what the policies allow; and nothing if no mapping serves it.
pub lookup_route-reload :
    (now : ℤ) (a : Answers) (s : RouteStore) (host : Text) (mappings : List PortMapping)
    (devices : List Device) (policies : List AccessPolicy)
    → a.mappings ≡ some mappings
    → find_devices a (device_ids [] mappings) ≡ some devices
    → a.policies ≡ some policies
    → lookup_route host (reload now a s).0
      ≡ last_route policies (get (add_devices empty devices)) (normalize_host host) mappings
unfolding lookup_route reload load routes_of store_routes
lookup_route-reload now a s host mappings devices policies em ed ep =
    rw (em, ed, ep)
      (add_routes-get policies (add_devices empty devices) mappings empty (normalize_host host)
        ∙ ap
            (or_route (
              last_route policies (get (add_devices empty devices)) (normalize_host host) mappings))
            (get-empty {V = CachedRoute} (normalize_host host))
        ∙ or_route-none _)

-- A reload that returns an error leaves the table as it is.
pub reload_error :
    (now : ℤ) (a : Answers) (s : RouteStore) → (reload now a s).1 ≡ false → (reload now a s).0 ≡ s
unfolding reload store_routes
reload_error now a s h = elim (Option-cases (load a a.mappings)) [
  | inl e ↦ rw e refl
  | inr (routes, e) ↦
      let h' : true ≡ false = sym (ap (λ o. (store_routes now o s).1) e) ∙ h in absurd cc
]
