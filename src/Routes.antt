-- ===== src/Routes.antt =====
-- httpgateway/route_store.go, httpgateway/lookup.go: the table that finds the device of an HTTP host.
-- The answers of the three queries of a reload are the record `Answers`; none is an error.
pub mod Table
pub mod Reloads
mod Tests
use navmesh_go.Base.{
  ℕ, ◌≡◌, refl, Bool, true, false, ◌||◌, ◌&&◌, not, Option, none, some, List, [], ◌∷◌,
  if◌then◌else◌,
}
use navmesh_go.Base.Int.{ℤ, pos}
use navmesh_go.Base.Text.{Text, codes, eq_text, is_empty, trim_space, trim_set, to_lower, member}
use navmesh_go.Base.Map.{Map, empty, get, put, size}
use navmesh_go.Base.Net.{split_host_port}
use navmesh_go.Domain.{Device, PortMapping, AccessPolicy}

pub record CachedRoute : Type 0 where
  pub mapping : PortMapping
  pub device : Device
  pub allow_http : Bool

pub record RouteSnapshot : Type 0 where
  pub version : ℤ
  pub by_host : Map CachedRoute

-- The snapshot is missing before the first reload.
pub record RouteStore : Type 0 where
  pub current : Option RouteSnapshot

pub record RouteStoreStats : Type 0 where
  pub ready : Bool
  pub version : ℤ
  pub routes : ℕ

abbrev host_part : Text → Option (Text × Text) → Text
host_part host none = trim_set host (codes "[]")
host_part host (some (h, port)) = h

unfoldable pub normalize_host : Text → Text
unfolding split_host_port trim_set
normalize_host value =
    let host = trim_space (to_lower value) in host_part host (split_host_port host)

unfoldable pub route_policy_applies : AccessPolicy → Device → PortMapping → Bool
route_policy_applies policy device mapping =
    let scope = to_lower (trim_space policy.scope) in
    let target = trim_space policy.target_id in
    if eq_text scope (codes "global")
    then true
    else if eq_text scope (codes "device")
    then eq_text target device.guid
    else if eq_text scope (codes "group")
    then not (is_empty target)
      && (eq_text target (trim_space device.group_guid)
          || eq_text target (trim_space device.device_type))
    else if eq_text scope (codes "mapping")
    then eq_text target mapping.guid
    else false

unfoldable pub route_allows_from : Bool → Device → PortMapping → List AccessPolicy → Bool
unfolding route_policy_applies
route_allows_from allowed device mapping [] = allowed
route_allows_from allowed device mapping (policy ∷ rest) =
    route_allows_from
      (if route_policy_applies policy device mapping then allowed && policy.allow_http else allowed)
      device mapping rest

unfoldable pub route_allows_http : Device → PortMapping → List AccessPolicy → Bool
unfolding route_allows_from
route_allows_http device mapping policies = route_allows_from true device mapping policies

unfoldable pub is_http : PortMapping → Bool
is_http mapping =
    is_empty mapping.protocol
    || eq_text mapping.protocol (codes "http")
    || eq_text mapping.protocol (codes "https")

-- The guids of the devices of the HTTP mappings, each once, in order.
unfoldable pub device_ids : List Text → List PortMapping → List Text
unfolding is_http
device_ids seen [] = []
device_ids seen (mapping ∷ rest) =
    let skipped = device_ids seen rest in
    let taken = mapping.device_guid ∷ device_ids (mapping.device_guid ∷ seen) rest in
    if is_http mapping then if member mapping.device_guid seen then skipped else taken else skipped

-- deviceByID
unfoldable pub add_devices : Map Device → List Device → Map Device
add_devices m [] = m
add_devices m (device ∷ rest) = add_devices (put m device.guid device) rest

-- One round of the loop over the mappings, with the device that was looked up.
unfoldable pub add_route :
    List AccessPolicy → PortMapping → Option Device → Map CachedRoute → Map CachedRoute
unfolding is_http normalize_host route_allows_http
add_route policies mapping none routes = routes
add_route policies mapping (some device) routes =
    let host = normalize_host mapping.public_host in
    if is_http mapping
    then if is_empty host
      then routes
      else put routes host (record {
        mapping = mapping;
        device = device;
        allow_http = route_allows_http device mapping policies;
      })
    else routes

unfoldable pub add_routes :
    List AccessPolicy → Map Device → List PortMapping → Map CachedRoute → Map CachedRoute
unfolding add_route
add_routes policies devices [] routes = routes
add_routes policies devices (mapping ∷ rest) routes =
    add_routes policies devices rest
      (add_route policies mapping (get devices mapping.device_guid) routes)

-- The queries: the enabled mappings, the devices with some guids that are not disabled, the enabled
-- policies.
pub record Answers : Type 0 where
  pub mappings : Option (List PortMapping)
  pub devices : List Text → Option (List Device)
  pub policies : Option (List AccessPolicy)

-- `if len(deviceIDs) > 0`: without guids there is no query.
unfoldable pub find_devices : Answers → List Text → Option (List Device)
find_devices a [] = some []
find_devices a (guid ∷ rest) = a.devices (guid ∷ rest)

unfoldable pub routes_of :
    List PortMapping → Option (List Device) → Option (List AccessPolicy) → Option (Map CachedRoute)
unfolding add_routes add_devices
routes_of mappings none policies = none
routes_of mappings (some devices) none = none
routes_of mappings (some devices) (some policies) =
    some (add_routes policies (add_devices empty devices) mappings empty)

unfoldable pub load : Answers → Option (List PortMapping) → Option (Map CachedRoute)
unfolding routes_of find_devices device_ids
load a none = none
load a (some mappings) = routes_of mappings (find_devices a (device_ids [] mappings)) a.policies

unfoldable pub store_routes : ℤ → Option (Map CachedRoute) → RouteStore → RouteStore × Bool
store_routes now none s = (s, false)
store_routes now (some routes) s =
    (record { current = some record { version = now; by_host = routes } }, true)

-- The store, and whether the error is nil.
unfoldable pub reload : ℤ → Answers → RouteStore → RouteStore × Bool
unfolding store_routes load
reload now a s = store_routes now (load a a.mappings) s

abbrev snapshot_get : Option RouteSnapshot → Text → Option CachedRoute
snapshot_get none host = none
snapshot_get (some snapshot) host = get snapshot.by_host host

unfoldable pub lookup_route : Text → RouteStore → Option CachedRoute
unfolding normalize_host
lookup_route host s = snapshot_get s.current (normalize_host host)

abbrev snapshot_stats : Option RouteSnapshot → RouteStoreStats
snapshot_stats none = record { ready = false; version = pos 0; routes = 0 }
snapshot_stats (some snapshot) = record {
  ready = true;
  version = snapshot.version;
  routes = size snapshot.by_host;
}

unfoldable pub stats : RouteStore → RouteStoreStats
stats s = snapshot_stats s.current
