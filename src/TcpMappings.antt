-- ===== src/TcpMappings.antt =====
-- services/tcp_mapping_service.go: the TCP mappings and their public ports.
-- The table is a map from the guids to the rows. A port that is less than zero is 0. The settings are
-- arguments, and so is what the database answers when it fails. A call of the service is one step.
pub mod Ports
pub mod Unique
mod Tests
use navmesh_go.Base.{
  ℕ, zero, suc, ◌+◌, ◌-◌, ◌≡◌, Bool, true, false, ◌||◌, ◌&&◌, not, Option, none, some, List, [],
  ◌∷◌, ◌++◌, ◌⊎◌, inl, inr, ltb, leb, ◌==◌, if◌then◌else◌,
}
use navmesh_go.Base.Int.{ℤ, pos, negsuc}
use navmesh_go.Base.Text.{Text, codes, eq_text, is_empty, trim_space}
use navmesh_go.Base.Assoc.{Assoc}
use navmesh_go.Base.Map.{Map, get, put}
use navmesh_go.Domain.{status_disabled, status_enabled}
use navmesh_go.Routes.{normalize_host}

-- domains/tcp_mapping.go
pub record TcpMapping : Type 0 where
  pub device_guid : Text
  pub name : Text
  pub public_host : Text
  pub public_port : ℕ
  pub target_host : Text
  pub target_port : ℕ
  pub remark : Text
  pub status : ℕ
  pub create_time : ℤ
  pub update_time : ℤ

pub record SaveTcpMappingRequest : Type 0 where
  pub guid : Text
  pub device_guid : Text
  pub name : Text
  pub public_host : Text
  pub public_port : ℕ
  pub target_host : Text
  pub target_port : ℕ
  pub remark : Text
  pub status : ℕ

pub record TcpPortRange : Type 0 where
  pub low : ℕ
  pub high : ℕ

pub data SaveError : Type 0 where
  device_guid_required name_required target_host_required bad_target_port device_missing
        query_failed no_port bad_public_port port_outside_range port_exists save_failed :
      SaveError

-- What the rest of the program answers: whether a device exists, the default public host of a name and
-- a port, the guid of a new row, and which of the calls of the database fail.
pub record World : Type 0 where
  pub device_exists : Text → Bool
  pub default_public_host : Text → ℕ → Text
  pub new_guid : Text
  pub now : ℤ
  pub ports_fail : Bool
  pub check_fails : Bool
  pub find_fails : Bool
  pub save_fails : Bool

abbrev pub default_tcp_public_port_min : ℕ
default_tcp_public_port_min = 20000

abbrev pub default_tcp_public_port_max : ℕ
default_tcp_public_port_max = 29999

abbrev pub port_or : ℕ → ℤ → ℕ
port_or def (pos n) = if (n == 0) || ltb 65535 n then def else n
port_or def (negsuc n) = def

-- The range for the two settings.
unfoldable pub tcp_mapping_port_range : (low high : ℤ) → TcpPortRange
tcp_mapping_port_range low high =
    let low' = port_or default_tcp_public_port_min low in
    let high' = port_or default_tcp_public_port_max high in
    if ltb high' low'
    then record { low = default_tcp_public_port_min; high = default_tcp_public_port_max }
    else record { low = low'; high = high' }

unfoldable pub normalize_tcp_mapping_request : SaveTcpMappingRequest → SaveTcpMappingRequest
unfolding normalize_host
normalize_tcp_mapping_request req =
    let target_host = trim_space req.target_host in
    record {
      guid = trim_space req.guid;
      device_guid = trim_space req.device_guid;
      name = trim_space req.name;
      public_host = normalize_host req.public_host;
      public_port = req.public_port;
      target_host = if is_empty target_host then codes "127.0.0.1" else target_host;
      target_port = req.target_port;
      remark = trim_space req.remark;
      status = if req.status == 0 then status_enabled else req.status;
    }

-- Whether an enabled row that is not the one of a guid has a port.
abbrev pub blocks : Text → ℕ → Text × TcpMapping → Bool
blocks current port (guid, row) =
    (row.status == status_enabled)
    && (row.public_port == port)
    && (is_empty (trim_space current) || not (eq_text guid (trim_space current)))

unfoldable pub is_taken : Text → ℕ → Assoc TcpMapping → Bool
is_taken current port [] = false
is_taken current port (e ∷ es) = blocks current port e || is_taken current port es

-- The loop over the ports of the range, with the number that are left.
unfoldable pub next_port : (ℕ → Bool) → ℕ → ℕ → Option ℕ
next_port used zero port = none
next_port used (suc left) port =
    let next = next_port used left (suc port) in if used port then next else some port

unfoldable pub next_available_public_port : Text → TcpPortRange → Assoc TcpMapping → Option ℕ
unfolding next_port is_taken
next_available_public_port current range rows =
    next_port (λ port. is_taken current port rows) (suc range.high - range.low) range.low

unfoldable pub validate_tcp_public_port : ℕ → TcpPortRange → Option SaveError
validate_tcp_public_port port range =
    if (port == 0) || ltb 65535 port
    then some bad_public_port
    else if ltb port range.low || ltb range.high port
    then some port_outside_range
    else none

-- The port of the request, or one that is free.
unfoldable pub choose_port :
    World → TcpPortRange → Assoc TcpMapping → SaveTcpMappingRequest → SaveError ⊎ ℕ
unfolding next_available_public_port
choose_port world range rows req =
    if not (req.public_port == 0)
    then inr req.public_port
    else if world.ports_fail
    then inl query_failed
    else elim (next_available_public_port req.guid range rows) [
      | none ↦ inl no_port
      | some port ↦ inr port
    ]

-- The checks of a port, by ensurePublicPortAvailable if the mapping is not to be disabled.
unfoldable pub check_port :
    World → TcpPortRange → Assoc TcpMapping → SaveTcpMappingRequest → ℕ → Option SaveError
unfolding validate_tcp_public_port is_taken
check_port world range rows req port = elim (validate_tcp_public_port port range) [
  | some e ↦ some e
  | none ↦
      if req.status == status_disabled
      then none
      else if world.check_fails
      then some query_failed
      else if is_taken req.guid port rows
      then some port_exists
      else none
]

-- The first checks of a request.
unfoldable pub check_request : World → SaveTcpMappingRequest → Option SaveError
check_request world req =
    if is_empty req.device_guid
    then some device_guid_required
    else if is_empty req.name
    then some name_required
    else if is_empty req.target_host
    then some target_host_required
    else if (req.target_port == 0) || ltb 65535 req.target_port
    then some bad_target_port
    else if world.device_exists req.device_guid
    then none
    else some device_missing

abbrev created : World → Option TcpMapping → ℤ
created world none = world.now
created world (some row) = row.create_time

unfoldable pub row_of : World → SaveTcpMappingRequest → ℕ → Option TcpMapping → TcpMapping
row_of world req port found = record {
  device_guid = req.device_guid;
  name = req.name;
  public_host =
      if is_empty req.public_host then world.default_public_host req.name port else req.public_host;
  public_port = port;
  target_host = req.target_host;
  target_port = req.target_port;
  remark = req.remark;
  status = req.status;
  create_time = created world found;
  update_time = world.now;
}

abbrev pub Table : Type 0
Table = Map TcpMapping

abbrev pub Saved : Type 0
Saved = Table × (SaveError ⊎ TcpMapping)

-- The row is written; the result is the table with the error or the row.
unfoldable pub write_row : World → SaveTcpMappingRequest → ℕ → Table → Saved
unfolding row_of
write_row world req port rows =
    let row = row_of world req port (get rows req.guid) in
    if world.find_fails
    then (rows, inl query_failed)
    else if world.save_fails
    then (rows, inl save_failed)
    else (put rows (if is_empty req.guid then world.new_guid else req.guid) row, inr row)

abbrev unless : Option SaveError → Table → Saved → Saved
unless none rows saved = saved
unless (some e) rows saved = (rows, inl e)

abbrev with_port : World → TcpPortRange → Table → SaveTcpMappingRequest → SaveError ⊎ ℕ → Saved
with_port world range rows req (inl e) = (rows, inl e)
with_port world range rows req (inr port) =
    unless (check_port world range rows.entries req port) rows (write_row world req port rows)

unfoldable pub save : World → TcpPortRange → SaveTcpMappingRequest → Table → Saved
unfolding normalize_tcp_mapping_request check_request choose_port check_port write_row
save world range req rows =
    let normalized = normalize_tcp_mapping_request req in
    unless (check_request world normalized) rows
      (with_port world range rows normalized (choose_port world range rows.entries normalized))
