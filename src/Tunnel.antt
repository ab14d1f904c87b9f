-- ===== src/Tunnel.antt =====
-- tunnel/manager.go: the connections of the devices that are online.
-- A connection is a number, the same for the same connection. The map holds pointers, so an item has
-- a number of its own, taken from `next_id`. `closed` collects the connections that the manager has
-- closed, in order, and `taken` the TCP data connections that it has handed to a stream; the code keeps
-- neither. The rows of the connections in the database are not modelled, nor is the activity sink that
-- Touch tells of the time.
pub mod Frame
pub mod Server
pub mod Streams
pub mod Steps
pub mod Kept
pub mod Current
mod Tests
use navmesh_go.Base.{
  ℕ, suc, ◌+◌, ◌≡◌, refl, Bool, true, false, ◌||◌, ◌&&◌, Option, none, some, List, [], ◌∷◌, ◌++◌,
  ◌==◌, if◌then◌else◌, ltb, length,
}
use navmesh_go.Base.Int.{ℤ}
use navmesh_go.Base.Text.{Text, codes, is_empty, trim_space}
use navmesh_go.Base.Assoc.{Assoc}
use navmesh_go.Base.Map.{Map, empty, get, put, delete}

pub record DeviceConnectionInfo : Type 0 where
  pub device_guid : Text
  pub sn_code : Text
  pub alias : Text
  pub remote_addr : Text
  pub connected_time : ℤ
  pub last_active_time : ℤ

pub record DeviceConnection : Type 0 where
  pub id : ℕ
  pub info : DeviceConnectionInfo
  pub control : Option ℕ
  pub data_conn : Option ℕ
  pub tcp_control : Option ℕ
  pub tcp_data : List ℕ

pub record Manager : Type 0 where
  pub connections : Map DeviceConnection
  pub next_id : ℕ
  pub closed : List ℕ
  pub taken : List ℕ

pub data Role : Type 0 where
  legacy_role control_role data_role : Role

abbrev pub tcp_data_size : ℕ
tcp_data_size = 64

unfoldable pub new_manager : Manager
unfolding empty
new_manager = record { connections = empty; next_id = 0; closed = []; taken = [] }

abbrev pub to_list : Option ℕ → List ℕ
to_list none = []
to_list (some c) = c ∷ []

abbrev pub is_conn : ℕ → Option ℕ → Bool
is_conn c none = false
is_conn c (some d) = d == c

-- The data connection, unless it is the control connection too.
abbrev pub own_data : Option ℕ → Option ℕ → List ℕ
own_data control none = []
own_data control (some d) = if is_conn d control then [] else d ∷ []

-- What closeDeviceItem closes.
unfoldable pub close_device_item : Option DeviceConnection → List ℕ
close_device_item none = []
close_device_item (some item) =
    to_list item.control
    ++ (own_data item.control item.data_conn ++ (to_list item.tcp_control ++ item.tcp_data))

abbrev pub close_conns : List ℕ → Manager → Manager
close_conns conns m = record m { closed = conns ++ m.closed }

abbrev pub put_item : Text → DeviceConnection → Manager → Manager
put_item guid item m = record m {
  connections = put m.connections guid item;
  next_id = suc m.next_id;
}

unfoldable pub fresh_item : DeviceConnectionInfo → Manager → DeviceConnection
fresh_item info m = record {
  id = m.next_id;
  info = info;
  control = none;
  data_conn = none;
  tcp_control = none;
  tcp_data = [];
}

-- The item that a data connection joins.
unfoldable pub item_or_fresh :
    DeviceConnectionInfo → Manager → Option DeviceConnection → DeviceConnection
unfolding fresh_item
item_or_fresh info m none = fresh_item info m
item_or_fresh info m (some item) = record item { info = info }

abbrev pub replaced_data : ℕ → DeviceConnection → List ℕ
replaced_data conn item =
    if is_conn conn item.data_conn then [] else own_data item.control item.data_conn

unfoldable pub join_quic_data : DeviceConnectionInfo → ℕ → Manager → Manager
unfolding item_or_fresh
join_quic_data info conn m =
    let item = item_or_fresh info m (get m.connections info.device_guid) in
    close_conns (replaced_data conn item)
      (put_item info.device_guid (record item { data_conn = some conn }) m)

-- A new item takes the place of the one that was there, which is closed.
unfoldable pub replace : Text → DeviceConnection → Manager → Manager
unfolding close_device_item
replace guid item m =
    close_conns (close_device_item (get m.connections guid)) (put_item guid item m)

unfoldable pub register_quic : DeviceConnectionInfo → ℕ → Role → Manager → Manager
unfolding join_quic_data replace fresh_item
register_quic info conn data_role m = join_quic_data info conn m
register_quic info conn control_role m =
    replace info.device_guid (record (fresh_item info m) { control = some conn }) m
register_quic info conn legacy_role m =
    replace info.device_guid
      (record (fresh_item info m) { control = some conn; data_conn = some conn }) m

-- A full channel takes no further connection, which is closed.
unfoldable pub join_tcp_data : DeviceConnectionInfo → ℕ → Manager → Manager
unfolding item_or_fresh
join_tcp_data info conn m =
    let item = item_or_fresh info m (get m.connections info.device_guid) in
    if ltb (length item.tcp_data) tcp_data_size
    then put_item info.device_guid (record item { tcp_data = item.tcp_data ++ (conn ∷ []) }) m
    else close_conns (conn ∷ []) (put_item info.device_guid item m)

unfoldable pub register_tcp : DeviceConnectionInfo → ℕ → Role → Manager → Manager
unfolding join_tcp_data replace fresh_item
register_tcp info conn data_role m = join_tcp_data info conn m
register_tcp info conn control_role m =
    replace info.device_guid (record (fresh_item info m) { tcp_control = some conn }) m
register_tcp info conn legacy_role m =
    replace info.device_guid (record (fresh_item info m) { tcp_control = some conn }) m

unfoldable pub unregister : Text → Manager → Manager
unfolding close_device_item
unregister guid m =
    close_conns (close_device_item (get m.connections guid))
      (record m { connections = delete m.connections guid })

abbrev pub is_item : (DeviceConnection → Bool) → Option DeviceConnection → Bool
is_item test none = false
is_item test (some item) = test item

-- Whether the item was the expected one and is gone.
unfoldable pub unregister_if : (DeviceConnection → Bool) → Text → Manager → Manager × Bool
unfolding unregister
unregister_if test guid m =
    if is_item test (get m.connections guid) then (unregister guid m, true) else (m, false)

unfoldable pub unregister_quic_control : Text → ℕ → Manager → Manager × Bool
unfolding unregister_if
unregister_quic_control guid conn m =
    if is_empty (trim_space guid)
    then (m, false)
    else unregister_if (λ item. is_conn conn item.control) guid m

unfoldable pub unregister_tcp_control : Text → ℕ → Manager → Manager × Bool
unfolding unregister_if
unregister_tcp_control guid conn m =
    if is_empty (trim_space guid)
    then (m, false)
    else unregister_if (λ item. is_conn conn item.tcp_control) guid m

-- An item without its data connection; the two options are its control connections, and without
-- them the item goes.
unfoldable pub drop_data :
    Text → DeviceConnection → Option ℕ → Option ℕ → Map DeviceConnection → Map DeviceConnection
drop_data guid item none none conns = delete conns guid
drop_data guid item none (some c) conns = put conns guid (record item { data_conn = none })
drop_data guid item (some c) t conns = put conns guid (record item { data_conn = none })

-- A data connection that has ended leaves its item.
unfoldable pub leave_item : Text → ℕ → Option DeviceConnection → Manager → Manager
unfolding drop_data
leave_item guid conn none m = m
leave_item guid conn (some item) m =
    if is_conn conn item.data_conn
    then record m { connections = drop_data guid item item.control item.tcp_control m.connections }
    else m

unfoldable pub unregister_quic_data : Text → ℕ → Manager → Manager
unfolding leave_item
unregister_quic_data guid conn m =
    let trimmed = trim_space guid in
    if is_empty trimmed then m else leave_item trimmed conn (get m.connections trimmed) m

unfoldable pub close_device : Text → Manager → Manager × Bool
unfolding unregister_if
close_device guid m =
    let trimmed = trim_space guid in
    if is_empty trimmed then (m, false) else unregister_if (λ item. true) trimmed m

unfoldable pub close_device_if_current : Text → ℕ → Manager → Manager × Bool
unfolding unregister_if
close_device_if_current guid expected m =
    let trimmed = trim_space guid in
    if is_empty trimmed then (m, false) else unregister_if (λ item. item.id == expected) trimmed m

abbrev touch_item : Text → ℤ → Option DeviceConnection → Manager → Manager
touch_item guid now none m = m
touch_item guid now (some item) m = record m {
  connections =
      put m.connections guid (record item { info = record item.info { last_active_time = now } });
}

unfoldable pub touch : Text → ℤ → Manager → Manager
touch guid now m = touch_item guid now (get m.connections guid) m

unfoldable pub is_online : Text → Manager → Bool
is_online guid m = is_item (λ item. true) (get m.connections guid)

-- What closeDeviceItem closes of each item of the map.
unfoldable pub close_items : Assoc DeviceConnection → List ℕ
unfolding close_device_item
close_items [] = []
close_items ((guid, item) ∷ rest) = close_device_item (some item) ++ close_items rest

unfoldable pub close_all : Manager → Manager
unfolding close_items empty
close_all m = close_conns (close_items m.connections.entries) (record m { connections = empty })
