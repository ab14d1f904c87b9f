-- ===== src/Tunnel/Server.antt =====
-- tunnel/server.go: what the server does with the first frame of a connection and those that follow.
-- `Authenticate` is DeviceService.Authenticate, with the message of an error or the device as the manager
-- notes it. The goroutines of the connections are one list of events. Replies that cannot be written are
-- ignored by the code, and so they are here.
pub mod Admitted
use navmesh_go.Base.{
  ℕ, ◌≡◌, ◌∙◌, sym, refl, ap, subst, Bool, true, false, ◌||◌, ◌&&◌, not, Option, none, some, List,
  [], ◌∷◌, ◌⊎◌, inl, inr, arith, if◌then◌else◌, on_if, Bool-cases, ltb, length,
}
use navmesh_go.Base.Int.{ℤ, pos}
use navmesh_go.Base.Text.{Text, codes, eq_text, eq_text_iff, is_empty, trim_space}
use navmesh_go.Base.Map.{Map, empty, get, put, delete, get-put, get-delete}
use navmesh_go.Tunnel.{
  DeviceConnectionInfo, DeviceConnection, Manager, Role, legacy_role, control_role, data_role,
  new_manager, join_quic_data, register_quic, join_tcp_data, register_tcp, replace, unregister,
  unregister_if, unregister_quic_control, unregister_tcp_control, leave_item, drop_data,
  unregister_quic_data, close_device, touch, touch_item, is_item, is_conn, tcp_data_size,
  item_or_fresh,
}
use navmesh_go.Tunnel.Frame.{Frame, Json, Read, read_frame}

abbrev pub role_of : Text → Role
role_of role =
    if eq_text role (codes "data")
    then data_role
    else if is_empty role
    then legacy_role
    else control_role

abbrev pub Authenticate : Type 0
Authenticate = Frame → Text ⊎ DeviceConnectionInfo

abbrev pub reply :
    (frame_type : Text) → Bool → (request_id device_guid sn_code message : Text) → Frame
reply frame_type ok request_id device_guid sn_code message = record {
  frame_type = frame_type;
  role = [];
  transport = [];
  request_id = request_id;
  token = [];
  device_guid = device_guid;
  sn_code = sn_code;
  host_ip = [];
  wan_ip = [];
  hostname = [];
  client_version = [];
  target_host = [];
  target_port = pos 0;
  service_name = [];
  tail = pos 0;
  ok = ok;
  message = message;
}

-- What follows the first frame: the connection is closed, or serves a device.
pub data Session : Type 0 where
  closed : Session
  serves : DeviceConnectionInfo → Role → Session

pub record Answer : Type 0 where
  pub manager : Manager
  pub frame : Frame
  pub session : Session

unfoldable pub refuse : Manager → Text → Answer
refuse m message = record {
  manager = m;
  frame = reply (codes "error") false [] [] [] message;
  session = closed;
}

abbrev pub admit :
    (DeviceConnectionInfo → Role → Manager → Manager)
    → Role
    → Manager
    → Text ⊎ DeviceConnectionInfo
    → Answer
admit register role m (inl message) = refuse m message
admit register role m (inr info) = record {
  manager = register info role m;
  frame = reply (codes "hello_ack") true [] info.device_guid info.sn_code [];
  session = serves info role;
}

-- The first frame, which is to be a hello that Authenticate accepts.
unfoldable pub on_hello :
    Authenticate → (DeviceConnectionInfo → Role → Manager → Manager) → Manager → Read Frame → Answer
unfolding refuse
on_hello authenticate register m (inl e) = refuse m (codes "hello required")
on_hello authenticate register m (inr (frame, rest)) =
    if eq_text frame.frame_type (codes "hello")
    then admit register (role_of frame.role) m (authenticate frame)
    else refuse m (codes "hello required")

unfoldable pub handle_connection : Json → Authenticate → ℕ → List ℕ → Manager → Answer
unfolding on_hello register_quic
handle_connection json authenticate conn input m =
    on_hello authenticate (λ info role. register_quic info conn role) m
      (read_frame json false input)

unfoldable pub handle_tcp_connection : Json → Authenticate → ℕ → List ℕ → Manager → Answer
unfolding on_hello register_tcp
handle_tcp_connection json authenticate conn input m =
    on_hello authenticate (λ info role. register_tcp info conn role) m (read_frame json true input)

abbrev pub is_beat : Frame → Bool
is_beat frame =
    eq_text frame.frame_type (codes "heartbeat") || eq_text frame.frame_type (codes "ping")

-- A later frame of a TCP control connection.
unfoldable pub serve_frame : Text → ℤ → Frame → Manager → Manager × Frame
unfolding touch
serve_frame guid now frame m = (
  touch guid now m,
  if is_beat frame
      then reply (codes "pong") true frame.request_id [] [] []
      else reply (codes "error") false frame.request_id [] [] (codes "unsupported frame type"),
)

-- The first frame of a later QUIC stream.
unfoldable pub handle_stream : Text → ℤ → Frame → Manager → Manager × Frame
unfolding serve_frame
handle_stream guid now frame m =
    if not (is_beat frame) && eq_text frame.frame_type (codes "open_tcp_ack")
    then (touch guid now m, reply (codes "open_tcp_ack") true frame.request_id [] [] [])
    else serve_frame guid now frame m

-- What the goroutine of a session does at its end.
unfoldable pub end_quic : DeviceConnectionInfo → Role → ℕ → Manager → Manager
unfolding unregister_quic_data unregister_quic_control
end_quic info data_role conn m = unregister_quic_data info.device_guid conn m
end_quic info control_role conn m = (unregister_quic_control info.device_guid conn m).0
end_quic info legacy_role conn m = (unregister_quic_control info.device_guid conn m).0

unfoldable pub end_tcp : DeviceConnectionInfo → Role → ℕ → Manager → Manager
unfolding unregister_tcp_control
end_tcp info data_role conn m = m
end_tcp info control_role conn m = (unregister_tcp_control info.device_guid conn m).0
end_tcp info legacy_role conn m = (unregister_tcp_control info.device_guid conn m).0

-- A new connection with the bytes that it sends, a later frame, the end of a session, and CloseDevice.
pub data Event : Type 0 where
  quic_hello tcp_hello : ℕ → List ℕ → Event
  served streamed : Text → ℤ → Frame → Event
  quic_ended tcp_ended : DeviceConnectionInfo → Role → ℕ → Event
  closing : Text → Event

unfoldable pub on_event : Json → Authenticate → Manager → Event → Manager
unfolding handle_connection handle_tcp_connection serve_frame handle_stream end_quic end_tcp
    close_device
on_event json authenticate m (quic_hello conn input) =
    (handle_connection json authenticate conn input m).manager
on_event json authenticate m (tcp_hello conn input) =
    (handle_tcp_connection json authenticate conn input m).manager
on_event json authenticate m (served guid now frame) = (serve_frame guid now frame m).0
on_event json authenticate m (streamed guid now frame) = (handle_stream guid now frame m).0
on_event json authenticate m (quic_ended info role conn) = end_quic info role conn m
on_event json authenticate m (tcp_ended info role conn) = end_tcp info role conn m
on_event json authenticate m (closing guid) = (close_device guid m).0

unfoldable pub run : Json → Authenticate → Manager → List Event → Manager
unfolding on_event
run json authenticate m [] = m
run json authenticate m (e ∷ es) = run json authenticate (on_event json authenticate m e) es
