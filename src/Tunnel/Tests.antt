-- ===== src/Tunnel/Tests.antt =====
-- The manager of the tunnels at concrete inputs.
use navmesh_go.Base.{
  ◌||◌, ℕ, ◌≡◌, ◌==◌, refl, true, false, Option, none, some, List, [], ◌∷◌, ◌++◌, ◌⊎◌, inl, inr,
  sym, ap, on_if, if◌then◌else◌, arith,
}
use navmesh_go.Base.Int.{pos}
use navmesh_go.Base.Text.{Text, codes, eq_text, has_prefix, trim_right, trim_space}
use navmesh_go.Base.Map.{get, put, delete}
use navmesh_go.Tunnel.{
  DeviceConnectionInfo, Manager, legacy_role, control_role, data_role, new_manager, register_quic,
  unregister_quic_control, replace, fresh_item, is_online, close_all,
}
use navmesh_go.Tunnel.Streams.{Opening}
use navmesh_go.Tunnel.Steps.{
  Op, quic, tcp, quic_control_gone, quic_data_gone, closing, touching, opening, closing_all, step,
  run,
}
use navmesh_go.Tunnel.Frame.{Frame, Json, read_frame}
use navmesh_go.Tunnel.Server.{Authenticate, Event, tcp_hello, served}
use navmesh_go.Tunnel.Server
use navmesh_go.Tunnel.Server.Admitted.{online-admitted}
use navmesh_go.Tunnel.Frame.RoundTrip.{encode_all, read_all, read_all-encode_all}
use navmesh_go.Tunnel.Kept.{kept, has}
use navmesh_go.Tunnel.Kept.Shutdown.{close_all-run}
use navmesh_go.Tunnel.Kept.Run.{run-kept}
use navmesh_go.Tunnel.Current.{unregister-register_quic}

abbrev info : DeviceConnectionInfo
info = record {
  device_guid = codes "d1";
  sn_code = codes "sn1";
  alias = codes "one";
  remote_addr = codes "10.0.0.1:7000";
  connected_time = pos 5;
  last_active_time = pos 5;
}

-- The device answers the frames on a TCP data connection with an error, or accepts them.
abbrev opened : Option Text → Opening
opened exchange = record {
  context_ended = false;
  context_error = [];
  exchange = exchange;
  quic = none;
  now = pos 6;
}

abbrev ops : List Op
ops =
    tcp info 2 data_role
    ∷ tcp info 5 data_role
    ∷ opening (codes "d1") (opened none)
    ∷ opening (codes "d1") (opened (some (codes "refused")))
    ∷ quic_control_gone (codes "d1") 9
    ∷ quic info 3 control_role
    ∷ touching (codes "d1") (pos 8)
    ∷ closing (codes " d1 ")
    ∷ tcp info 6 data_role
    ∷ closing_all
    ∷ []

abbrev one : Manager
one = register_quic info 1 legacy_role new_manager

-- A connection whose stream is refused is closed, the first ones when the device connects again, then
-- one by CloseDevice and one by CloseAll. One is in the hands of a stream.
closed_test : (run one ops).closed ≡ 6 ∷ 3 ∷ 1 ∷ 5 ∷ []
unfolding run trim_space get put eq_text new_manager delete
closed_test = refl

taken_test : (run one ops).taken ≡ 2 ∷ []
unfolding run trim_space get put eq_text new_manager delete
taken_test = refl

-- A TCP data connection that waits in an item without control is forgotten with the item.
forgotten_test :
    kept (codes "d1") 2 (
      run new_manager
        (tcp info 2 data_role ∷ quic info 3 data_role ∷ quic_data_gone (codes "d1") 3 ∷ []))
    ≡ false
unfolding run trim_space get put delete eq_text new_manager
forgotten_test = refl

run-kept_example : kept (codes "d1") 1 (run one ops) ≡ true
unfolding new_manager register_quic replace get put fresh_item eq_text
run-kept_example = run-kept (codes "d1") 1 one ops refl refl

close_all-run_example :
    ((guid : Text) → is_online guid (close_all (run (step one (tcp info 2 data_role)) ops)) ≡ false)
    × ((has 2 (close_all (run (step one (tcp info 2 data_role)) ops)).closed
          || has 2 (close_all (run (step one (tcp info 2 data_role)) ops)).taken)
        ≡ true)
close_all-run_example =
    close_all-run info 2 one data_role (tcp info 2 data_role) ops (inr refl) refl

unregister-register_quic_example :
    unregister_quic_control (codes "d1") 1 (register_quic info 4 control_role one)
    ≡ (register_quic info 4 control_role one, false)
unregister-register_quic_example =
    unregister-register_quic info 1 4 control_role one (λ e. absurd cc) (λ e. absurd (omega arith))

-- A library that writes the message alone, for the frames of this file.
abbrev frame_of : List ℕ → Frame
frame_of message = record {
  frame_type = codes "hello";
  role = codes "data";
  transport = [];
  request_id = [];
  token = [];
  device_guid = [];
  sn_code = [];
  host_ip = [];
  wan_ip = [];
  hostname = [];
  client_version = [];
  target_host = [];
  target_port = pos 0;
  service_name = [];
  tail = pos 0;
  ok = true;
  message = message;
}

abbrev messages : Json
messages = record {
  marshal = λ frame. some frame.message;
  unmarshal = λ line. some (frame_of (trim_right (λ b. b == b'\n') line));
}

abbrev frames : List Frame
frames = frame_of (codes "ab") ∷ frame_of (codes "c") ∷ []

read_all-encode_all_example :
    (input : List ℕ) × (encode_all messages frames (codes "rest") ≡ some input)
    × (read_all messages true 2 input ≡ (frames, codes "rest"))
unfolding trim_right
read_all-encode_all_example = read_all-encode_all messages true frames (codes "rest") (
  record {
    text = codes "ab";
    written = refl;
    one_line = (refl, (refl, tt));
    fits = omega arith;
    read = refl;
  },
  (
    record {
      text = codes "c";
      written = refl;
      one_line = (refl, tt);
      fits = omega arith;
      read = refl;
    },
    tt,
  ),
)

-- Authenticate accepts one device, for one message.
abbrev one_device : Authenticate
one_device frame = if eq_text frame.message (codes "ok") then inr info else inl (codes "denied")

inr-injective :
    {x y : DeviceConnectionInfo} → ◌≡◌ {A = Text ⊎ DeviceConnectionInfo} (inr x) (inr y) → x ≡ y
inr-injective e = cc

one_device-accepts :
    (frame : Frame) (accepted : DeviceConnectionInfo)
    → one_device frame ≡ inr accepted
    → has_prefix accepted.device_guid (codes "d") ≡ true
unfolding has_prefix
one_device-accepts frame accepted =
    on_if
      (λ (r : Text ⊎ DeviceConnectionInfo).
        r ≡ inr accepted → has_prefix accepted.device_guid (codes "d") ≡ true)
      (eq_text frame.message (codes "ok"))
      (λ x e. ap (λ i. has_prefix i.device_guid (codes "d")) (sym (inr-injective e)))
      (λ x e. absurd cc)

abbrev events : List Event
events =
    tcp_hello 1 (codes "denied" ++ (b'\n' ∷ []))
    ∷ tcp_hello 2 (codes "ok" ++ (b'\n' ∷ codes "rest"))
    ∷ served (codes "d1") (pos 7) (frame_of (codes "ok"))
    ∷ []

online-admitted_example : has_prefix (codes "d1") (codes "d") ≡ true
unfolding new_manager is_online Server.run eq_text trim_right get read_frame put
online-admitted_example =
    online-admitted (λ guid. has_prefix guid (codes "d") ≡ true) messages one_device
      one_device-accepts events (codes "d1") refl
