-- ===== src/Tunnel/Streams.antt =====
-- tunnel/manager.go, OpenTCPStream and OpenServiceLogStream: a stream to a device, over a TCP data
-- connection that waits in its queue or over its QUIC data connection. The two differ in the frames
-- that they exchange, whose outcome is an argument. The call is one step: what it does after the
-- exchange comes at once, and where the queue is empty, the call that waits in vain is the one with
-- an empty queue here, and the call that gets a connection comes after its arrival.
use navmesh_go.Base.{ℕ, Bool, true, false, Option, none, some, List, [], ◌∷◌, ◌++◌, if◌then◌else◌}
use navmesh_go.Base.Int.{ℤ}
use navmesh_go.Base.Text.{Text, codes, eq_text, trim_space, to_lower, contains}
use navmesh_go.Base.Map.{get, put}
use navmesh_go.Tunnel.{DeviceConnection, Manager, close_conns, close_device_if_current, touch}

-- An error, with what errors.Is and errors.As say of it.
pub record OpenError : Type 0 where
  pub text : Text
  pub exhausted : Bool
  pub idle_timeout : Bool
  pub deadline_exceeded : Bool

-- What a call meets: whether the context ends before a connection is received, and the text of its
-- error; the error of the exchange of frames over a connection of the queue, and that over a stream
-- of the QUIC connection, if there is one; the time.
pub record Opening : Type 0 where
  pub context_ended : Bool
  pub context_error : Text
  pub exchange : Option Text
  pub quic : Option OpenError
  pub now : ℤ

unfoldable pub is_quic_idle_timeout : OpenError → Bool
is_quic_idle_timeout e =
    if e.idle_timeout then true else contains (to_lower e.text) (codes "no recent network activity")

unfoldable pub should_close_tunnel_after_open_tcp_error : OpenError → Bool
unfolding is_quic_idle_timeout
should_close_tunnel_after_open_tcp_error e =
    if e.exhausted
    then false
    else if is_quic_idle_timeout e
    then true
    else if e.deadline_exceeded
    then true
    else eq_text (to_lower (trim_space e.text)) (codes "deadline exceeded")

unfoldable pub is_tcp_data_channel_unavailable : Text → Bool
is_tcp_data_channel_unavailable error =
    contains (to_lower error) (codes "tcp data channel unavailable")

abbrev exhausted_error : Text → Text
exhausted_error error = codes "tcp data channel exhausted: " ++ error

-- The first connection of the queue is handed out, or closed if the exchange fails.
unfoldable pub take_data : Text → DeviceConnection → ℕ → List ℕ → Option Text → Manager → Manager
take_data guid item conn rest none m = record m {
  connections = put m.connections guid (record item { tcp_data = rest });
  taken = conn ∷ m.taken;
}
take_data guid item conn rest (some error) m =
    close_conns (conn ∷ [])
      (record m { connections = put m.connections guid (record item { tcp_data = rest }) })

-- The queue and the TCP control connection of the item; the result is the error.
unfoldable pub open_over_data_conn :
    Text → Opening → DeviceConnection → List ℕ → Option ℕ → Manager → Manager × Option Text
unfolding take_data
open_over_data_conn guid o item [] none m = (m, some (codes "tcp data channel unavailable"))
open_over_data_conn guid o item [] (some c) m = (m, some (exhausted_error o.context_error))
open_over_data_conn guid o item (conn ∷ rest) control m =
    if o.context_ended
    then (m, some (exhausted_error o.context_error))
    else (take_data guid item conn rest o.exchange m, o.exchange)

-- CloseDeviceIfCurrent where a test says so.
unfoldable pub close_when : Bool → Text → DeviceConnection → Manager → Manager
unfolding close_device_if_current
close_when b guid item m = if b then (close_device_if_current guid item.id m).0 else m

unfoldable pub open_over_quic :
    Text → Opening → DeviceConnection → Option OpenError → Manager → Manager × Option Text
unfolding touch close_when should_close_tunnel_after_open_tcp_error
open_over_quic guid o item none m = (touch guid o.now m, none)
open_over_quic guid o item (some error) m =
    (close_when (should_close_tunnel_after_open_tcp_error error) guid item m, some error.text)

-- What follows on the attempt over the queue, given its error, the QUIC data connection and the TCP
-- control connection.
unfoldable pub after_data :
    Text
    → Opening
    → DeviceConnection
    → Option ℕ
    → Option ℕ
    → Manager × Option Text
    → Manager × Option Text
unfolding touch open_over_quic close_when is_tcp_data_channel_unavailable
after_data guid o item quic control (m, none) = (touch guid o.now m, none)
after_data guid o item (some d) control (m, some error) = open_over_quic guid o item o.quic m
after_data guid o item none (some c) (m, some error) =
    (close_when (is_tcp_data_channel_unavailable error) guid item m, some error)
after_data guid o item none none (m, some error) =
    (close_when true guid item m, some (codes "device tunnel data channel unavailable"))

unfoldable pub open_item :
    Text → Opening → Option DeviceConnection → Manager → Manager × Option Text
unfolding open_over_data_conn after_data
open_item guid o none m = (m, some (codes "device tunnel offline"))
open_item guid o (some item) m =
    after_data guid o item item.data_conn item.tcp_control
      (open_over_data_conn guid o item item.tcp_data item.tcp_control m)

-- The manager, and the error if there is no stream.
unfoldable pub open_stream : Text → Opening → Manager → Manager × Option Text
unfolding open_item
open_stream guid o m = open_item guid o (get m.connections guid) m
