-- ===== src/Tunnel/Steps.antt =====
-- tunnel/manager.go: sequences of calls of the manager.
use navmesh_go.Base.{ℕ, List, [], ◌∷◌}
use navmesh_go.Base.Int.{ℤ}
use navmesh_go.Base.Text.{Text}
use navmesh_go.Tunnel.{
  DeviceConnectionInfo, Manager, Role, register_quic, register_tcp, unregister,
  unregister_quic_control, unregister_tcp_control, unregister_quic_data, close_device,
  close_device_if_current, touch, close_all,
}
use navmesh_go.Tunnel.Streams.{Opening, open_stream}

-- `opening` is OpenTCPStream or OpenServiceLogStream.
pub data Op : Type 0 where
  quic tcp : DeviceConnectionInfo → ℕ → Role → Op
  gone : Text → Op
  quic_control_gone tcp_control_gone quic_data_gone : Text → ℕ → Op
  closing : Text → Op
  closing_current : Text → ℕ → Op
  touching : Text → ℤ → Op
  opening : Text → Opening → Op
  closing_all : Op

unfoldable pub step : Manager → Op → Manager
unfolding register_quic register_tcp unregister unregister_quic_control unregister_tcp_control
    unregister_quic_data close_device close_device_if_current touch open_stream close_all
step m (quic info conn role) = register_quic info conn role m
step m (tcp info conn role) = register_tcp info conn role m
step m (gone guid) = unregister guid m
step m (quic_control_gone guid conn) = (unregister_quic_control guid conn m).0
step m (tcp_control_gone guid conn) = (unregister_tcp_control guid conn m).0
step m (quic_data_gone guid conn) = unregister_quic_data guid conn m
step m (closing guid) = (close_device guid m).0
step m (closing_current guid id) = (close_device_if_current guid id m).0
step m (touching guid now) = touch guid now m
step m (opening guid o) = (open_stream guid o m).0
step m closing_all = close_all m

unfoldable pub run : Manager → List Op → Manager
unfolding step
run m [] = m
run m (op ∷ ops) = run (step m op) ops
