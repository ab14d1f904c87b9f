-- ===== src/Tunnel/Kept/Run.antt =====
-- Sequences of calls of the manager keep every connection.
use navmesh_go.Base.{ℕ, ◌≡◌, Bool, true, false, List, [], ◌∷◌, all, arith}
use navmesh_go.Base.Text.{Text, is_empty, trim_space}
use navmesh_go.Tunnel.{
  Manager, legacy_role, control_role, data_role, register_quic, register_tcp,
  unregister_quic_control, unregister_tcp_control, close_device,
}
use navmesh_go.Tunnel.Steps.{
  Op, quic, tcp, gone, quic_control_gone, tcp_control_gone, quic_data_gone, closing,
  closing_current, touching, opening, closing_all, step, run,
}
use navmesh_go.Tunnel.Kept.{
  kept, replace-kept, unregister-kept, unregister_if-kept, join_quic_data-kept, join_tcp_data-kept,
  touch-kept, named_if-kept, close_device_if_current-kept,
}
use navmesh_go.Tunnel.Kept.Streams.{open_stream-kept, close_all-kept}

-- The one step that lets go of a connection without closing it.
abbrev pub drops_none : Op → Bool
drops_none (quic info conn role) = true
drops_none (tcp info conn role) = true
drops_none (gone guid) = true
drops_none (quic_control_gone guid conn) = true
drops_none (tcp_control_gone guid conn) = true
drops_none (quic_data_gone guid conn) = false
drops_none (closing guid) = true
drops_none (closing_current guid id) = true
drops_none (touching guid now) = true
drops_none (opening guid o) = true
drops_none closing_all = true

step-kept :
    (guid : Text) (c : ℕ) (m : Manager) (op : Op)
    → drops_none op ≡ true
    → kept guid c m ≡ true
    → kept guid c (step m op) ≡ true
unfolding step register_quic register_tcp unregister_quic_control unregister_tcp_control
    close_device
step-kept guid c m (quic info conn data_role) h k = join_quic_data-kept guid c m k info conn
step-kept guid c m (quic info conn control_role) h k = replace-kept guid c m k info.device_guid _
step-kept guid c m (quic info conn legacy_role) h k = replace-kept guid c m k info.device_guid _
step-kept guid c m (tcp info conn data_role) h k = join_tcp_data-kept guid c m k info conn
step-kept guid c m (tcp info conn control_role) h k = replace-kept guid c m k info.device_guid _
step-kept guid c m (tcp info conn legacy_role) h k = replace-kept guid c m k info.device_guid _
step-kept guid c m (gone g) h k = unregister-kept guid c m k g
step-kept guid c m (quic_control_gone g conn) h k =
    named_if-kept guid c m (is_empty (trim_space g)) _ k (unregister_if-kept guid c m k _ g)
step-kept guid c m (tcp_control_gone g conn) h k =
    named_if-kept guid c m (is_empty (trim_space g)) _ k (unregister_if-kept guid c m k _ g)
step-kept guid c m (quic_data_gone g conn) h k = absurd cc
step-kept guid c m (closing g) h k =
    named_if-kept guid c m (is_empty (trim_space g)) _ k
      (unregister_if-kept guid c m k _ (trim_space g))
step-kept guid c m (closing_current g id) h k = close_device_if_current-kept guid c m k g id
step-kept guid c m (touching g now) h k = touch-kept guid c m k g now
step-kept guid c m (opening g o) h k = open_stream-kept guid c g o m k
step-kept guid c m closing_all h k = close_all-kept guid c m k

-- While no QUIC data connection is reported as ended, a connection that stands in the item of a device
-- stays there, is closed, or is handed to a stream, whatever calls of the manager come, one after the
-- other.
pub run-kept :
    (guid : Text) (c : ℕ) (m : Manager) (ops : List Op)
    → all drops_none ops ≡ true
    → kept guid c m ≡ true
    → kept guid c (run m ops) ≡ true
unfolding run
run-kept guid c m [] h k = k
run-kept guid c m (op ∷ ops) h k =
    run-kept guid c (step m op) ops (ground arith) (step-kept guid c m op (ground arith) k)
