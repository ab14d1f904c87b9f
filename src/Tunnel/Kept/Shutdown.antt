-- ===== src/Tunnel/Kept/Shutdown.antt =====
-- What CloseAll leaves of the connections that were registered.
use navmesh_go.Base.{
  ℕ, ◌≡◌, ◌∙◌, refl, true, false, ◌||◌, some, List, [], ◌∷◌, all, inl, inr, ◌⊎◌, arith, Bool-cases,
  ltb, length,
}
use navmesh_go.Base.Text.{Text, eq_text_refl}
use navmesh_go.Base.Map.{get, put, get-put, get-empty}
use navmesh_go.Tunnel.{
  DeviceConnectionInfo, DeviceConnection, Manager, Role, legacy_role, control_role, data_role,
  is_item, is_online, tcp_data_size, item_or_fresh, join_quic_data, join_tcp_data, replace,
  register_quic, register_tcp, close_all,
}
use navmesh_go.Tunnel.Steps.{Op, quic, tcp, step, run}
use navmesh_go.Tunnel.Kept.{has, holds, kept, has-append}
use navmesh_go.Tunnel.Kept.Streams.{close_all-kept}
use navmesh_go.Tunnel.Kept.Run.{drops_none, run-kept}

module _ (info : DeviceConnectionInfo) (conn : ℕ) (m : Manager) where
  put_item-kept :
      (item : DeviceConnection) (closed : List ℕ)
      → (holds conn item || has conn closed) ≡ true
      → (is_item (holds conn) (get (put m.connections info.device_guid item) info.device_guid)
          || has conn closed
          || has conn m.taken)
        ≡ true
  put_item-kept item closed h =
      let there : get (put m.connections info.device_guid item) info.device_guid ≡ some item =
        get-put m.connections info.device_guid info.device_guid item
        ∙ rw (eq_text_refl info.device_guid) refl in
      rw there (ground arith)

  register_quic-kept :
      (role : Role) → kept info.device_guid conn (register_quic info conn role m) ≡ true
  unfolding register_quic join_quic_data replace
  register_quic-kept data_role = put_item-kept _ _ (ground arith)
  register_quic-kept control_role = put_item-kept _ _ (ground arith)
  register_quic-kept legacy_role = put_item-kept _ _ (ground arith)

  join_tcp_data-kept : kept info.device_guid conn (join_tcp_data info conn m) ≡ true
  unfolding join_tcp_data
  join_tcp_data-kept =
      let item = item_or_fresh info m (get m.connections info.device_guid) in
      elim (Bool-cases (ltb (length item.tcp_data) tcp_data_size)) [
        | inl room ↦
            rw room (put_item-kept _ _ (ground (arith, has-append conn item.tcp_data (conn ∷ []))))
        | inr full ↦ rw full (put_item-kept item (conn ∷ m.closed) (ground arith))
      ]

  register_tcp-kept :
      (role : Role) → kept info.device_guid conn (register_tcp info conn role m) ≡ true
  unfolding register_tcp replace
  register_tcp-kept data_role = join_tcp_data-kept
  register_tcp-kept control_role = put_item-kept _ _ (ground arith)
  register_tcp-kept legacy_role = put_item-kept _ _ (ground arith)

  -- The call that registers the connection for the device.
  abbrev pub Registers : Role → Op → Type 0
  Registers role op = (op ≡ quic info conn role) ⊎ (op ≡ tcp info conn role)

  registered-kept :
      (role : Role) (op : Op) → Registers role op → kept info.device_guid conn (step m op) ≡ true
  unfolding step
  registered-kept role op (inl e) = rw e (register_quic-kept role)
  registered-kept role op (inr e) = rw e (register_tcp-kept role)

  -- If a connection is registered in any role, and any calls of the manager follow in which no QUIC data
  -- connection is reported as ended, then after CloseAll no device is online, and the connection is
  -- closed or was handed to a stream.
  pub close_all-run :
      (role : Role) (op : Op) (ops : List Op)
      → Registers role op
      → all drops_none ops ≡ true
      → ((guid : Text) → is_online guid (close_all (run (step m op) ops)) ≡ false)
        × ((has conn (close_all (run (step m op) ops)).closed
              || has conn (close_all (run (step m op) ops)).taken)
            ≡ true)
  unfolding is_online close_all
  close_all-run role op ops registers none_dropped =
      let all_kept = close_all-kept info.device_guid conn (run (step m op) ops) (
        run-kept info.device_guid conn (step m op) ops none_dropped
          (registered-kept role op registers)) in
      (λ guid. rw (get-empty guid) refl, rw (get-empty info.device_guid) at all_kept)
