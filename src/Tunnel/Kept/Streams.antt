-- ===== src/Tunnel/Kept/Streams.antt =====
-- A stream takes a connection from the queue or leaves it, and CloseAll closes what it removes.
use navmesh_go.Base.{
  ℕ, ◌≡◌, ◌∙◌, sym, refl, ap, Bool, true, false, ◌||◌, Option, none, some, List, [], ◌∷◌, inl, inr,
  arith, Bool-cases, on_if,
}
use navmesh_go.Base.Text.{Text, eq_text}
use navmesh_go.Base.Assoc.{Assoc, lookup}
use navmesh_go.Base.Map.{get}
use navmesh_go.Tunnel.{
  DeviceConnection, Manager, is_item, close_device_item, close_items, close_all,
}
use navmesh_go.Tunnel.Streams.{
  Opening, OpenError, take_data, open_over_data_conn, close_when, open_over_quic, after_data,
  open_item, open_stream, should_close_tunnel_after_open_tcp_error, is_tcp_data_channel_unavailable,
}
use navmesh_go.Tunnel.Kept.{
  has, holds, kept, has-append, has-close_device_item, put_given-kept, touch-kept,
  close_device_if_current-kept,
}

has-close_items :
    (c : ℕ) (guid : Text) (l : Assoc DeviceConnection)
    → is_item (holds c) (lookup guid l) ≡ true
    → has c (close_items l) ≡ true
unfolding close_items lookup
has-close_items c guid [] h = absurd cc
has-close_items c guid ((g, item) ∷ rest) h =
    let split = has-append c (close_device_item (some item)) (close_items rest) in
    let first = has-close_device_item c (some item) in
    elim (Bool-cases (eq_text g guid)) [
      | inl e ↦ let here : holds c item ≡ true = rw e at h in ground arith
      | inr e ↦ let later = has-close_items c guid rest (rw e at h) in ground arith
    ]

module _ (guid : Text) (c : ℕ) where
  pub close_all-kept : (m : Manager) → kept guid c m ≡ true → kept guid c (close_all m) ≡ true
  unfolding close_all get
  close_all-kept m k =
      let closed = has-append c (close_items m.connections.entries) m.closed in
      let all_closed = has-close_items c guid m.connections.entries in ground arith

  close_when-kept :
      (b : Bool) (g : Text) (item : DeviceConnection) (m : Manager)
      → kept guid c m ≡ true
      → kept guid c (close_when b g item m) ≡ true
  unfolding close_when
  close_when-kept true g item m k = close_device_if_current-kept guid c m k g item.id
  close_when-kept false g item m k = k

  -- The item with the first connection of its queue gone, and that connection.
  taken_out :
      (item : DeviceConnection) (conn : ℕ) (rest : List ℕ)
      → item.tcp_data ≡ conn ∷ rest
      → holds c item ≡ true
      → (holds c (record item { tcp_data = rest }) || has c (conn ∷ [])) ≡ true
  taken_out item conn rest e h = let parts = ap (has c) e in ground arith

  take_data-kept :
      (g : Text) (item : DeviceConnection) (conn : ℕ) (rest : List ℕ) (o : Option Text)
      (m : Manager)
      → get m.connections g ≡ some item
      → item.tcp_data ≡ conn ∷ rest
      → kept guid c m ≡ true
      → kept guid c (take_data g item conn rest o m) ≡ true
  unfolding take_data
  take_data-kept g item conn rest none m found e k =
      put_given-kept guid c m k g (record item { tcp_data = rest }) [] (conn ∷ [])
        (λ h.
          let out = taken_out item conn rest e (ap (is_item (holds c)) (sym found) ∙ h) in
          ground arith)
  take_data-kept g item conn rest (some error) m found e k =
      put_given-kept guid c m k g (record item { tcp_data = rest }) (conn ∷ []) []
        (λ h.
          let out = taken_out item conn rest e (ap (is_item (holds c)) (sym found) ∙ h) in
          ground arith)

  open_over_data_conn-kept :
      (g : Text) (o : Opening) (item : DeviceConnection) (queue : List ℕ) (control : Option ℕ)
      (m : Manager)
      → get m.connections g ≡ some item
      → item.tcp_data ≡ queue
      → kept guid c m ≡ true
      → kept guid c (open_over_data_conn g o item queue control m).0 ≡ true
  unfolding open_over_data_conn
  open_over_data_conn-kept g o item [] none m found e k = k
  open_over_data_conn-kept g o item [] (some t) m found e k = k
  open_over_data_conn-kept g o item (conn ∷ rest) control m found e k =
      on_if (λ (r : Manager × Option Text). kept guid c r.0 ≡ true) o.context_ended (λ ended. k)
        (λ going. take_data-kept g item conn rest o.exchange m found e k)

  open_over_quic-kept :
      (g : Text) (o : Opening) (item : DeviceConnection) (answer : Option OpenError) (m : Manager)
      → kept guid c m ≡ true
      → kept guid c (open_over_quic g o item answer m).0 ≡ true
  unfolding open_over_quic
  open_over_quic-kept g o item none m k = touch-kept guid c m k g o.now
  open_over_quic-kept g o item (some error) m k =
      close_when-kept (should_close_tunnel_after_open_tcp_error error) g item m k

  after_data-kept :
      (g : Text) (o : Opening) (item : DeviceConnection) (quic control : Option ℕ)
      (r : Manager × Option Text)
      → kept guid c r.0 ≡ true
      → kept guid c (after_data g o item quic control r).0 ≡ true
  unfolding after_data
  after_data-kept g o item quic control (m, none) k = touch-kept guid c m k g o.now
  after_data-kept g o item (some d) control (m, some error) k =
      open_over_quic-kept g o item o.quic m k
  after_data-kept g o item none (some t) (m, some error) k =
      close_when-kept (is_tcp_data_channel_unavailable error) g item m k
  after_data-kept g o item none none (m, some error) k = close_when-kept true g item m k

  open_item-kept :
      (g : Text) (o : Opening) (found : Option DeviceConnection) (m : Manager)
      → get m.connections g ≡ found
      → kept guid c m ≡ true
      → kept guid c (open_item g o found m).0 ≡ true
  unfolding open_item
  open_item-kept g o none m e k = k
  open_item-kept g o (some item) m e k =
      after_data-kept g o item item.data_conn item.tcp_control _
        (open_over_data_conn-kept g o item item.tcp_data item.tcp_control m e refl k)

  pub open_stream-kept :
      (g : Text) (o : Opening) (m : Manager)
      → kept guid c m ≡ true
      → kept guid c (open_stream g o m).0 ≡ true
  unfolding open_stream
  open_stream-kept g o m k = open_item-kept g o (get m.connections g) m refl k
