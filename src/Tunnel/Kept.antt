-- ===== src/Tunnel/Kept.antt =====
-- No connection of a device is lost by a call of the manager: it stands in the item of the device, it
-- was closed, or a stream took it.
pub mod Streams
pub mod Run
pub mod Shutdown
use navmesh_go.Base.{
  ℕ, ◌≡◌, ◌∙◌, sym, refl, ap, Bool, true, false, ◌||◌, Option, none, some, List, [], ◌∷◌, ◌++◌,
  ◌==◌, if◌then◌else◌, any, all, inl, inr, arith, Bool-cases, ltb, length,
}
use navmesh_go.Base.Int.{ℤ}
use navmesh_go.Base.Text.{Text, eq_text, eq_text_iff, is_empty, trim_space}
use navmesh_go.Base.Map.{get, put, delete, get-put, get-delete}
use navmesh_go.Tunnel.{
  DeviceConnectionInfo, DeviceConnection, Manager, legacy_role, control_role, data_role, to_list,
  is_conn, tcp_data_size, own_data, close_device_item, item_or_fresh, replaced_data, join_quic_data,
  replace, register_quic, join_tcp_data, register_tcp, unregister, is_item, unregister_if,
  unregister_quic_control, unregister_tcp_control, close_device, close_device_if_current, touch,
  touch_item,
}

abbrev pub has : ℕ → List ℕ → Bool
has c conns = any (λ d. d == c) conns

abbrev pub holds : ℕ → DeviceConnection → Bool
holds c item =
    is_conn c item.control
    || is_conn c item.data_conn
    || is_conn c item.tcp_control
    || has c item.tcp_data

-- The connection stands in the item of the device, was closed, or was handed to a stream.
abbrev pub kept : Text → ℕ → Manager → Bool
kept guid c m = is_item (holds c) (get m.connections guid) || has c m.closed || has c m.taken

pub has-append : (c : ℕ) (xs ys : List ℕ) → has c (xs ++ ys) ≡ (has c xs || has c ys)
has-append c [] ys = refl
has-append c (x ∷ xs) ys = ground (arith, has-append c xs ys)

has-to_list : (c : ℕ) (o : Option ℕ) → has c (to_list o) ≡ is_conn c o
has-to_list c none = refl
has-to_list c (some d) = ground arith

has-own_data :
    (c : ℕ) (control data_conn : Option ℕ)
    → (is_conn c control || has c (own_data control data_conn))
      ≡ (is_conn c control || is_conn c data_conn)
has-own_data c control none = refl
has-own_data c none (some d) = ground arith
has-own_data c (some e) (some d) = ground arith

pub has-close_device_item :
    (c : ℕ) (o : Option DeviceConnection) → has c (close_device_item o) ≡ is_item (holds c) o
unfolding close_device_item
has-close_device_item c none = refl
has-close_device_item c (some item) = ground (
  arith,
  has-append c (to_list item.control)
      (own_data item.control item.data_conn ++ (to_list item.tcp_control ++ item.tcp_data)),
  has-append c (own_data item.control item.data_conn) (to_list item.tcp_control ++ item.tcp_data),
  has-append c (to_list item.tcp_control) item.tcp_data,
  has-to_list c item.control,
  has-to_list c item.tcp_control,
  has-own_data c item.control item.data_conn,
)

quic_joins :
    (c : ℕ) (m : Manager) (info : DeviceConnectionInfo) (conn : ℕ) (o : Option DeviceConnection)
    → is_item (holds c) o ≡ true
    → (holds c (record (item_or_fresh info m o) { data_conn = some conn })
        || has c (replaced_data conn (item_or_fresh info m o)))
      ≡ true
unfolding item_or_fresh
quic_joins c m info conn none h = absurd cc
quic_joins c m info conn (some item) h = ground (arith, has-own_data c item.control item.data_conn)

tcp_joins :
    (c : ℕ) (m : Manager) (info : DeviceConnectionInfo) (conn : ℕ) (o : Option DeviceConnection)
    → is_item (holds c) o ≡ true
    → (holds c (record (item_or_fresh info m o) {
      tcp_data = (item_or_fresh info m o).tcp_data ++ (conn ∷ []);
    })
        || has c [])
      ≡ true
unfolding item_or_fresh
tcp_joins c m info conn none h = absurd cc
tcp_joins c m info conn (some item) h = ground (arith, has-append c item.tcp_data (conn ∷ []))

tcp_closes :
    (c : ℕ) (m : Manager) (info : DeviceConnectionInfo) (conn : ℕ) (o : Option DeviceConnection)
    → is_item (holds c) o ≡ true
    → (holds c (item_or_fresh info m o) || has c (conn ∷ [])) ≡ true
unfolding item_or_fresh
tcp_closes c m info conn none h = absurd cc
tcp_closes c m info conn (some item) h = ground arith

module _ (guid : Text) (c : ℕ) (m : Manager) (k : kept guid c m ≡ true) where
  pub replace-kept : (g : Text) (item : DeviceConnection) → kept guid c (replace g item m) ≡ true
  unfolding replace
  replace-kept g item = elim (Bool-cases (eq_text g guid)) [
    | inl e ↦
        let same = (eq_text_iff g guid).0 e in
        let closed = has-append c (close_device_item (get m.connections g)) m.closed in
        let held = has-close_device_item c (get m.connections g) in
        let here : is_item (holds c) (get m.connections g)
            ≡ is_item (holds c) (get m.connections guid) =
          ap (λ t. is_item (holds c) (get m.connections t)) same in
        ground (arith, closed, held, here, k)
    | inr e ↦
        let there : get (put m.connections g item) guid ≡ get m.connections guid =
          get-put m.connections g guid item ∙ rw e refl in
        let closed = has-append c (close_device_item (get m.connections g)) m.closed in
        rw there (ground (arith, closed, k))
  ]

  pub unregister-kept : (g : Text) → kept guid c (unregister g m) ≡ true
  unfolding unregister
  unregister-kept g = elim (Bool-cases (eq_text g guid)) [
    | inl e ↦
        let same = (eq_text_iff g guid).0 e in
        let closed = has-append c (close_device_item (get m.connections g)) m.closed in
        let held = has-close_device_item c (get m.connections g) in
        let here : is_item (holds c) (get m.connections g)
            ≡ is_item (holds c) (get m.connections guid) =
          ap (λ t. is_item (holds c) (get m.connections t)) same in
        ground (arith, closed, held, here, k)
    | inr e ↦
        let there : get (delete m.connections g) guid ≡ get m.connections guid =
          get-delete m.connections g guid ∙ rw e refl in
        let closed = has-append c (close_device_item (get m.connections g)) m.closed in
        rw there (ground (arith, closed, k))
  ]

  pub unregister_if-kept :
      (test : DeviceConnection → Bool) (g : Text) → kept guid c (unregister_if test g m).0 ≡ true
  unfolding unregister_if
  unregister_if-kept test g = elim (Bool-cases (is_item test (get m.connections g))) [
    | inl e ↦ rw e (unregister-kept g)
    | inr e ↦ rw e k
  ]

  pub put_given-kept :
      (g : Text) (item : DeviceConnection) (extra given : List ℕ)
      → (is_item (holds c) (get m.connections g) ≡ true
          → (holds c item || has c extra || has c given) ≡ true)
      → (is_item (holds c) (get (put m.connections g item) guid)
          || has c (extra ++ m.closed)
          || has c (given ++ m.taken))
        ≡ true
  put_given-kept g item extra given grows = elim (Bool-cases (eq_text g guid)) [
    | inl e ↦
        let there : get (put m.connections g item) guid ≡ some item =
          get-put m.connections g guid item ∙ rw e refl in
        let here : is_item (holds c) (get m.connections g)
            ≡ is_item (holds c) (get m.connections guid) =
          ap (λ t. is_item (holds c) (get m.connections t)) ((eq_text_iff g guid).0 e) in
        rw there
          (ground (arith, has-append c extra m.closed, has-append c given m.taken, here, k, grows))
    | inr e ↦
        let there : get (put m.connections g item) guid ≡ get m.connections guid =
          get-put m.connections g guid item ∙ rw e refl in
        rw there (ground (arith, has-append c extra m.closed, has-append c given m.taken, k))
  ]

  put-kept :
      (g : Text) (item : DeviceConnection) (extra : List ℕ)
      → (is_item (holds c) (get m.connections g) ≡ true → (holds c item || has c extra) ≡ true)
      → (is_item (holds c) (get (put m.connections g item) guid)
          || has c (extra ++ m.closed)
          || has c m.taken)
        ≡ true
  put-kept g item extra grows =
      put_given-kept g item extra [] (λ h. let grown = grows h in ground arith)

  pub join_quic_data-kept :
      (info : DeviceConnectionInfo) (conn : ℕ) → kept guid c (join_quic_data info conn m) ≡ true
  unfolding join_quic_data
  join_quic_data-kept info conn =
      let o = get m.connections info.device_guid in
      let item = item_or_fresh info m o in
      put-kept info.device_guid (record item { data_conn = some conn }) (replaced_data conn item)
        (quic_joins c m info conn o)

  pub join_tcp_data-kept :
      (info : DeviceConnectionInfo) (conn : ℕ) → kept guid c (join_tcp_data info conn m) ≡ true
  unfolding join_tcp_data
  join_tcp_data-kept info conn =
      let o = get m.connections info.device_guid in
      let item = item_or_fresh info m o in
      elim (Bool-cases (ltb (length item.tcp_data) tcp_data_size)) [
        | inl room ↦ rw room (
            put-kept info.device_guid (record item { tcp_data = item.tcp_data ++ (conn ∷ []) }) []
              (tcp_joins c m info conn o))
        | inr full ↦
            rw full (put-kept info.device_guid item (conn ∷ []) (tcp_closes c m info conn o))
      ]

  touch_item-kept :
      (g : Text) (now : ℤ) (o : Option DeviceConnection)
      → get m.connections g ≡ o
      → kept guid c (touch_item g now o m) ≡ true
  touch_item-kept g now none e = k
  touch_item-kept g now (some item) e =
      put-kept g (record item { info = record item.info { last_active_time = now } }) []
        (λ h.
          let h' : holds c item ≡ true = ap (is_item (holds c)) (sym e) ∙ h in ground (arith, h'))

  pub touch-kept : (g : Text) (now : ℤ) → kept guid c (touch g now m) ≡ true
  unfolding touch
  touch-kept g now = touch_item-kept g now (get m.connections g) refl

pub named_if-kept :
    (guid : Text) (c : ℕ) (m : Manager) (b : Bool) (o : Manager × Bool)
    → kept guid c m ≡ true
    → kept guid c o.0 ≡ true
    → kept guid c (if b then (m, false) else o).0 ≡ true
named_if-kept guid c m true o h k = h
named_if-kept guid c m false o h k = k

pub close_device_if_current-kept :
    (guid : Text) (c : ℕ) (m : Manager)
    → kept guid c m ≡ true
    → (g : Text) (id : ℕ) → kept guid c (close_device_if_current g id m).0 ≡ true
unfolding close_device_if_current
close_device_if_current-kept guid c m k g id =
    named_if-kept guid c m (is_empty (trim_space g)) _ k
      (unregister_if-kept guid c m k _ (trim_space g))
