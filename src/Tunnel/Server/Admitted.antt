-- ===== src/Tunnel/Server/Admitted.antt =====
-- Only devices that Authenticate accepts are online.
use navmesh_go.Base.{
  ℕ, ◌≡◌, ◌∙◌, sym, refl, ap, subst, Bool, true, false, ◌&&◌, not, Option, none, some, List, [],
  ◌∷◌, ◌⊎◌, inl, inr, if◌then◌else◌, on_if, Bool-cases, ltb, length,
}
use navmesh_go.Base.Int.{ℤ}
use navmesh_go.Base.Text.{Text, codes, eq_text, eq_text_iff, is_empty, trim_space}
use navmesh_go.Base.Map.{Map, get, put, delete, get-put, get-delete, get-empty}
use navmesh_go.Tunnel.{
  DeviceConnectionInfo, DeviceConnection, Manager, Role, legacy_role, control_role, data_role,
  new_manager, join_quic_data, register_quic, join_tcp_data, register_tcp, replace, unregister,
  unregister_if, unregister_quic_control, unregister_tcp_control, leave_item, drop_data,
  unregister_quic_data, close_device, touch, touch_item, is_item, is_conn, is_online, tcp_data_size,
  item_or_fresh,
}
use navmesh_go.Tunnel.Frame.{Frame, Json, Read, read_frame}
use navmesh_go.Tunnel.Server.{
  Authenticate, Answer, role_of, is_beat, refuse, admit, on_hello, handle_connection,
  handle_tcp_connection, serve_frame, handle_stream, end_quic, end_tcp, Event, quic_hello,
  tcp_hello, served, streamed, quic_ended, tcp_ended, closing, on_event, run,
}

no_item : is_item (λ item. true) none ≡ true → ⊥
no_item e = cc

module _ (P : Text → Type 0) where
  -- The items of a map are of devices with a property.
  abbrev Only : Map DeviceConnection → Type 0
  Only conns = (guid : Text) → is_item (λ item. true) (get conns guid) ≡ true → P guid

  abbrev OnlyOnline : Manager → Type 0
  OnlyOnline m = Only m.connections

  put-Only :
      (conns : Map DeviceConnection) (guid : Text) (item : DeviceConnection)
      → Only conns
      → P guid
      → Only (put conns guid item)
  put-Only conns guid item only p g online =
      let shown : is_item (λ i. true) (if eq_text guid g then some item else get conns g) ≡ true =
        ap (is_item (λ i. true)) (sym (get-put conns guid g item)) ∙ online in
      elim (Bool-cases (eq_text guid g)) [
        | inl e ↦ subst P ((eq_text_iff guid g).0 e) p
        | inr e ↦
            only g (
              subst (λ t. is_item (λ i. true) (if t then some item else get conns g) ≡ true) e
                shown)
      ]

  delete-Only : (conns : Map DeviceConnection) (guid : Text) → Only conns → Only (delete conns guid)
  delete-Only conns guid only g online =
      let shown : is_item (λ i. true) (if eq_text guid g then none else get conns g) ≡ true =
        ap (is_item (λ i. true)) (sym (get-delete conns guid g)) ∙ online in
      elim (Bool-cases (eq_text guid g)) [
        | inl e ↦ absurd (
            no_item
              (subst (λ t. is_item (λ i. true) (if t then none else get conns g) ≡ true) e shown))
        | inr e ↦
            only g
              (subst (λ t. is_item (λ i. true) (if t then none else get conns g) ≡ true) e shown)
      ]

  register_quic-OnlyOnline :
      (info : DeviceConnectionInfo) (conn : ℕ) (role : Role) (m : Manager)
      → P info.device_guid
      → OnlyOnline m
      → OnlyOnline (register_quic info conn role m)
  unfolding register_quic join_quic_data replace
  register_quic-OnlyOnline info conn data_role m p only =
      put-Only m.connections info.device_guid _ only p
  register_quic-OnlyOnline info conn control_role m p only =
      put-Only m.connections info.device_guid _ only p
  register_quic-OnlyOnline info conn legacy_role m p only =
      put-Only m.connections info.device_guid _ only p

  register_tcp-OnlyOnline :
      (info : DeviceConnectionInfo) (conn : ℕ) (role : Role) (m : Manager)
      → P info.device_guid
      → OnlyOnline m
      → OnlyOnline (register_tcp info conn role m)
  unfolding register_tcp join_tcp_data replace
  register_tcp-OnlyOnline info conn data_role m p only =
      on_if OnlyOnline
        (ltb (length (item_or_fresh info m (get m.connections info.device_guid)).tcp_data)
          tcp_data_size)
        (λ x. put-Only m.connections info.device_guid _ only p)
        (λ x. put-Only m.connections info.device_guid _ only p)
  register_tcp-OnlyOnline info conn control_role m p only =
      put-Only m.connections info.device_guid _ only p
  register_tcp-OnlyOnline info conn legacy_role m p only =
      put-Only m.connections info.device_guid _ only p

  unregister_if-OnlyOnline :
      (test : DeviceConnection → Bool) (guid : Text) (m : Manager)
      → OnlyOnline m
      → OnlyOnline (unregister_if test guid m).0
  unfolding unregister_if unregister
  unregister_if-OnlyOnline test guid m only =
      on_if (λ (r : Manager × Bool). OnlyOnline r.0) (is_item test (get m.connections guid))
        (λ x. delete-Only m.connections guid only) (λ x. only)

  touch-OnlyOnline :
      (guid : Text) (now : ℤ) (m : Manager) → OnlyOnline m → OnlyOnline (touch guid now m)
  unfolding touch
  touch-OnlyOnline guid now m only = go (get m.connections guid) refl
    where
      go :
          (o : Option DeviceConnection)
          → get m.connections guid ≡ o
          → OnlyOnline (touch_item guid now o m)
      go none e = only
      go (some item) e = put-Only m.connections guid _ only (only guid (ap (is_item (λ i. true)) e))

  drop_data-Only :
      (guid : Text) (item : DeviceConnection) (control t : Option ℕ) (conns : Map DeviceConnection)
      → Only conns
      → P guid
      → Only (drop_data guid item control t conns)
  unfolding drop_data
  drop_data-Only guid item none none conns only p = delete-Only conns guid only
  drop_data-Only guid item none (some c) conns only p = put-Only conns guid _ only p
  drop_data-Only guid item (some c) t conns only p = put-Only conns guid _ only p

  leave_item-OnlyOnline :
      (guid : Text) (conn : ℕ) (m : Manager) (o : Option DeviceConnection)
      → get m.connections guid ≡ o
      → OnlyOnline m
      → OnlyOnline (leave_item guid conn o m)
  unfolding leave_item
  leave_item-OnlyOnline guid conn m none e only = only
  leave_item-OnlyOnline guid conn m (some item) e only =
      on_if OnlyOnline (is_conn conn item.data_conn)
        (λ x.
          drop_data-Only guid item item.control item.tcp_control m.connections only
            (only guid (ap (is_item (λ i. true)) e)))
        (λ x. only)

  -- The conditions on a blank guid, and the trims, of the ends of sessions.
  end_quic-OnlyOnline :
      (info : DeviceConnectionInfo) (role : Role) (conn : ℕ) (m : Manager)
      → OnlyOnline m
      → OnlyOnline (end_quic info role conn m)
  unfolding end_quic unregister_quic_data unregister_quic_control
  end_quic-OnlyOnline info data_role conn m only =
      on_if OnlyOnline (is_empty (trim_space info.device_guid)) (λ x. only)
        (λ x. leave_item-OnlyOnline (trim_space info.device_guid) conn m _ refl only)
  end_quic-OnlyOnline info control_role conn m only =
      on_if (λ (r : Manager × Bool). OnlyOnline r.0) (is_empty (trim_space info.device_guid))
        (λ x. only)
        (λ x. unregister_if-OnlyOnline (λ item. is_conn conn item.control) info.device_guid m only)
  end_quic-OnlyOnline info legacy_role conn m only =
      on_if (λ (r : Manager × Bool). OnlyOnline r.0) (is_empty (trim_space info.device_guid))
        (λ x. only)
        (λ x. unregister_if-OnlyOnline (λ item. is_conn conn item.control) info.device_guid m only)

  unregister_tcp-OnlyOnline :
      (guid : Text) (conn : ℕ) (m : Manager)
      → OnlyOnline m
      → OnlyOnline (unregister_tcp_control guid conn m).0
  unfolding unregister_tcp_control
  unregister_tcp-OnlyOnline guid conn m only =
      on_if (λ (r : Manager × Bool). OnlyOnline r.0) (is_empty (trim_space guid)) (λ x. only)
        (λ x. unregister_if-OnlyOnline (λ item. is_conn conn item.tcp_control) guid m only)

  end_tcp-OnlyOnline :
      (info : DeviceConnectionInfo) (role : Role) (conn : ℕ) (m : Manager)
      → OnlyOnline m
      → OnlyOnline (end_tcp info role conn m)
  unfolding end_tcp
  end_tcp-OnlyOnline info data_role conn m only = only
  end_tcp-OnlyOnline info control_role conn m only =
      unregister_tcp-OnlyOnline info.device_guid conn m only
  end_tcp-OnlyOnline info legacy_role conn m only =
      unregister_tcp-OnlyOnline info.device_guid conn m only

  handle_stream-OnlyOnline :
      (guid : Text) (now : ℤ) (frame : Frame) (m : Manager)
      → OnlyOnline m
      → OnlyOnline (handle_stream guid now frame m).0
  unfolding handle_stream serve_frame
  handle_stream-OnlyOnline guid now frame m only =
      on_if (λ (r : Manager × Frame). OnlyOnline r.0)
        (not (is_beat frame) && eq_text frame.frame_type (codes "open_tcp_ack"))
        (λ x. touch-OnlyOnline guid now m only) (λ x. touch-OnlyOnline guid now m only)

  close_device-OnlyOnline :
      (guid : Text) (m : Manager) → OnlyOnline m → OnlyOnline (close_device guid m).0
  unfolding close_device
  close_device-OnlyOnline guid m only =
      on_if (λ (r : Manager × Bool). OnlyOnline r.0) (is_empty (trim_space guid)) (λ x. only)
        (λ x. unregister_if-OnlyOnline (λ item. true) (trim_space guid) m only)

  module _ (json : Json) (authenticate : Authenticate)
      (accepts : (frame : Frame) (info : DeviceConnectionInfo)
        → authenticate frame ≡ inr info
        → P info.device_guid) where
    admit-OnlyOnline :
        (register : DeviceConnectionInfo → Role → Manager → Manager) (role : Role) (m : Manager)
        (frame : Frame) (r : Text ⊎ DeviceConnectionInfo)
        → authenticate frame ≡ r
        → ((info : DeviceConnectionInfo) → P info.device_guid → OnlyOnline (register info role m))
        → OnlyOnline m
        → OnlyOnline (admit register role m r).manager
    unfolding refuse
    admit-OnlyOnline register role m frame (inl message) e registers only = only
    admit-OnlyOnline register role m frame (inr info) e registers only =
        registers info (accepts frame info e)

    on_hello-OnlyOnline :
        (register : DeviceConnectionInfo → Role → Manager → Manager) (m : Manager) (r : Read Frame)
        → ((info : DeviceConnectionInfo) (role : Role)
            → P info.device_guid
            → OnlyOnline (register info role m))
        → OnlyOnline m
        → OnlyOnline (on_hello authenticate register m r).manager
    unfolding on_hello refuse
    on_hello-OnlyOnline register m (inl e) registers only = only
    on_hello-OnlyOnline register m (inr (frame, rest)) registers only =
        on_if (λ (a : Answer). OnlyOnline a.manager) (eq_text frame.frame_type (codes "hello"))
          (λ x.
            admit-OnlyOnline register (role_of frame.role) m frame (authenticate frame) refl
              (λ info p. registers info (role_of frame.role) p) only)
          (λ x. only)

    on_event-OnlyOnline :
        (m : Manager) (e : Event) → OnlyOnline m → OnlyOnline (on_event json authenticate m e)
    unfolding on_event handle_connection handle_tcp_connection serve_frame
    on_event-OnlyOnline m (quic_hello conn input) only =
        on_hello-OnlyOnline (λ info role. register_quic info conn role) m
          (read_frame json false input)
          (λ info role p. register_quic-OnlyOnline info conn role m p only) only
    on_event-OnlyOnline m (tcp_hello conn input) only =
        on_hello-OnlyOnline (λ info role. register_tcp info conn role) m
          (read_frame json true input)
          (λ info role p. register_tcp-OnlyOnline info conn role m p only) only
    on_event-OnlyOnline m (served guid now frame) only = touch-OnlyOnline guid now m only
    on_event-OnlyOnline m (streamed guid now frame) only =
        handle_stream-OnlyOnline guid now frame m only
    on_event-OnlyOnline m (quic_ended info role conn) only =
        end_quic-OnlyOnline info role conn m only
    on_event-OnlyOnline m (tcp_ended info role conn) only = end_tcp-OnlyOnline info role conn m only
    on_event-OnlyOnline m (closing guid) only = close_device-OnlyOnline guid m only

    run-OnlyOnline :
        (es : List Event) (m : Manager) → OnlyOnline m → OnlyOnline (run json authenticate m es)
    unfolding run
    run-OnlyOnline [] m only = only
    run-OnlyOnline (e ∷ es) m only =
        run-OnlyOnline es (on_event json authenticate m e) (on_event-OnlyOnline m e only)

    -- If Authenticate accepts only devices with a property, then whatever the connections send, in
    -- any order and with any ends of sessions between, only such devices are online.
    pub online-admitted :
        (es : List Event) (guid : Text)
        → is_online guid (run json authenticate new_manager es) ≡ true
        → P guid
    unfolding new_manager is_online
    online-admitted es guid online =
        run-OnlyOnline es new_manager
          (λ g e. absurd (no_item (ap (is_item (λ i. true)) (sym (get-empty g)) ∙ e))) guid online
