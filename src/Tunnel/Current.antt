-- ===== src/Tunnel/Current.antt =====
-- tunnel/manager.go: the item of a device belongs to its current connection.
use navmesh_go.Base.{ℕ, ◌≡◌, ◌≢◌, ◌∙◌, refl, ap, false, some, inl, inr, arith, Bool-cases}
use navmesh_go.Base.Text.{Text, eq_text_refl, is_empty, trim_space}
use navmesh_go.Base.Map.{get, get-put}
use navmesh_go.Tunnel.{
  DeviceConnectionInfo, DeviceConnection, Manager, Role, legacy_role, control_role, data_role,
  is_conn, replace, register_quic, is_item, unregister_if, unregister_quic_control,
}

-- A connection that is not the control connection that was registered last.
abbrev Stale : Text → ℕ → Manager → Type 0
Stale guid old m = is_item (λ item. is_conn old item.control) (get m.connections guid) ≡ false

replace-item :
    (guid : Text) (item : DeviceConnection) (m : Manager)
    → get (replace guid item m).connections guid ≡ some item
unfolding replace
replace-item guid item m = get-put m.connections guid guid item ∙ rw (eq_text_refl guid) refl

Stale-unregister :
    (guid : Text) (old : ℕ) (m : Manager)
    → Stale guid old m
    → unregister_quic_control guid old m ≡ (m, false)
unfolding unregister_quic_control unregister_if
Stale-unregister guid old m stale = elim (Bool-cases (is_empty (trim_space guid))) [
  | inl bare ↦ rw bare refl
  | inr named ↦ rw (named, stale) refl
]

-- After another control connection has been registered for a device, the end of an older one changes
-- nothing.
pub unregister-register_quic :
    (info : DeviceConnectionInfo) (old conn : ℕ) (role : Role) (m : Manager)
    → role ≢ data_role
    → conn ≢ old
    → unregister_quic_control info.device_guid old (register_quic info conn role m)
      ≡ (register_quic info conn role m, false)
unfolding register_quic
unregister-register_quic info old conn data_role m other fresh = absurd (other refl)
unregister-register_quic info old conn control_role m other fresh =
    Stale-unregister info.device_guid old _ (
      ap (is_item (λ item. is_conn old item.control)) (replace-item info.device_guid _ m)
      ∙ ground arith)
unregister-register_quic info old conn legacy_role m other fresh =
    Stale-unregister info.device_guid old _ (
      ap (is_item (λ item. is_conn old item.control)) (replace-item info.device_guid _ m)
      ∙ ground arith)
