-- ===== src/Messages/Tests.antt =====
-- The recipients of messages at concrete inputs.
use navmesh_go.Base.{◌≡◌, refl, true, false}
use navmesh_go.Base.Text.{codes, eq_text, trim_space, to_lower, split, join}
use navmesh_go.Messages.{
  normalize_message_types, recipient_accepts_message_type, recipient_accepts_device,
}
use navmesh_go.Messages.Types.{accepts-normalize_message_types}

normalized_test : normalize_message_types (codes " Offline, disk,,OFFLINE ") ≡ codes "offline,disk"
unfolding normalize_message_types trim_space to_lower eq_text split join
normalized_test = refl

device_test : recipient_accepts_device (codes "d1, d2") (codes "d3") ≡ false
unfolding recipient_accepts_device trim_space eq_text split join
device_test = refl

all_devices_test : recipient_accepts_device (codes " , ") (codes "d3") ≡ true
unfolding recipient_accepts_device trim_space eq_text split join
all_devices_test = refl

accepts-normalize_message_types_example :
    recipient_accepts_message_type
      (normalize_message_types (codes " Offline, disk,,OFFLINE "))
      (codes "DISK")
    ≡ recipient_accepts_message_type (codes " Offline, disk,,OFFLINE ") (codes "DISK")
accepts-normalize_message_types_example =
    accepts-normalize_message_types (codes " Offline, disk,,OFFLINE ") (codes "DISK")
