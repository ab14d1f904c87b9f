-- ===== src/Messages.antt =====
-- services/message_service.go: the lists of message types and devices of a recipient, which are texts with
-- commas, and which recipients accept a message. The tables, templates and records of sent messages are
-- not modelled.
pub mod Types
mod Tests
use navmesh_go.Base.{ℕ, ◌≡◌, Bool, true, false, ◌||◌, ◌&&◌, not, List, [], ◌∷◌, if◌then◌else◌, ◌==◌}
use navmesh_go.Base.Text.{Text, codes, eq_text, is_empty, trim_space, to_lower, split, join, member}
use navmesh_go.Domain.{status_enabled}

-- The loop that leaves out blank items and those that were seen.
unfoldable pub unique_items : (Text → Text) → (seen : List Text) → List Text → List Text
unfolding member
unique_items clean seen [] = []
unique_items clean seen (part ∷ parts) =
    let item = clean part in
    let skipped = is_empty item || member item seen in
    let rest = unique_items clean (if skipped then seen else item ∷ seen) parts in
    if skipped then rest else item ∷ rest

abbrev pub clean_type : Text → Text
clean_type part = to_lower (trim_space part)

abbrev pub comma : Text
comma = codes ","

unfoldable pub normalize_message_types : Text → Text
unfolding unique_items
normalize_message_types message_types =
    join comma (unique_items clean_type [] (split b',' message_types))

unfoldable pub normalize_string_list : List Text → List Text
unfolding unique_items
normalize_string_list values = unique_items trim_space [] values

unfoldable pub normalize_csv_list : Text → Text
unfolding normalize_string_list
normalize_csv_list value = join comma (normalize_string_list (split b',' value))

-- The loop that looks for an item.
unfoldable pub has_item : (Text → Text) → Text → List Text → Bool
has_item clean wanted [] = false
has_item clean wanted (item ∷ items) = eq_text (clean item) wanted || has_item clean wanted items

unfoldable pub recipient_accepts_message_type : (message_types message_type : Text) → Bool
unfolding has_item
recipient_accepts_message_type message_types message_type =
    let wanted = clean_type message_type in
    not (is_empty wanted) && has_item clean_type wanted (split b',' message_types)

unfoldable pub recipient_accepts_device : (device_guids device_guid : Text) → Bool
unfolding normalize_csv_list has_item
recipient_accepts_device device_guids device_guid =
    let wanted = trim_space device_guid in
    let guids = normalize_csv_list device_guids in
    is_empty wanted || is_empty guids || has_item trim_space wanted (split b',' guids)

pub record SaveMessageRecipientRequest : Type 0 where
  pub guid : Text
  pub name : Text
  pub email : Text
  pub phone : Text
  pub role : Text
  pub message_types : Text
  pub device_guids : Text
  pub tags : Text
  pub remark : Text
  pub status : ℕ

unfoldable pub normalize_recipient_request :
    SaveMessageRecipientRequest → SaveMessageRecipientRequest
unfolding normalize_message_types normalize_csv_list
normalize_recipient_request req = record {
  guid = trim_space req.guid;
  name = trim_space req.name;
  email = trim_space req.email;
  phone = trim_space req.phone;
  role = trim_space req.role;
  message_types = normalize_message_types req.message_types;
  device_guids = normalize_csv_list req.device_guids;
  tags = trim_space req.tags;
  remark = trim_space req.remark;
  status = if req.status == 0 then status_enabled else req.status;
}
