-- ===== src/Gui/ConnectionModels.antt =====
-- gui/src/models/connectioninfomodel.cpp, contactmodel.cpp and discovered-contacts/
-- discoveredcontactmodel.cpp: the connections, the contacts and the discovered contacts as lists.
-- `from_utf8` is Qt's; how a contact is displayed is a parameter, `format`, of its name and address.
use secure_dialogues.Common.{Bool, List, [], map, Text, text_eq}
use secure_dialogues.Contacts.{Contact, DiscoveredContact, ConnectionHolder}
use secure_dialogues.Core.{ChannelStatus, undefined}
use secure_dialogues.Gui.ChannelsModel.{make_qstring}
use secure_dialogues.Gui.Rows.{Rows, find_if, append_row, remove_row, remove_and_reset, change_row}

pub record ConnData : Type 0 where
  pub conn_name : Text
  pub status : ChannelStatus

abbrev pub ConnectionInfoModel : Type 0
ConnectionInfoModel = Rows ConnData

module _ (from_utf8 : Text → Text) {Info : Type 0} where
  abbrev pub conn_data : ConnectionHolder Info → ConnData
  conn_data h = record { conn_name = make_qstring from_utf8 h.conn_name; status = undefined }

  unfoldable pub make_connection_info_model : List (ConnectionHolder Info) → ConnectionInfoModel
  make_connection_info_model elements = record { rows = map conn_data elements; signals = [] }

  unfoldable pub connection_row_added :
      ConnectionHolder Info → ConnectionInfoModel → ConnectionInfoModel
  connection_row_added h m = append_row (conn_data h) m

  unfoldable pub connection_row_removed :
      ConnectionHolder Info → ConnectionInfoModel → ConnectionInfoModel
  connection_row_removed h m =
      remove_row (find_if (λ c. text_eq (make_qstring from_utf8 h.conn_name) c.conn_name) m.rows) m

unfoldable pub update_connection_status :
    (Text → Text) → ChannelStatus → Text → ConnectionInfoModel → ConnectionInfoModel
update_connection_status from_utf8 status name m =
    change_row (λ c. record c { status = status })
      (find_if (λ c. text_eq (make_qstring from_utf8 name) c.conn_name) m.rows) m

pub record ContactElement (Display : Type 0) : Type 0 where
  pub id : Text
  pub display : Display

abbrev pub ContactModel : Type 0 → Type 0
ContactModel Display = Rows (ContactElement Display)

module _ {Display : Type 0} (format : Text → Text → Display) where
  abbrev pub contact_element : Contact → ContactElement Display
  contact_element c = record { id = c.contact_id; display = format c.name c.adress }

  abbrev pub has_id : Text → ContactElement Display → Bool
  has_id id c = text_eq id c.id

  unfoldable pub make_contact_model : List Contact → ContactModel Display
  make_contact_model contacts = record { rows = map contact_element contacts; signals = [] }

  unfoldable pub contact_row_added : Contact → ContactModel Display → ContactModel Display
  contact_row_added c m = append_row (contact_element c) m

  unfoldable pub contact_row_changed : Contact → ContactModel Display → ContactModel Display
  contact_row_changed c m =
      change_row (λ e. record e { display = format c.name c.adress })
        (find_if (has_id c.contact_id) m.rows) m

  unfoldable pub contact_row_removed : Contact → ContactModel Display → ContactModel Display
  contact_row_removed c m = remove_row (find_if (has_id c.contact_id) m.rows) m

abbrev pub DiscoveredContactModel : Type 0
DiscoveredContactModel = Rows DiscoveredContact

abbrev pub is_from : DiscoveredContact → DiscoveredContact → Bool
is_from obj elem = text_eq obj.dialog_id elem.dialog_id

unfoldable pub make_discovered_contact_model : List DiscoveredContact → DiscoveredContactModel
make_discovered_contact_model contacts = record { rows = contacts; signals = [] }

unfoldable pub discovered_added :
    DiscoveredContact → DiscoveredContactModel → DiscoveredContactModel
discovered_added obj m = append_row obj m

unfoldable pub discovered_changed :
    DiscoveredContact → DiscoveredContactModel → DiscoveredContactModel
discovered_changed obj m = change_row (λ elem. obj) (find_if (is_from obj) m.rows) m

unfoldable pub discovered_removed :
    DiscoveredContact → DiscoveredContactModel → DiscoveredContactModel
discovered_removed obj m = remove_and_reset (find_if (is_from obj) m.rows) m
