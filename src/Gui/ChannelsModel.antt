-- ===== src/Gui/ChannelsModel.antt =====
-- gui/src/models/channelslistmodel.cpp: the channels that the user can choose from, with their state.
-- The plugins are parameters: the id of the plugin of a connection, and the validator of addresses of
-- the plugin with an id, if it is there. So is `from_utf8`, by which Qt reads a text up to its first
-- zero. The wording of the messages is that of the source, untranslated.
use secure_dialogues.Common.{Bool, Option, none, some, List, [], map, Text, codes, text_eq}
use secure_dialogues.Marshaller.{c_str}
use secure_dialogues.Contacts.{ConnectionHolder}
use secure_dialogues.Core.{ChannelStatus, undefined}
use secure_dialogues.Gui.Rows.{Rows, find_if, append_row, remove_row, change_row}

pub record ListItem (Validator : Type 0) : Type 0 where
  pub name : Text
  pub message : Text
  pub status : ChannelStatus
  pub validator : Option Validator

abbrev pub ChannelsListModel : Type 0 → Type 0
ChannelsListModel Validator = Rows (ListItem Validator)

module _ (from_utf8 : Text → Text) where
  abbrev pub make_qstring : Text → Text
  make_qstring s = from_utf8 (c_str s)

  module _ {Info Validator : Type 0} (get_plugin_id : Info → Text)
      (get_address_validator : Text → Option Validator) where
    abbrev pub validator_for : Option Info → Option Validator
    validator_for none = none
    validator_for (some i) = get_address_validator (get_plugin_id i)

    abbrev pub list_item : ConnectionHolder Info → ListItem Validator
    list_item h = record {
      name = make_qstring h.conn_name;
      message = codes "Connection not established yet";
      status = undefined;
      validator = validator_for h.plugin_conn_info;
    }

    unfoldable pub make_channels_list_model :
        List (ConnectionHolder Info) → ChannelsListModel Validator
    make_channels_list_model elements = record { rows = map list_item elements; signals = [] }

    -- Unlike the constructor, `added` asks a null pointer for its plugin: `none`.
    abbrev pub append_known :
        ConnectionHolder Info
        → Option Info
        → ChannelsListModel Validator
        → Option (ChannelsListModel Validator)
    append_known h none m = none
    append_known h (some i) m = some (append_row (list_item h) m)

    unfoldable pub channel_added :
        ConnectionHolder Info → ChannelsListModel Validator → Option (ChannelsListModel Validator)
    channel_added h m = append_known h h.plugin_conn_info m

  abbrev pub is_named : {Validator : Type 0} → Text → ListItem Validator → Bool
  is_named name item = text_eq item.name (make_qstring name)

  module _ {Info Validator : Type 0} where
    unfoldable pub channel_changed :
        ConnectionHolder Info → ChannelsListModel Validator → ChannelsListModel Validator
    channel_changed h m = change_row (λ item. item) (find_if (is_named h.conn_name) m.rows) m

    unfoldable pub channel_removed :
        ConnectionHolder Info → ChannelsListModel Validator → ChannelsListModel Validator
    channel_removed h m = remove_row (find_if (is_named h.conn_name) m.rows) m

  module _ {Validator : Type 0} where
    abbrev pub set_channel_status : ChannelStatus → Text → ListItem Validator → ListItem Validator
    set_channel_status status message item = record item {
      status = status;
      message = make_qstring message;
    }

    unfoldable pub update_channel_status :
        ChannelStatus → Text → Text → ChannelsListModel Validator → ChannelsListModel Validator
    update_channel_status status channel_name message m =
        change_row (set_channel_status status message) (find_if (is_named channel_name) m.rows) m
