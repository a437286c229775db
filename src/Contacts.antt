-- ===== src/Contacts.antt =====
-- messages/src/primitives/contact.h, contact.cpp, discoveredcontact.cpp and connectionholder.cpp: the
-- contacts, the contacts that made themselves known, and the connections of the user. Ids and times
-- that the constructors draw are arguments; the setters return the changed record.
use secure_dialogues.Common.{Text, Option}
use secure_dialogues.Common.Int.{ℤ}

pub record Contact : Type 0 where
  pub contact_id : Text
  pub name : Text
  pub channel_moniker : Text
  pub adress : Text
  pub public_key : Text

-- The constructor with an id; the other one draws the id by `make_uiid`.
abbrev pub make_contact : Text → Text → Text → Text → Text → Contact
make_contact channel_moniker name adress key id = record {
  contact_id = id;
  name = name;
  channel_moniker = channel_moniker;
  adress = adress;
  public_key = key;
}

abbrev pub set_name : Text → Contact → Contact
set_name name c = record c { name = name }

abbrev pub set_channel_moniker : Text → Contact → Contact
set_channel_moniker moniker c = record c { channel_moniker = moniker }

abbrev pub set_adress : Text → Contact → Contact
set_adress adress c = record c { adress = adress }

abbrev pub set_public_key : Text → Contact → Contact
set_public_key key c = record c { public_key = key }

pub record DiscoveredContact : Type 0 where
  pub created : ℤ
  pub channel_moniker : Text
  pub adress : Text
  pub public_key : Text
  pub name : Text
  pub dialog_id : Text

abbrev pub make_discovered_contact : ℤ → Text → Text → Text → Text → Text → DiscoveredContact
make_discovered_contact created channel_moniker contact_adress public_key name dialog_id = record {
  created = created;
  channel_moniker = channel_moniker;
  adress = contact_adress;
  public_key = public_key;
  name = name;
  dialog_id = dialog_id;
}

-- A connection; `PluginConnectionInfo` is an interface of the plugins.
pub record ConnectionHolder (Info : Type 0) : Type 0 where
  pub conn_name : Text
  pub plugin_conn_info : Option Info

abbrev pub make_connection_holder : {Info : Type 0} → Text → Option Info → ConnectionHolder Info
make_connection_holder name info = record { conn_name = name; plugin_conn_info = info }

abbrev pub set_conn_name : {Info : Type 0} → Text → ConnectionHolder Info → ConnectionHolder Info
set_conn_name name h = record h { conn_name = name }

abbrev pub set_plugin_conn_info :
    {Info : Type 0} → Option Info → ConnectionHolder Info → ConnectionHolder Info
set_plugin_conn_info info h = record h { plugin_conn_info = info }
