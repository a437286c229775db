-- ===== src/StorageLayout/Connections.antt =====
-- messages/src/persistent_storage/connectionmarshaller.cpp: the stored connections. The plugins, the
-- connection data that is theirs, and both text functions of the persistent-storage package are parameters.
use secure_dialogues.Common.{
  ℕ, Option, none, some, List, [], ◌++◌, Text, ◌<◌, ◌^◌, ◌≡◌, refl, length,
}
use secure_dialogues.Common.Options.{◌>>=◌}
use secure_dialogues.Contacts.{ConnectionHolder, set_conn_name, set_plugin_conn_info}
use secure_dialogues.StorageLayout.{Platform, str_size, ◌⊕◌}

-- A plugin: an empty connection, and the operations of its serializer.
pub record Plugin (Info : Type 0) : Type 0 where
  pub make_conn_info : Info
  pub deserialize : List ℕ → Info → Info
  pub get_size : Info → ℕ
  pub serialize : Info → List ℕ

abbrev pub deserialized :
    {Info : Type 0} → Option (Plugin Info) → List ℕ → ConnectionHolder Info → ConnectionHolder Info
deserialized none src elem = elem
deserialized (some plugin) src elem =
    set_plugin_conn_info (some (plugin.deserialize src plugin.make_conn_info)) elem

abbrev pub plugin_size : {Info : Type 0} → Option (Plugin Info) → Info → ℕ → ℕ
plugin_size none i size = size
plugin_size (some plugin) i size = size ⊕ plugin.get_size i

abbrev pub plugin_bytes : {Info : Type 0} → Option (Plugin Info) → Info → List ℕ
plugin_bytes none i = []
plugin_bytes (some plugin) i = plugin.serialize i

module _ {Info : Type 0} (get : Text → Option (Plugin Info)) where
  unfoldable pub restore_connection :
      (List ℕ → Option (Text × List ℕ))
      → ConnectionHolder Info
      → List ℕ
      → Option (ConnectionHolder Info)
  restore_connection restore_str elem src = do
    (name, src) ← restore_str src
    (plugin_id, src) ← restore_str src
    some (deserialized (get plugin_id) src (set_conn_name name elem))

  -- Both read the connection data through its pointer, so without data they are undefined, `none`.
  unfoldable pub size_connection : (Info → Text) → Platform → ConnectionHolder Info → Option ℕ
  size_connection get_plugin_id p element = do
    i ← element.plugin_conn_info
    some (
        plugin_size (get (get_plugin_id i)) i
          (0 ⊕ str_size p (get_plugin_id i) ⊕ str_size p element.conn_name))

  unfoldable pub store_connection :
      (Info → Text) → (Text → List ℕ) → ConnectionHolder Info → Option (List ℕ)
  store_connection get_plugin_id package_save_str elem = do
    i ← elem.plugin_conn_info
    some (
        package_save_str elem.conn_name
        ++ (package_save_str (get_plugin_id i) ++ plugin_bytes (get (get_plugin_id i)) i))

module _ {Info : Type 0} (get : Text → Option (Plugin Info)) (get_plugin_id : Info → Text)
    (p : Platform) (package_save_str : Text → List ℕ)
    (restore_str : List ℕ → Option (Text × List ℕ))
    (restores : (s rest : Text)
      → length s < 256 ^ p.size_width
      → restore_str (package_save_str s ++ rest) ≡ some (s, rest)) where
  -- A connection of a plugin that is there is restored as it was stored, whatever the element held, if the
  -- package's texts and the plugin's data are read as they are written.
  pub restore_connection-store_connection :
      (h elem : ConnectionHolder Info) (i : Info) (plugin : Plugin Info)
      → h.plugin_conn_info ≡ some i
      → length h.conn_name < 256 ^ p.size_width
      → length (get_plugin_id i) < 256 ^ p.size_width
      → get (get_plugin_id i) ≡ some plugin
      → plugin.deserialize (plugin.serialize i) plugin.make_conn_info ≡ i
      → (store_connection get get_plugin_id package_save_str h
          >>= restore_connection get restore_str elem)
        ≡ some h
  unfolding restore_connection store_connection
  restore_connection-store_connection h elem i plugin holds name_fits id_fits found reads =
      rw holds (
        rw (restores h.conn_name, name_fits)
          (rw (restores (get_plugin_id i), id_fits) (rw found (rw reads refl))))
