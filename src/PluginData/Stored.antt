-- ===== src/PluginData/Stored.antt =====
-- The connections of the SMTP plugin in the storage: plugins/smtp-plugin/smtpfacade.cpp gives the storage
-- its serializer and empty connections.
use mathlib.Core.List.{append-nil}
use secure_dialogues.Common.{
  ℕ, ◌<◌, ◌^◌, ◌≡◌, ap, sym, ◌∙◌, Bool, Option, none, some, List, [], ◌++◌, Text, length,
}
use secure_dialogues.Common.Int.{ℤ}
use secure_dialogues.Common.Options.{◌>>=◌}
use secure_dialogues.Contacts.{ConnectionHolder}
use secure_dialogues.StorageLayout.{Platform}
use secure_dialogues.StorageLayout.Connections.{
  Plugin, store_connection, restore_connection, restore_connection-store_connection,
}
use secure_dialogues.PluginData.{
  SmtpConnectionInfo, serialize_smtp_connection, deserialize_smtp_connection, size_smtp_connection,
}
use secure_dialogues.PluginData.RoundTrip.{
  SmtpFits, inserted, deserialize-serialize_smtp_connection,
}

-- A default constructed connection: the flag and the ports hold what was there before.
abbrev pub empty_smtp_connection : Bool → ℤ → ℤ → SmtpConnectionInfo
empty_smtp_connection tls smtp_port imap_port = record {
  user_name = [];
  password = [];
  tls_used = tls;
  from = [];
  smtp_addr = [];
  smtp_port = smtp_port;
  imap_addr = [];
  imap_port = imap_port;
}

abbrev pub or_else : {A : Type 0} → A → Option A → A
or_else a none = a
or_else a (some b) = b

abbrev pub smtp_plugin : Platform → SmtpConnectionInfo → Plugin SmtpConnectionInfo
smtp_plugin p empty = record {
  make_conn_info = empty;
  deserialize = λ src old. or_else old (deserialize_smtp_connection p src (some old));
  get_size = λ i. size_smtp_connection p (some i);
  serialize = λ i. or_else [] (serialize_smtp_connection p (some i));
}

inserted_empty :
    (p : Platform) (i : SmtpConnectionInfo) (tls : Bool) (smtp_port imap_port : ℤ)
    → inserted p i (empty_smtp_connection tls smtp_port imap_port) ≡ i
inserted_empty p i tls smtp_port imap_port = simp append-nil

module _ (get : Text → Option (Plugin SmtpConnectionInfo))
    (get_plugin_id : SmtpConnectionInfo → Text) (p : Platform) (package_save_str : Text → List ℕ)
    (restore_str : List ℕ → Option (Text × List ℕ))
    (restores : (s rest : Text)
      → length s < 256 ^ p.size_width
      → restore_str (package_save_str s ++ rest) ≡ some (s, rest)) where
  -- A connection of the SMTP plugin, which is there, is restored as it was stored, whatever the element
  -- held and whatever an empty connection holds in its flag and ports, if the package's reader reads
  -- what `save_str` writes, and the lengths and ports fit into their types.
  pub restore_connection-store_smtp_connection :
      (h elem : ConnectionHolder SmtpConnectionInfo) (i : SmtpConnectionInfo) (tls : Bool)
      (smtp_port imap_port : ℤ)
      → h.plugin_conn_info ≡ some i
      → length h.conn_name < 256 ^ p.size_width
      → length (get_plugin_id i) < 256 ^ p.size_width
      → SmtpFits p i
      → get (get_plugin_id i) ≡ some (smtp_plugin p (empty_smtp_connection tls smtp_port imap_port))
      → (store_connection get get_plugin_id package_save_str h
          >>= restore_connection get restore_str elem)
        ≡ some h
  restore_connection-store_smtp_connection h elem i tls smtp_port imap_port holds name_fits id_fits
        fits there =
      let empty = empty_smtp_connection tls smtp_port imap_port in
      let (bytes, written, size, read) = deserialize-serialize_smtp_connection p i empty [] fits in
      let read_alone : deserialize_smtp_connection p bytes (some empty)
          ≡ some (inserted p i empty) =
        ap (λ (b : List ℕ). deserialize_smtp_connection p b (some empty)) (sym (append-nil bytes))
        ∙ read in
      let again : (smtp_plugin p empty).deserialize ((smtp_plugin p empty).serialize i) empty ≡ i =
        rw written (ap (or_else empty) read_alone ∙ inserted_empty p i tls smtp_port imap_port) in
      restore_connection-store_connection get get_plugin_id p package_save_str restore_str restores
        h elem i (smtp_plugin p empty) holds name_fits id_fits there again
