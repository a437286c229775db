-- ===== src/Tests/Storage.antt =====
-- Runs of messages/src/persistent_storage on a machine of 64 bits.
use mathlib.Core.List.{append_assoc}
use secure_dialogues.Common.{
  ℕ, ◌%◌, ◌^◌, ◌≡◌, refl, Option, none, some, List, [], ◌∷◌, ◌++◌, Text, codes, length,
  length-append, take, drop, take-append, drop-append, leb, if◌then◌else◌, true, false, arith,
}
use secure_dialogues.Common.Options.{◌>>=◌}
use secure_dialogues.Common.Int.{pos}
use secure_dialogues.Dialog.{Dialog, make_dialog, active}
use secure_dialogues.Contacts.{DiscoveredContact, make_discovered_contact, make_connection_holder}
use secure_dialogues.StorageLayout.{
  Platform, from_bytes, to_bytes, save_str, store_dialog, restore_dialog, size_dialog,
  store_contact, size_contact, store_discovered_contact, size_discovered_contact,
}
use secure_dialogues.StorageLayout.Numbers.{from_bytes-to_bytes}
use secure_dialogues.StorageLayout.RoundTrip.{Restores, restore_dialog-store_dialog}
use secure_dialogues.StorageLayout.Sizes.{stored_sizes}
use secure_dialogues.StorageLayout.Connections.{restore_connection, store_connection, Plugin}
use secure_dialogues.PluginData.{SmtpConnectionInfo}
use secure_dialogues.PluginData.Stored.{
  smtp_plugin, empty_smtp_connection, restore_connection-store_smtp_connection,
}
use secure_dialogues.Tests.Environments.{bob}

abbrev machine : Platform
machine = record {
  size_width = 8;
  enum_width = 4;
  long_width = 8;
  duration_width = 8;
  int_width = 4;
  bool_width = 1;
}

abbrev read_text : Platform → List ℕ → Option (Text × List ℕ)
read_text p src = do
  (n, rest) ← from_bytes p.size_width src
  if leb n (length rest) then some (take n rest, drop n rest) else none

read_text-Restores : (p : Platform) → Restores p (read_text p)
unfolding save_str
read_text-Restores p s rest fits =
    let enough : leb (length s) (length (s ++ rest)) ≡ true =
      rw (length-append s rest) (ground arith) in
    rw
      (
        append_assoc (to_bytes p.size_width (length s)) s rest,
        from_bytes-to_bytes p.size_width (length s) (s ++ rest) fits,
      )
      (rw (enough, take-append s rest, drop-append s rest) refl)

abbrev kept_dialog : Dialog
kept_dialog = make_dialog (codes "c") (codes "d") 4 300 active

restore_dialog-store_dialog_example :
    restore_dialog (read_text machine) machine (store_dialog machine kept_dialog ++ 7 ∷ [])
    ≡ some kept_dialog
restore_dialog-store_dialog_example =
    restore_dialog-store_dialog machine (read_text machine) (read_text-Restores machine) kept_dialog
      (7 ∷ []) (omega arith) (omega arith) (omega arith) (omega arith) (omega arith)

abbrev met : DiscoveredContact
met =
    make_discovered_contact (pos 77) (codes "mail") (codes "ann") (codes "KEY") (codes "Ann")
      (codes "id")

stored_sizes_example :
    (size_dialog machine kept_dialog ≡ length (store_dialog machine kept_dialog) % 2 ^ 32)
    × (size_contact machine bob ≡ length (store_contact machine bob) % 2 ^ 32)
    × (size_discovered_contact machine met ≡ length (store_discovered_contact machine met) % 2 ^ 32)
stored_sizes_example = stored_sizes machine kept_dialog bob met

abbrev home : SmtpConnectionInfo
home = record {
  user_name = codes "bob";
  password = codes "pw";
  tls_used = true;
  from = codes "b@c";
  smtp_addr = codes "s";
  smtp_port = pos 25;
  imap_addr = codes "i";
  imap_port = pos 993;
}

abbrev plugins_with_smtp : Text → Option (Plugin SmtpConnectionInfo)
plugins_with_smtp id = some (smtp_plugin machine (empty_smtp_connection false (pos 7) (pos 8)))

restore_connection-store_smtp_connection_example :
    (store_connection plugins_with_smtp
        (λ i. codes "smtp")
        (save_str machine)
        (make_connection_holder (codes "mail") (some home))
      >>= restore_connection plugins_with_smtp
          (read_text machine)
          (make_connection_holder (codes "new") none))
    ≡ some (make_connection_holder (codes "mail") (some home))
restore_connection-store_smtp_connection_example =
    restore_connection-store_smtp_connection plugins_with_smtp (λ i. codes "smtp") machine
      (save_str machine) (read_text machine) (read_text-Restores machine)
      (make_connection_holder (codes "mail") (some home))
      (make_connection_holder (codes "new") none) home false (pos 7) (pos 8) refl (omega arith)
      (omega arith)
      (record {
        user_name_fits = omega arith;
        password_fits = omega arith;
        from_fits = omega arith;
        smtp_addr_fits = omega arith;
        imap_addr_fits = omega arith;
        bool_fits = omega arith;
        smtp_port_fits = omega arith;
        imap_port_fits = omega arith;
      })
      refl
