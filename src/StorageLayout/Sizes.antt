-- ===== src/StorageLayout/Sizes.antt =====
-- The sizes that the marshallers announce for what they store.
use secure_dialogues.Common.{◌%◌, ◌^◌, ◌≡◌, length, Text, arith, length-append, ◌+◌}
use secure_dialogues.Dialog.{Dialog}
use secure_dialogues.Contacts.{Contact, DiscoveredContact}
use secure_dialogues.StorageLayout.{
  Platform, save_str, store_dialog, size_dialog, store_contact, size_contact,
  store_discovered_contact, size_discovered_contact,
}
use secure_dialogues.StorageLayout.Numbers.{length-to_bytes}

pub length-save_str : (p : Platform) (s : Text) → length (save_str p s) ≡ p.size_width + length s
unfolding save_str
length-save_str p s = simp (length-append, length-to_bytes)

module _ (p : Platform) where
  size_dialog-store_dialog : (d : Dialog) → size_dialog p d ≡ length (store_dialog p d) % 2 ^ 32
  unfolding size_dialog store_dialog
  size_dialog-store_dialog d = simp (length-append, length-save_str, length-to_bytes) (omega arith)

  size_contact-store_contact :
      (c : Contact) → size_contact p c ≡ length (store_contact p c) % 2 ^ 32
  unfolding size_contact store_contact
  size_contact-store_contact c = simp (length-append, length-save_str) (omega arith)

  size_discovered_contact-store_discovered_contact :
      (c : DiscoveredContact)
      → size_discovered_contact p c ≡ length (store_discovered_contact p c) % 2 ^ 32
  unfolding size_discovered_contact store_discovered_contact
  size_discovered_contact-store_discovered_contact c =
      simp (length-append, length-save_str, length-to_bytes) (omega arith)

  -- The announced sizes of a dialog, a contact and a discovered contact are the numbers of bytes that
  -- are stored, modulo the range of `uint32_t`; so they are exact below four gibibytes.
  pub stored_sizes :
      (d : Dialog) (c : Contact) (k : DiscoveredContact)
      → (size_dialog p d ≡ length (store_dialog p d) % 2 ^ 32)
        × (size_contact p c ≡ length (store_contact p c) % 2 ^ 32)
        × (size_discovered_contact p k ≡ length (store_discovered_contact p k) % 2 ^ 32)
  stored_sizes d c k = (
    size_dialog-store_dialog d,
    size_contact-store_contact c,
    size_discovered_contact-store_discovered_contact k,
  )
