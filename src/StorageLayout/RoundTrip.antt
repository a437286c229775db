-- ===== src/StorageLayout/RoundTrip.antt =====
-- What the marshallers store they restore.
use mathlib.Core.List.{append_assoc}
use secure_dialogues.Common.{
  ℕ, ◌<◌, ◌^◌, ◌≡◌, refl, ap, some, List, [], ◌++◌, length, Text, Option, All, ◌≢◌, true, ◌∷◌,
  Bool-cases, ◌==◌, inl, inr, arith,
}
use secure_dialogues.Dialog.{
  Dialog, Status, new, create_request, wait_confirm, accepted_wait, wait_key_verification, active,
  closed, aborted, status_code,
}
use secure_dialogues.Contacts.{Contact, DiscoveredContact}
use secure_dialogues.StorageLayout.{
  Platform, save_str, status_found, store_dialog, restore_dialog, store_contact, restore_contact,
  store_discovered_contact, restore_discovered_contact, copy_padded, get_dialog_secondary_index,
  get_contact_secondary_index,
}
use secure_dialogues.StorageLayout.Numbers.{
  Fits, from_bytes-to_bytes, from_pattern-to_pattern, to_pattern_lt,
}

status_found-status_code : (s : Status) → status_found (status_code s) ≡ some s
unfolding status_found
status_found-status_code new = refl
status_found-status_code create_request = refl
status_found-status_code wait_confirm = refl
status_found-status_code accepted_wait = refl
status_found-status_code wait_key_verification = refl
status_found-status_code active = refl
status_found-status_code closed = refl
status_found-status_code aborted = refl

copy_padded_lem : (s : Text) → All (λ c. c ≢ 0) s → copy_padded s ≡ s ++ 0 ∷ []
unfolding copy_padded
copy_padded_lem [] no_zero = refl
copy_padded_lem (x ∷ xs) no_zero = elim (Bool-cases (x == 0)) [
  | inl zero_byte ↦ absurd (ground (arith, no_zero.0, zero_byte))
  | inr other ↦ rw other (ap (λ (k : Text). x ∷ k) (copy_padded_lem xs no_zero.1))
]

-- `restore_str` of the package reads what `save_str` writes.
abbrev pub Restores : Platform → (List ℕ → Option (Text × List ℕ)) → Type 0
Restores p restore_str =
    (s rest : List ℕ)
    → length s < 256 ^ p.size_width
    → restore_str (save_str p s ++ rest) ≡ some (s, rest)

module _ (p : Platform) (restore_str : List ℕ → Option (Text × List ℕ))
    (restores : Restores p restore_str) where
  -- A dialog that is stored is restored as it was, whatever follows its bytes, if the package's reader
  -- reads what `save_str` writes and the lengths and numbers fit into their types.
  pub restore_dialog-store_dialog :
      (d : Dialog) (rest : List ℕ)
      → length d.dialog_id < 256 ^ p.size_width
      → length d.contact_id < 256 ^ p.size_width
      → status_code d.status < 256 ^ p.enum_width
      → d.peer_sequental < 256 ^ p.long_width
      → d.this_sequental < 256 ^ p.long_width
      → restore_dialog restore_str p (store_dialog p d ++ rest) ≡ some d
  unfolding restore_dialog store_dialog
  restore_dialog-store_dialog d rest id_fits contact_fits status_fits peer_fits this_fits = simp (
    append_assoc, restores, from_bytes-to_bytes, status_found-status_code, id_fits, contact_fits,
    status_fits, peer_fits, this_fits,
  )

  pub restore_contact-store_contact :
      (c : Contact) (rest : List ℕ)
      → length c.channel_moniker < 256 ^ p.size_width
      → length c.name < 256 ^ p.size_width
      → length c.adress < 256 ^ p.size_width
      → length c.contact_id < 256 ^ p.size_width
      → length c.public_key < 256 ^ p.size_width
      → restore_contact restore_str (store_contact p c ++ rest) ≡ some c
  unfolding restore_contact store_contact
  restore_contact-store_contact c rest moniker_fits name_fits adress_fits id_fits key_fits =
      simp (append_assoc, restores, moniker_fits, name_fits, adress_fits, id_fits, key_fits)

  pub restore_discovered_contact-store_discovered_contact :
      (c : DiscoveredContact) (rest : List ℕ)
      → Fits p.duration_width c.created
      → length c.channel_moniker < 256 ^ p.size_width
      → length c.adress < 256 ^ p.size_width
      → length c.public_key < 256 ^ p.size_width
      → length c.name < 256 ^ p.size_width
      → length c.dialog_id < 256 ^ p.size_width
      → restore_discovered_contact restore_str p (store_discovered_contact p c ++ rest) ≡ some c
  unfolding restore_discovered_contact store_discovered_contact
  restore_discovered_contact-store_discovered_contact c rest created_fits moniker_fits adress_fits
        key_fits name_fits id_fits =
      let lt = to_pattern_lt p.duration_width c.created created_fits in
      let same = from_pattern-to_pattern p.duration_width c.created created_fits in
      simp (
        append_assoc, restores, from_bytes-to_bytes, lt, same, moniker_fits, adress_fits, key_fits,
        name_fits, id_fits,
      )

  -- The key of the secondary index by contact that is computed from a stored dialog is the contact's id
  -- and a zero, where the id holds no zero and the block could be allocated.
  pub get_dialog_secondary_index-store_dialog :
      (d : Dialog) (rest : List ℕ)
      → All (λ c. c ≢ 0) d.contact_id
      → length d.dialog_id < 256 ^ p.size_width
      → length d.contact_id < 256 ^ p.size_width
      → status_code d.status < 256 ^ p.enum_width
      → d.peer_sequental < 256 ^ p.long_width
      → d.this_sequental < 256 ^ p.long_width
      → get_dialog_secondary_index restore_str p true (store_dialog p d ++ rest)
        ≡ some (d.contact_id ++ 0 ∷ [])
  unfolding get_dialog_secondary_index
  get_dialog_secondary_index-store_dialog d rest no_zero id_fits contact_fits status_fits peer_fits
        this_fits =
      rw (restore_dialog-store_dialog d rest id_fits contact_fits status_fits peer_fits this_fits)
        (ap some (copy_padded_lem d.contact_id no_zero))

  pub get_contact_secondary_index-store_contact :
      (c : Contact) (rest : List ℕ)
      → All (λ x. x ≢ 0) c.channel_moniker
      → length c.channel_moniker < 256 ^ p.size_width
      → length c.name < 256 ^ p.size_width
      → length c.adress < 256 ^ p.size_width
      → length c.contact_id < 256 ^ p.size_width
      → length c.public_key < 256 ^ p.size_width
      → get_contact_secondary_index restore_str true (store_contact p c ++ rest)
        ≡ some (c.channel_moniker ++ 0 ∷ [])
  unfolding get_contact_secondary_index
  get_contact_secondary_index-store_contact c rest no_zero moniker_fits name_fits adress_fits
        id_fits key_fits =
      rw (restore_contact-store_contact c rest moniker_fits name_fits adress_fits id_fits key_fits)
        (ap some (copy_padded_lem c.channel_moniker no_zero))
