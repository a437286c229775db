-- ===== src/StorageLayout.antt =====
-- messages/src/persistent_storage: the bytes under which the storages keep their elements.
-- `memcpy` of a number is its bytes from the low one on, on a machine whose types have the widths of a
-- `Platform`, and a byte is a number below 256. Reading behind the end of the bytes, which the source
-- does not guard against, is `none`. `save_str` and `restore_str` of the persistent-storage package are
-- parameters, and so are the plugins, whose connection data is the plugin's own bytes.
use secure_dialogues.Common.{
  ℕ, zero, suc, ◌+◌, ◌-◌, ◌*◌, ◌/◌, ◌%◌, ◌^◌, Bool, true, false, Option, none, some, List, [], ◌∷◌,
  ◌++◌, Text, length, take, drop, ltb, leb, ◌==◌, if◌then◌else◌,
}
use secure_dialogues.Common.Int.{ℤ, pos, negsuc}
use secure_dialogues.Common.Options.{◌>>=◌}
use secure_dialogues.Dialog.{
  Dialog, Status, new, create_request, wait_confirm, accepted_wait, wait_key_verification, active,
  closed, aborted, status_code, make_dialog,
}
use secure_dialogues.Contacts.{Contact, DiscoveredContact, make_contact, make_discovered_contact}
pub mod Numbers
pub mod RoundTrip
pub mod Sizes
pub mod Connections

-- `sizeof` of `std::string::size_type`, of an enumeration, of `unsigned long`, of a duration of the
-- system clock, of `int` and of `bool`.
pub record Platform : Type 0 where
  pub size_width : ℕ
  pub enum_width : ℕ
  pub long_width : ℕ
  pub duration_width : ℕ
  pub int_width : ℕ
  pub bool_width : ℕ

-- The bytes of a number in a given width.
unfoldable pub to_bytes : ℕ → ℕ → List ℕ
to_bytes zero n = []
to_bytes (suc w) n = n % 256 ∷ to_bytes w (n / 256)

unfoldable pub from_bytes : ℕ → List ℕ → Option (ℕ × List ℕ)
from_bytes zero src = some (0, src)
from_bytes (suc w) [] = none
from_bytes (suc w) (b ∷ src) = do (high, rest) ← from_bytes w src; some (b + 256 * high, rest)

-- The bit pattern of a signed number, and the number of a pattern.
unfoldable pub to_pattern : ℕ → ℤ → ℕ
to_pattern w (pos n) = n % 256 ^ w
to_pattern w (negsuc n) = 256 ^ w - 1 - n % 256 ^ w

unfoldable pub from_pattern : ℕ → ℕ → ℤ
from_pattern w n = if ltb (2 * n) (256 ^ w) then pos n else negsuc (256 ^ w - 1 - n)

-- `store_simple_type` and `restore_simple_type`: what is written stands before what is written later.
abbrev pub store_simple_type : ℕ → ℕ → List ℕ
store_simple_type w n = to_bytes w n

abbrev pub restore_simple_type : ℕ → List ℕ → Option (ℕ × List ℕ)
restore_simple_type w src = from_bytes w src

-- `save_str` of store_helpers.h.
unfoldable pub save_str : Platform → Text → List ℕ
save_str p s = to_bytes p.size_width (length s) ++ s

unfoldable pub status_found : ℕ → Option Status
status_found n =
    if n == 0
    then some new
    else if n == 1
    then some create_request
    else if n == 2
    then some wait_confirm
    else if n == 3
    then some accepted_wait
    else if n == 4
    then some wait_key_verification
    else if n == 5
    then some active
    else if n == 6
    then some closed
    else if n == 7
    then some aborted
    else none

-- The sum `size += n` of `uint32_t`.
infixl 60 ◌⊕◌
abbrev pub ◌⊕◌ : ℕ → ℕ → ℕ
size ⊕ n = (size + n) % 2 ^ 32

abbrev pub str_size : Platform → Text → ℕ
str_size p s = p.size_width + length s

unfoldable pub store_dialog : Platform → Dialog → List ℕ
store_dialog p d =
    save_str p d.dialog_id
    ++ (save_str p d.contact_id
        ++ (store_simple_type p.enum_width (status_code d.status)
            ++ (store_simple_type p.long_width d.peer_sequental
                ++ store_simple_type p.long_width d.this_sequental)))

unfoldable pub size_dialog : Platform → Dialog → ℕ
size_dialog p d =
    0
    ⊕ str_size p d.dialog_id
    ⊕ str_size p d.contact_id
    ⊕ p.enum_width
    ⊕ p.long_width
    ⊕ p.long_width

unfoldable pub store_contact : Platform → Contact → List ℕ
store_contact p c =
    save_str p c.channel_moniker
    ++ (save_str p c.name
        ++ (save_str p c.adress ++ (save_str p c.contact_id ++ save_str p c.public_key)))

unfoldable pub size_contact : Platform → Contact → ℕ
size_contact p c =
    0
    ⊕ str_size p c.channel_moniker
    ⊕ str_size p c.name
    ⊕ str_size p c.adress
    ⊕ str_size p c.contact_id
    ⊕ str_size p c.public_key

unfoldable pub store_discovered_contact : Platform → DiscoveredContact → List ℕ
store_discovered_contact p c =
    store_simple_type p.duration_width (to_pattern p.duration_width c.created)
    ++ (save_str p c.channel_moniker
        ++ (save_str p c.adress
            ++ (save_str p c.public_key ++ (save_str p c.name ++ save_str p c.dialog_id))))

unfoldable pub size_discovered_contact : Platform → DiscoveredContact → ℕ
size_discovered_contact p c =
    0
    ⊕ p.duration_width
    ⊕ str_size p c.channel_moniker
    ⊕ str_size p c.adress
    ⊕ str_size p c.public_key
    ⊕ str_size p c.name
    ⊕ str_size p c.dialog_id

-- `strncpy` into a zeroed block of one more than the size: the text up to its first zero, then zeros.
unfoldable pub copy_padded : Text → List ℕ
copy_padded [] = 0 ∷ []
copy_padded (x ∷ xs) = if x == 0 then 0 ∷ zeros (length xs + 1) else x ∷ copy_padded xs
  where
    zeros : ℕ → List ℕ
    zeros zero = []
    zeros (suc n) = 0 ∷ zeros n

module _ (restore_str : List ℕ → Option (Text × List ℕ)) where
  unfoldable pub restore_dialog : Platform → List ℕ → Option Dialog
  restore_dialog p src = do
    (dialog_id, src) ← restore_str src
    (contact_id, src) ← restore_str src
    (code, src) ← restore_simple_type p.enum_width src
    status ← status_found code
    (peer, src) ← restore_simple_type p.long_width src
    (this, src) ← restore_simple_type p.long_width src
    some (make_dialog contact_id dialog_id peer this status)

  unfoldable pub restore_contact : List ℕ → Option Contact
  restore_contact src = do
    (channel_moniker, src) ← restore_str src
    (name, src) ← restore_str src
    (adress, src) ← restore_str src
    (contact_id, src) ← restore_str src
    (public_key, src) ← restore_str src
    some (make_contact channel_moniker name adress public_key contact_id)

  unfoldable pub restore_discovered_contact : Platform → List ℕ → Option DiscoveredContact
  restore_discovered_contact p src = do
    (pattern_of, src) ← restore_simple_type p.duration_width src
    (channel_moniker, src) ← restore_str src
    (contact_adress, src) ← restore_str src
    (public_key, src) ← restore_str src
    (name, src) ← restore_str src
    (dialog_id, src) ← restore_str src
    some (
        make_discovered_contact (from_pattern p.duration_width pattern_of) channel_moniker
          contact_adress public_key name dialog_id)

  -- The keys of the secondary indices of storages.cpp; `none` is the failed `malloc`.
  unfoldable pub get_dialog_secondary_index : Platform → Bool → List ℕ → Option (List ℕ)
  get_dialog_secondary_index p allocated bytes = do
    d ← restore_dialog p bytes
    if allocated then some (copy_padded d.contact_id) else none

  unfoldable pub get_contact_secondary_index : Bool → List ℕ → Option (List ℕ)
  get_contact_secondary_index allocated bytes = do
    c ← restore_contact bytes
    if allocated then some (copy_padded c.channel_moniker) else none
