-- ===== src/Listeners/Dialogs.antt =====
-- messages/src/utils/systemmessagegenerator.cpp, messages/src/crypto/
-- cryptosystemcontactupdateinformator.cpp and cryptosystemdialogremoveinformator.cpp: the permanent
-- listeners of the core to the storages of dialogs and contacts. The texts are the source's,
-- untranslated.
use secure_dialogues.Common.{Bool, ◌||◌, ◌&&◌, Text, codes, if◌then◌else◌}
use secure_dialogues.Common.Result.{Prog}
use secure_dialogues.Dialog.{Dialog, Status, aborted, closed, status_eq}
use secure_dialogues.MessageContainer.{
  MessageContainer, add_shared_message, make_shared, make_user_message, deliveried, system,
}
use secure_dialogues.Contacts.{Contact}
use secure_dialogues.CryptoSystem.{
  Primitives, CryptoSystem, update_contact, remove_contact, dialog_removed,
}

-- `get_message` is only asked for the two statuses.
abbrev pub get_message : Status → Text
get_message aborted = codes "Dialog was aborted"
get_message _ = codes "Dialog was closed"

abbrev pub is_in_system_message_state : Status → Bool
is_in_system_message_state s = status_eq aborted s || status_eq closed s

abbrev pub add_system_message : Dialog → MessageContainer → MessageContainer
add_system_message d c =
    let (ref, c') = make_shared (make_user_message deliveried system (get_message d.status)) c in
    add_shared_message d.dialog_id ref c'

-- `SystemMessageGenerator::changed`; `alive`: the container still exists.
unfoldable pub generate_system_message : Bool → Dialog → MessageContainer → MessageContainer
unfolding add_shared_message
generate_system_message alive d c =
    if is_in_system_message_state d.status && alive then add_system_message d c else c

module _ ⦃prim : Primitives⦄ where
  unfoldable pub contact_informed : Contact → Prog (CryptoSystem prim) (Unit {0})
  unfolding update_contact
  contact_informed c = update_contact c.contact_id c.adress c.public_key

  unfoldable pub contact_removal_informed : Contact → CryptoSystem prim → CryptoSystem prim
  unfolding remove_contact
  contact_removal_informed c s = remove_contact c.contact_id s

  unfoldable pub dialog_removal_informed : Dialog → CryptoSystem prim → CryptoSystem prim
  unfolding dialog_removed
  dialog_removal_informed d s = dialog_removed d.dialog_id s
