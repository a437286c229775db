-- ===== src/Listeners/Generated.antt =====
-- The messages of the system about the end of a dialog.
use secure_dialogues.Common.{
  ◌≡◌, refl, Bool, true, false, some, [], ◌∷◌, ◌++◌, Text, text_eq, if◌then◌else◌, ◌&&◌,
}
use secure_dialogues.Dialog.{Dialog}
use secure_dialogues.MessageContainer.{
  MessageContainer, UserMessage, add_shared_message, make_user_message, deliveried, system,
}
use secure_dialogues.MessageContainer.Valid.{IsValid}
use secure_dialogues.MessageContainer.Views.{dialog_messages, shown, contents-insert}
use secure_dialogues.Listeners.Dialogs.{
  add_system_message, generate_system_message, get_message, is_in_system_message_state,
}

abbrev pub system_message : Dialog → UserMessage
system_message d = make_user_message deliveried system (get_message d.status)

shown_if :
    (ended alive : Bool) (d : Dialog) (c : MessageContainer) (j : Text)
    → IsValid c
    → dialog_messages j (if ended && alive then add_system_message d c else c) ≡ (
        if (ended && alive) && text_eq d.dialog_id j
        then some (shown (dialog_messages d.dialog_id c) ++ some (system_message d) ∷ [])
        else dialog_messages j c)
unfolding add_shared_message
shown_if true true d c j (refs, p) =
    contents-insert d.dialog_id j (system_message d) c.heap c.messages refs
shown_if true false d c j valid = refl
shown_if false alive d c j valid = refl

-- In a valid container that is alive, a dialog that was aborted or closed shows a message of the system
-- that says so, as its last one, and no other dialog changes; for every other status, or without the
-- container, nothing happens.
pub generate_system_message-shown :
    (alive : Bool) (d : Dialog) (c : MessageContainer) (j : Text)
    → IsValid c
    → dialog_messages j (generate_system_message alive d c) ≡ (
        if (is_in_system_message_state d.status && alive) && text_eq d.dialog_id j
        then some (shown (dialog_messages d.dialog_id c) ++ some (system_message d) ∷ [])
        else dialog_messages j c)
unfolding generate_system_message add_shared_message
generate_system_message-shown alive d c j valid =
    shown_if (is_in_system_message_state d.status) alive d c j valid
