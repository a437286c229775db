-- ===== src/MessageContainer/Shared.antt =====
-- The message that a wrapper and a dialog share.
use secure_dialogues.Common.{
  ◌≡◌, Bool, true, some, [], ◌∷◌, ◌++◌, Text, text_eq, is_some, length, modify-length,
  if◌then◌else◌,
}
use secure_dialogues.Common.Maps.{find, text_key}
use secure_dialogues.Common.Result.{state_after}
use secure_dialogues.MessageContainer.{
  MessageContainer, MessageStatus, Wrapper, add_to_active_dialog_with_wrapper, message_of,
  update_message, update_status, add_shared_message,
}
use secure_dialogues.MessageContainer.Valid.{IsValid}
use secure_dialogues.MessageContainer.Views.{dialog_messages, shown, contents-insert}

-- The wrapper that `addToActiveDialogWithWrapper` answers with.
abbrev pub wrapper_of : MessageContainer → Wrapper
wrapper_of c = record { message = length c.heap; dialog_id = c.active_dialog }

-- In a valid container whose active dialog has an entry, a text is added to the active dialog and the
-- status is then changed through the wrapper: the active dialog shows the message last, with the new
-- status, and every other message and dialog is as before.
pub dialog_messages-update_message :
    (text j : Text) (inc : Bool) (s : MessageStatus) (c : MessageContainer)
    → IsValid c
    → is_some (find c.active_dialog c.messages) ≡ true
    → dialog_messages j (
        update_message s
          (wrapper_of c)
          (state_after (add_to_active_dialog_with_wrapper text inc c)))
      ≡ (if text_eq c.active_dialog j
          then some (
              shown (dialog_messages c.active_dialog c)
              ++ some (update_status s (message_of text inc)) ∷ [])
          else dialog_messages j c)
unfolding update_message add_to_active_dialog_with_wrapper add_shared_message
dialog_messages-update_message text j inc s c (h, p) there =
    rw (there, add_to_active_dialog_with_wrapper)
      (rw (modify-length (update_status s) c.heap (message_of text inc)) (
        contents-insert c.active_dialog j (update_status s (message_of text inc)) c.heap c.messages
          h))
