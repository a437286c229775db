-- ===== src/Core/Texts.antt =====
-- The path of a text between the users.
use secure_dialogues.Common.{◌≡◌, refl, true, some, Text, ℕ, ltb}
use secure_dialogues.Common.Maps.{find, erase, pair_key}
use secure_dialogues.Common.Result.{ok, ◌>>◌}
use secure_dialogues.DialogMessage.{DialogMessage, ack, action_eq}
use secure_dialogues.Dialog.{Dialog, is_sequental_ok}
use secure_dialogues.MessageContainer.{
  Wrapper as MessageWrapper, add_message, update_message, deliveried, save as save_message,
}
use secure_dialogues.Repository.{make_stored, remove}
use secure_dialogues.Core.{Environment, World, message_not_deliveried}
use secure_dialogues.Core.Delivery.{removed}
use secure_dialogues.Core.Dispatch.{returned, dispatch, dispatch_body, acknowledged}
use secure_dialogues.Core.TextMessages.{handle}

module _ ⦃env : Environment⦄ where
  pub handle-fresh :
      (m : DialogMessage) (channel : Text) (d : Dialog) (content : Text) (w : World env)
      → env.has_dialog m.dialog_id w.dialogs ≡ true
      → env.get_dialog m.dialog_id w.dialogs ≡ ok d
      → ltb d.peer_sequental m.sequential ≡ true
      → env.decrypt_message_body m.dialog_id m.content w.crypto ≡ ok content
      → handle m channel w
        ≡ (ok tt, record w { container = add_message m.dialog_id content true w.container })
  unfolding handle is_sequental_ok
  handle-fresh m channel d content w has gets fresh decrypts =
      rw (has, handle) (rw gets (rw fresh (rw decrypts refl)))

  -- A text for a dialog that is there, with a number above the last one saved for the peer, and that
  -- can be decrypted: handling the same message twice adds the text twice, since the number that was
  -- seen is not saved.
  pub handle_replayed :
      (m : DialogMessage) (channel : Text) (d : Dialog) (content : Text) (w : World env)
      → env.has_dialog m.dialog_id w.dialogs ≡ true
      → env.get_dialog m.dialog_id w.dialogs ≡ ok d
      → ltb d.peer_sequental m.sequential ≡ true
      → env.decrypt_message_body m.dialog_id m.content w.crypto ≡ ok content
      → (handle m channel >> handle m channel) w ≡ (
        ok tt,
        record w {
          container =
              add_message m.dialog_id content true
                (add_message m.dialog_id content true w.container);
        },
      )
  handle_replayed m channel d content w has gets fresh decrypts =
      rw (handle-fresh m channel d content w has gets fresh decrypts) (
        handle-fresh m channel d content
          (record w { container = add_message m.dialog_id content true w.container }) has gets fresh
          decrypts)

  -- An ACK for a text that waits for it: `dispatch` returns, the message that the wrapper shares with
  -- its dialog is marked as delivered, the entry is erased, and all else is as it was.
  pub dispatch-delivered :
      (m : DialogMessage) (channel : Text) (copy : MessageWrapper) (valid : ℕ) (w : World env)
      → action_eq m.action ack ≡ true
      → find (m.dialog_id, m.sequential) w.repo.values
        ≡ some (make_stored (message_not_deliveried copy) valid)
      → dispatch m channel w
        ≡ returned tt (record w {
          container =
              (save_message w.container_alive copy (update_message deliveried copy w.container)).1;
          repo = record w.repo { values = erase (m.dialog_id, m.sequential) w.repo.values };
        })
  unfolding dispatch dispatch_body acknowledged removed remove
  dispatch-delivered m channel copy valid w is_ack stored = rw (is_ack, dispatch) (rw stored refl)
