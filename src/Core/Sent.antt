-- ===== src/Core/Sent.antt =====
-- A text that the user sends, up to its ACK.
use secure_dialogues.Common.{
  ◌≡◌, refl, ◌∙◌, text_eq_refl, Bool-cases, inl, inr, Bool, true, false, some, none, [], ◌∷◌, ◌++◌,
  Text, ℕ, is_some, ◌+◌,
}
use secure_dialogues.Common.Int.{ℤ}
use secure_dialogues.Common.Maps.{find, erase, text_key, pair_key, pair_eq_iff}
use secure_dialogues.Common.Result.{ok, state_after}
use secure_dialogues.DialogMessage.{
  DialogMessage, message, ack, action_eq, make_dialog_message, set_signature,
}
use secure_dialogues.Listeners.Dialogs.{generate_system_message, is_in_system_message_state}
use secure_dialogues.Dialog.{
  Dialog, Status, aborted, closed, is_message_action_allowed_in, is_message_action_allowed,
  make_next_sequental,
}
use secure_dialogues.Marshaller.{marshall}
use secure_dialogues.MessageContainer.{
  MessageContainer, Wrapper, is_empty, message_of, update_status, update_message, deliveried, save,
  message_changed, add_to_active_dialog_with_wrapper,
}
use secure_dialogues.MessageContainer.Shared.{wrapper_of, dialog_messages-update_message}
use secure_dialogues.MessageContainer.Valid.{IsValid}
use secure_dialogues.MessageContainer.Views.{dialog_messages, shown}
use secure_dialogues.Repository.{Repository, make_stored, store}
use secure_dialogues.Repository.Entries.{find-store}
use secure_dialogues.Core.Texts.{dispatch-delivered}
use secure_dialogues.Core.Dispatch.{dispatch, returned}
use secure_dialogues.Core.{
  Environment, World, save_wrapper, Contact, Channel, DeliveryHandler, message_not_deliveried,
}
use secure_dialogues.Core.Despatcher.{send_message, channel_send_message}
use secure_dialogues.Core.DialogActions.{make_message}
use secure_dialogues.Core.TextMessages.{send_text}

dialog_messages-save :
    (j : Text) (alive : Bool) (copy : Wrapper) (c : MessageContainer)
    → dialog_messages j (save alive copy c).1 ≡ dialog_messages j c
unfolding save message_changed
dialog_messages-save j false copy c = refl
dialog_messages-save j true copy c = elim (Bool-cases (is_some (find copy.dialog_id c.messages))) [
  | inl there ↦ rw there refl
  | inr missing ↦ rw missing refl
]

writes_no_note :
    (s : Status)
    → is_message_action_allowed_in s message ≡ true
    → is_in_system_message_state s ≡ false
unfolding is_message_action_allowed_in
writes_no_note aborted h = cc h
writes_no_note closed h = cc h
writes_no_note _ h = refl

module _ ⦃env : Environment⦄ where
  -- The saved dialog has not ended, so that no note is written.
  save_wrapper_lem :
      (d : Dialog) (w : World env) (ds : env.Dialogs)
      → is_message_action_allowed d message ≡ true
      → env.save_dialog (make_next_sequental d).0 w.dialogs ≡ (ok tt, ds)
      → save_wrapper (make_next_sequental d).0 w ≡ (ok tt, record w { dialogs = ds })
  unfolding save_wrapper generate_system_message is_message_action_allowed make_next_sequental
  save_wrapper_lem d w ds allowed saves =
      rw (saves, save_wrapper) (rw (writes_no_note d.status allowed, generate_system_message) refl)

  -- The message that leaves, before it is signed.
  abbrev pub text_message : Dialog → Contact → Text → ℤ → DialogMessage
  text_message d contact body now =
      make_dialog_message message body d.dialog_id contact.adress (make_next_sequental d).1 [] now

  pub send_text_lem :
      (text body s : Text) (d : Dialog) (contact : Contact) (c : Channel) (w : World env)
      (ds : env.Dialogs) (n : env.Network)
      → is_empty w.container.active_dialog ≡ false
      → env.get_dialog w.container.active_dialog w.dialogs ≡ ok d
      → env.get_contact d.contact_id w.contacts ≡ ok contact
      → is_message_action_allowed d message ≡ true
      → env.save_dialog (make_next_sequental d).0 w.dialogs ≡ (ok tt, ds)
      → env.encrypt_message_body d.dialog_id text w.crypto ≡ ok body
      → w.despatcher_alive ≡ true
      → is_some (find w.container.active_dialog w.container.messages) ≡ true
      → find contact.channel_moniker w.channels ≡ some c
      → env.create_signature (text_message d contact body w.timestamp) w.crypto ≡ ok s
      → env.adapter_send contact.channel_moniker
          (marshall (set_signature (text_message d contact body w.timestamp) s))
          contact.adress
          w.network
        ≡ (ok tt, n)
      → send_text text w ≡ (
        ok tt,
        record w {
          dialogs = ds;
          container = state_after (add_to_active_dialog_with_wrapper text false w.container);
          repo =
              (store w.repo
                (message_not_deliveried (wrapper_of w.container))
                (d.dialog_id, (make_next_sequental d).1)
                c.wait_ack_interval
                w.ticks).0;
          network = n;
        },
      )
  unfolding send_text make_message send_message channel_send_message
      add_to_active_dialog_with_wrapper
  send_text_lem text body s d contact c w ds n named gets knows allowed saves encrypts alive present
        there signs sends =
      rw (named, send_text)
        (rw gets (
          rw knows (
            rw allowed (
              rw (save_wrapper_lem d w ds allowed saves)
                (rw encrypts (rw alive (rw present (rw there (rw signs (rw sends refl))))))))))

  stored_text :
      (h : DeliveryHandler) (k : DialogMessage) (id : Text) (number interval ticks : ℕ)
      (r : Repository DeliveryHandler (Text × ℕ))
      → k.dialog_id ≡ id
      → k.sequential ≡ number
      → find (id, number) r.values ≡ none
      → find (k.dialog_id, k.sequential) (store r h (id, number) interval ticks).0.values
        ≡ some (make_stored h (ticks + interval))
  stored_text h k id number interval ticks r same_id same_number free =
      let key : Text × ℕ = (id, number) in
      rw (same_id, same_number)
        (rw ((find-store r h key key interval ticks).1, (pair_eq_iff key key).1 refl, free) refl)

  -- A text is sent in a valid container: the active dialog has a name, an entry and a dialog in the
  -- storage whose status allows texts, its contact is known, the dialog can be saved, the text can be
  -- encrypted, signed and sent on the contact's channel, and its number is not waited for. Then
  -- `sendMessage` returns; when an ACK with the number of the text comes next, `dispatch` returns, and
  -- the active dialog shows the text as its last message, marked as delivered.
  pub dispatch-send_text :
      (text body s channel : Text) (d : Dialog) (contact : Contact) (c : Channel) (w : World env)
      (ds : env.Dialogs) (n : env.Network) (k : DialogMessage)
      → IsValid w.container
      → is_empty w.container.active_dialog ≡ false
      → env.get_dialog w.container.active_dialog w.dialogs ≡ ok d
      → env.get_contact d.contact_id w.contacts ≡ ok contact
      → is_message_action_allowed d message ≡ true
      → env.save_dialog (make_next_sequental d).0 w.dialogs ≡ (ok tt, ds)
      → env.encrypt_message_body d.dialog_id text w.crypto ≡ ok body
      → w.despatcher_alive ≡ true
      → is_some (find w.container.active_dialog w.container.messages) ≡ true
      → find contact.channel_moniker w.channels ≡ some c
      → env.create_signature (text_message d contact body w.timestamp) w.crypto ≡ ok s
      → env.adapter_send contact.channel_moniker
          (marshall (set_signature (text_message d contact body w.timestamp) s))
          contact.adress
          w.network
        ≡ (ok tt, n)
      → find (d.dialog_id, (make_next_sequental d).1) w.repo.values ≡ none
      → action_eq k.action ack ≡ true
      → k.dialog_id ≡ d.dialog_id
      → k.sequential ≡ (make_next_sequental d).1
      → ((send_text text w).0 ≡ ok tt)
        × ((end : World env) × (dispatch k channel (state_after (send_text text w))
              ≡ returned tt end)
            × (dialog_messages w.container.active_dialog end.container
                ≡ some (
                    shown (dialog_messages w.container.active_dialog w.container)
                    ++ some (update_status deliveried (message_of text false)) ∷ [])))
  dispatch-send_text text body s channel d contact c w ds n k valid named gets knows allowed saves
        encrypts alive present there signs sends free is_ack same_id same_number =
      let copy = wrapper_of w.container in
      let sent =
        send_text_lem text body s d contact c w ds n named gets knows allowed saves encrypts alive
          present there signs sends in
      let stored =
        stored_text (message_not_deliveried copy) k d.dialog_id (make_next_sequental d).1
          c.wait_ack_interval w.ticks w.repo same_id same_number free in
      let v : World env = record w {
        dialogs = ds;
        container = state_after (add_to_active_dialog_with_wrapper text false w.container);
        repo =
            (store w.repo (message_not_deliveried copy) (d.dialog_id, (make_next_sequental d).1)
              c.wait_ack_interval w.ticks).0;
        network = n;
      } in
      let end : World env = record v {
        container = (save v.container_alive copy (update_message deliveried copy v.container)).1;
        repo = record v.repo { values = erase (k.dialog_id, k.sequential) v.repo.values };
      } in
      rw sent (
        refl,
        (
          end,
          dispatch-delivered k channel copy (w.ticks + c.wait_ack_interval) v is_ack stored,
          dialog_messages-save w.container.active_dialog w.container_alive copy
                (update_message deliveried copy v.container)
              ∙ dialog_messages-update_message text w.container.active_dialog false deliveried
                  w.container valid present
              ∙ rw (text_eq_refl w.container.active_dialog) refl,
        ),
      )
