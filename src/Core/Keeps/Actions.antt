-- ===== src/Core/Keeps/Actions.antt =====
-- What the commands of the user about dialogs keep.
use secure_dialogues.Common.{Text, []}
use secure_dialogues.Common.Result.{Prog, ok, ◌>>=◌, ◌>>◌}
use secure_dialogues.DialogMessage.{
  Action, DialogMessage, make_abort, create_dialog as create_dialog_action,
  close_dialog as close_dialog_action,
}
use secure_dialogues.Dialog.{
  Dialog, Status, active, aborted, status_eq, set_status, make_next_sequental, new_dialog,
}
use secure_dialogues.Core.{
  save_wrapper, remove_wrapper, Environment, World, Contact, DeliveryHandler, on_dialogs,
  status_set,
}
use secure_dialogues.Core.Despatcher.{send_and_forget, send_message}
use secure_dialogues.Core.Delivery.{
  set_status_and_save, make_delivery_handler_for_create_dialog_request,
  make_delivery_handler_for_close_dialog_request,
}
use secure_dialogues.Core.DialogActions.{
  wrapper, contact_of, make_message, abort_unknown, send_request, abort_found, abort_dialog,
  close_found, close_dialog, remove_dialog, create_new, create_dialog, max_sequental,
}
use secure_dialogues.Core.Keeps.{
  saved-Keeps, IsStable, Keeps, bind-Keeps, then-Keeps, if-Keeps, choose-Keeps, status-Keeps,
}
use secure_dialogues.Core.Keeps.Sending.{send_and_forget-Keeps, send_message-Keeps}

module _ ⦃env : Environment⦄ (I : World env → Type 0) (s : IsStable I) where
  pub set_status_and_save-Keeps : (d : Dialog) (t : Status) → Keeps I (set_status_and_save d t)
  set_status_and_save-Keeps d t =
      bind-Keeps I (status_set (set_status d t)) (λ changed. save_wrapper changed)
        (status-Keeps I (set_status d t)) (λ changed. saved-Keeps I changed s)

  pub make_message-Keeps :
      (a : Action) (d : Dialog) (c : Contact) (content : Text)
      → Keeps I (make_message a d c content)
  unfolding make_message
  make_message-Keeps a d c content w i = if-Keeps I _ _ _ i i

  pub abort_unknown-Keeps : (m : DialogMessage) (channel : Text) → Keeps I (abort_unknown m channel)
  abort_unknown-Keeps m channel w i =
      if-Keeps I _ _ _
        (send_and_forget-Keeps I s (make_abort m.dialog_id m.adress max_sequental w.timestamp)
          channel w i)
        i

  -- Looking up a dialog and its contact before something else.
  pub with_contact-Keeps :
      {A : Type 0} (id : Text) (f : Dialog → Contact → Prog (World env) A)
      → ((d : Dialog) (c : Contact) → Keeps I (f d c))
      → Keeps I (wrapper id >>= (λ d. contact_of d >>= f d))
  with_contact-Keeps id f k =
      bind-Keeps I (wrapper id) (λ d. contact_of d >>= f d) (λ w i. i)
        (λ d. bind-Keeps I (contact_of d) (f d) (λ w i. i) (k d))

  send_numbered-Keeps :
      (handler : DeliveryHandler) (p : (DialogMessage × Text) × Dialog)
      → Keeps I (send_message p.0.0 p.0.1 handler >> save_wrapper p.1)
  send_numbered-Keeps handler ((m, channel), numbered) =
      then-Keeps I (send_message m channel handler) (save_wrapper numbered)
        (send_message-Keeps I s m channel handler) (saved-Keeps I numbered s)

  pub send_request-Keeps :
      (id : Text) (a : Action) (handler : DeliveryHandler) (content : Text)
      → Keeps I (send_request id a handler content)
  unfolding send_request
  send_request-Keeps id a handler content =
      bind-Keeps I
        (wrapper id >>= (λ d. contact_of d >>= (λ contact. make_message a d contact content))) _
        (with_contact-Keeps id (λ d contact. make_message a d contact content)
          (λ d contact. make_message-Keeps a d contact content))
        (λ p w i. if-Keeps I w.despatcher_alive _ _ (send_numbered-Keeps handler p w i) i)

  pub abort_found-Keeps : (d : Dialog) (c : Contact) → Keeps I (abort_found d c)
  abort_found-Keeps d c w i =
      let (numbered, number) = make_next_sequental d in
      if-Keeps I _ _ _
        (then-Keeps I
          (send_and_forget (make_abort d.dialog_id c.adress number w.timestamp) c.channel_moniker)
          (set_status_and_save numbered aborted)
          (send_and_forget-Keeps I s (make_abort d.dialog_id c.adress number w.timestamp)
            c.channel_moniker)
          (set_status_and_save-Keeps numbered aborted) w i)
        i

  pub abort_dialog-Keeps : (id : Text) → Keeps I (abort_dialog id)
  unfolding abort_dialog
  abort_dialog-Keeps id = with_contact-Keeps id abort_found abort_found-Keeps

  close_found-Keeps : (id : Text) (d : Dialog) → Keeps I (close_found id d)
  close_found-Keeps id d =
      let close = λ (contact : Contact).
        send_request id close_dialog_action
          (make_delivery_handler_for_close_dialog_request d contact.adress contact.channel_moniker)
          [] in
      choose-Keeps I (status_eq d.status active) (contact_of d >>= close) (abort_dialog id)
        (bind-Keeps I (contact_of d) close (λ w i. i)
          (λ contact.
            send_request-Keeps id close_dialog_action
              (make_delivery_handler_for_close_dialog_request d contact.adress
                contact.channel_moniker)
              []))
        (abort_dialog-Keeps id)

  pub close_dialog-Keeps : (id : Text) → Keeps I (close_dialog id)
  unfolding close_dialog
  close_dialog-Keeps id =
      bind-Keeps I (wrapper id) (close_found id) (λ w i. i) (close_found-Keeps id)

  pub remove_dialog-Keeps :
      (id : Text)
      → ((w : World env) (x : env.Crypto) → I w → I (record w { crypto = x }))
      → Keeps I (remove_dialog id)
  unfolding remove_dialog remove_wrapper
  remove_dialog-Keeps id crypto =
      bind-Keeps I (close_dialog id >> wrapper id) (λ d. remove_wrapper d)
        (then-Keeps I (close_dialog id) (wrapper id) (close_dialog-Keeps id) (λ w i. i))
        (λ d.
          then-Keeps I (on_dialogs (env.remove_dialog d))
            (λ w. (ok tt, record w { crypto = env.dialog_removed d.dialog_id w.crypto }))
            (λ w i. s.removed w d i) (λ w i. crypto w _ i))

  create_new-Keeps : (c : Contact) (d : Dialog) → Keeps I (create_new c d)
  create_new-Keeps c d =
      bind-Keeps I (on_dialogs (env.add_dialog d) >> wrapper d.dialog_id)
        (λ copy.
          send_request d.dialog_id create_dialog_action
            (make_delivery_handler_for_create_dialog_request copy c.adress c.channel_moniker) [])
        (then-Keeps I (on_dialogs (env.add_dialog d)) (wrapper d.dialog_id) (λ w i. s.added w d i)
          (λ w i. i))
        (λ copy.
          send_request-Keeps d.dialog_id create_dialog_action
            (make_delivery_handler_for_create_dialog_request copy c.adress c.channel_moniker) [])

  pub create_dialog-Keeps : (c : Contact) (uiid : Text) → Keeps I (create_dialog c uiid)
  unfolding create_dialog
  create_dialog-Keeps c uiid w i =
      create_new-Keeps c (new_dialog c.contact_id uiid w.init_sequental) w i
