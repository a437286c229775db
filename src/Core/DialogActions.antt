-- ===== src/Core/DialogActions.antt =====
-- messages/src/communication/dialogactionhandler.cpp and communication_helpers.cpp: the control of
-- dialogs, on the user's command and on a peer's message.
use secure_dialogues.Common.{ℕ, [], Text, ◌&&◌, ◌-◌, codes, if◌then◌else◌}
use secure_dialogues.Common.Result.{
  Prog, ◌>>=◌, ◌>>◌, return, raise, runtime_error, invalid_dialog_action,
}
use secure_dialogues.DialogMessage.{
  Action, DialogMessage, create_dialog as create_dialog_action, close_dialog as close_dialog_action,
  abort, make_dialog_message, make_abort,
}
use secure_dialogues.Dialog.{
  Dialog, active, aborted, status_eq, is_message_action_allowed, make_next_sequental, new_dialog,
  ulong_mod,
}
use secure_dialogues.Core.{
  save_wrapper, remove_wrapper, Environment, World, Contact, DeliveryHandler, asks, on_dialogs,
}
use secure_dialogues.Core.Despatcher.{send_message, send_and_forget}
use secure_dialogues.Core.Delivery.{
  set_status_and_save, make_delivery_handler_for_create_dialog_request,
  make_delivery_handler_for_close_dialog_request,
}

abbrev pub max_sequental : ℕ
max_sequental = ulong_mod - 1

module _ ⦃env : Environment⦄ where
  abbrev pub wrapper : Text → Prog (World env) Dialog
  wrapper id = asks (env.get_dialog id) World.dialogs

  abbrev pub contact_of : Dialog → Prog (World env) Contact
  contact_of d = asks (env.get_contact d.contact_id) World.contacts

  -- The message, the name of the channel, and the wrapper with the number taken.
  unfoldable pub make_message :
      Action → Dialog → Contact → Text → Prog (World env) ((DialogMessage × Text) × Dialog)
  make_message action d contact content w =
      if is_message_action_allowed d action
      then (let (numbered, number) = make_next_sequental d in
          return
            (
              (
                make_dialog_message action content d.dialog_id contact.adress number (codes "")
                    w.timestamp,
                contact.channel_moniker,
              ),
              numbered,
            )
            w)
      else raise invalid_dialog_action w

  -- `make_abort` for a dialog that this side does not know.
  abbrev pub abort_unknown : DialogMessage → Text → Prog (World env) (Unit {0})
  abort_unknown m channel w =
      if w.despatcher_alive
      then send_and_forget (make_abort m.dialog_id m.adress max_sequental w.timestamp) channel w
      else return tt w

  unfoldable pub send_request : Text → Action → DeliveryHandler → Text → Prog (World env) (Unit {0})
  unfolding make_message
  send_request id action handler content =
      wrapper id
      >>= (λ d. contact_of d >>= (λ contact. make_message action d contact content))
      >>= (λ ((m, channel), numbered) w.
          if w.despatcher_alive
          then (send_message m channel handler >> save_wrapper numbered) w
          else raise runtime_error w)

  abbrev pub abort_found : Dialog → Contact → Prog (World env) (Unit {0})
  abort_found d contact w =
      if w.despatcher_alive && is_message_action_allowed d abort
      then (let (numbered, number) = make_next_sequental d in
            send_and_forget (make_abort d.dialog_id contact.adress number w.timestamp)
              contact.channel_moniker
            >> set_status_and_save numbered aborted)
          w
      else return tt w

  unfoldable pub abort_dialog : Text → Prog (World env) (Unit {0})
  abort_dialog id = wrapper id >>= (λ d. contact_of d >>= (λ contact. abort_found d contact))

  abbrev pub close_found : Text → Dialog → Prog (World env) (Unit {0})
  close_found id d =
      if status_eq d.status active
      then contact_of d >>= (λ contact.
        send_request id close_dialog_action
          (make_delivery_handler_for_close_dialog_request d contact.adress contact.channel_moniker)
          [])
      else abort_dialog id

  unfoldable pub close_dialog : Text → Prog (World env) (Unit {0})
  close_dialog id = wrapper id >>= close_found id

  unfoldable pub remove_dialog : Text → Prog (World env) (Unit {0})
  unfolding close_dialog
  remove_dialog id = close_dialog id >> wrapper id >>= (λ d. remove_wrapper d)

  abbrev pub create_new : Contact → Dialog → Prog (World env) (Unit {0})
  create_new contact d = on_dialogs (env.add_dialog d) >> wrapper d.dialog_id >>= (λ copy.
      send_request d.dialog_id create_dialog_action
        (make_delivery_handler_for_create_dialog_request copy contact.adress
          contact.channel_moniker)
        [])

  -- The id of the new dialog is drawn outside.
  unfoldable pub create_dialog : Contact → Text → Prog (World env) (Unit {0})
  create_dialog contact uiid w =
      create_new contact (new_dialog contact.contact_id uiid w.init_sequental) w
