-- ===== src/Core/Delivery.antt =====
-- messages/src/delivery-handlers/dialogactiondeliveryhandler.cpp, and the delivery handler of
-- communication/messageactionhandler.cpp: what happens when a message was acknowledged or was not
-- acknowledged in time.
use secure_dialogues.Common.{Bool, true, false, Text, if◌then◌else◌}
use secure_dialogues.Common.Result.{Prog, ◌>>=◌, ◌>>◌, return}
use secure_dialogues.DialogMessage.{make_abort}
use secure_dialogues.Dialog.{
  Dialog, Status, wait_confirm, wait_key_verification, active, closed, aborted, set_status,
  make_next_sequental,
}
use secure_dialogues.MessageContainer.{
  Wrapper as MessageWrapper, MessageStatus, deliveried, not_deliveried, update_message,
  save as save_message,
}
use secure_dialogues.Core.{
  save_wrapper, Environment, World, DeliveryHandler, dialog_action_delivery, message_not_deliveried,
  no_response, error, asks, on_container, notify, status_set,
}
use secure_dialogues.Core.Despatcher.{send_and_forget}

module _ ⦃env : Environment⦄ where
  -- `updateStatus` on the message of the wrapper, then `save`.
  abbrev pub message_changes : MessageStatus → MessageWrapper → Prog (World env) (Unit {0})
  message_changes s m w =
      on_container (λ c. (save_message w.container_alive m (update_message s m c)).1) w

  -- `wrapper->setStatus(status); wrapper.save()`.
  abbrev pub set_status_and_save : Dialog → Status → Prog (World env) (Unit {0})
  set_status_and_save d s = status_set (set_status d s) >>= (λ changed. save_wrapper changed)

  unfoldable pub removed : DeliveryHandler → Prog (World env) (Unit {0})
  removed (dialog_action_delivery d next abort_need address channel) =
      asks (env.reload_dialog d) World.dialogs >>= (λ current. set_status_and_save current next)
  removed (message_not_deliveried m) = message_changes deliveried m

  -- The abort that a handler with `mAbortNeed` sends; it takes the next number from the wrapper.
  abbrev pub send_abort : Bool → Dialog → Text → Text → Prog (World env) Dialog
  send_abort false d address channel w = return d w
  send_abort true d address channel w =
      if w.despatcher_alive
      then (let (numbered, number) = make_next_sequental d in
            send_and_forget (make_abort d.dialog_id address number w.timestamp) channel
            >> return numbered)
          w
      else return d w

  unfoldable pub timeouted : DeliveryHandler → Prog (World env) (Unit {0})
  timeouted (dialog_action_delivery d next abort_need address channel) =
      asks (env.reload_dialog d) World.dialogs
      >>= (λ current. send_abort abort_need current address channel)
      >>= (λ numbered. notify error (no_response address) >> set_status_and_save numbered aborted)
  timeouted (message_not_deliveried m) = message_changes not_deliveried m

abbrev pub make_delivery_handler_for_create_dialog_request : Dialog → Text → Text → DeliveryHandler
make_delivery_handler_for_create_dialog_request d address channel =
    dialog_action_delivery d wait_confirm false address channel

abbrev pub make_delivery_handler_for_wait_verification_dialog_request :
    Dialog → Text → Text → DeliveryHandler
make_delivery_handler_for_wait_verification_dialog_request d address channel =
    dialog_action_delivery d wait_key_verification true address channel

abbrev pub make_delivery_handler_for_close_dialog_request : Dialog → Text → Text → DeliveryHandler
make_delivery_handler_for_close_dialog_request d address channel =
    dialog_action_delivery d closed false address channel

abbrev pub make_delivery_handler_for_active_dialog_request : Dialog → Text → Text → DeliveryHandler
make_delivery_handler_for_active_dialog_request d address channel =
    dialog_action_delivery d active true address channel
