-- ===== src/Core/DialogRequests.antt =====
-- messages/src/communication/dialogactionhandler.cpp: what a peer's message about a dialog does.
use secure_dialogues.Common.{
  Bool, true, false, List, [], ◌∷◌, Text, text_eq, ◌&&◌, ◌||◌, if◌then◌else◌,
}
use secure_dialogues.Common.Result.{Exception, Prog, ◌>>=◌, ◌>>◌, return, catch}
use secure_dialogues.DialogMessage.{
  Action, DialogMessage, create_dialog, accept_dialog, close_dialog, abort, verify_key,
  key_verification, action_eq,
}
use secure_dialogues.Dialog.{
  Dialog, Status, create_request, active, closed, aborted, is_sequental_ok, set_status, make_dialog,
}
use secure_dialogues.Core.{
  save_wrapper, Environment, World, Contact, on_dialogs, on_crypto, notify, status_set, error, info,
  unknown_contact, failed_contact, failed_verification, dialog_changed,
}
use secure_dialogues.Core.Despatcher.{send_message}
use secure_dialogues.Core.Delivery.{
  make_delivery_handler_for_create_dialog_request,
  make_delivery_handler_for_wait_verification_dialog_request,
  make_delivery_handler_for_active_dialog_request,
}
use secure_dialogues.Core.DialogActions.{
  wrapper, contact_of, make_message, abort_unknown, send_request, abort_dialog,
}

-- `map(action)`; the default follows an `assert(false)`.
unfoldable pub map_action : Action → Status
map_action accept_dialog = active
map_action close_dialog = closed
map_action _ = aborted

unfoldable pub is_it_you_action : Action → Bool
is_it_you_action a =
    action_eq a accept_dialog
    || (action_eq a close_dialog
        || (action_eq a create_dialog
            || (action_eq a abort || (action_eq a key_verification || action_eq a verify_key))))

module _ ⦃env : Environment⦄ where
  -- The answer to a request: the wrapper goes to the delivery handler, and nothing saves the number
  -- that `make_message` took from it.
  abbrev pub send_verify_key :
      Dialog → Contact → (DialogMessage × Text) × Dialog → Prog (World env) (Unit {0})
  send_verify_key d contact ((m, channel), numbered) w =
      if w.despatcher_alive
      then send_message m channel
          (make_delivery_handler_for_wait_verification_dialog_request numbered contact.adress
            contact.channel_moniker)
          w
      else notify error (failed_contact d.dialog_id) w

  abbrev pub add_requested : DialogMessage → Contact → Dialog → Prog (World env) (Unit {0})
  add_requested m contact d = on_dialogs (env.add_dialog d) >> wrapper m.dialog_id >>= (λ copy.
      on_crypto (env.generate_and_export_key m.dialog_id contact.adress)
      >>= (λ key. make_message verify_key copy contact key)
      >>= send_verify_key d contact)

  abbrev pub accept_request : DialogMessage → Text → List Contact → Prog (World env) (Unit {0})
  accept_request m channel [] w =
      (notify error (unknown_contact m.adress) >> abort_unknown m channel) w
  accept_request m channel (contact ∷ others) w =
      add_requested m contact
        (make_dialog contact.contact_id m.dialog_id m.sequential w.init_sequental create_request) w

  unfoldable pub prepare_not_found_dialog : DialogMessage → Text → Prog (World env) (Unit {0})
  prepare_not_found_dialog m channel w =
      if action_eq m.action abort
      then return tt w
      else if action_eq m.action create_dialog
      then accept_request m channel
          (env.get_contact_if
            (λ el. text_eq el.adress m.adress && text_eq el.channel_moniker channel) w.contacts)
          w
      else abort_unknown m channel w

  abbrev pub verify : DialogMessage → Prog (World env) (Unit {0})
  verify m = wrapper m.dialog_id >>= (λ d. contact_of d >>= (λ contact.
      on_crypto (env.import_key m.dialog_id m.content) >>= (λ res.
        send_request m.dialog_id key_verification
          (make_delivery_handler_for_create_dialog_request d contact.adress contact.channel_moniker)
          res)))

  abbrev pub accept_verified : DialogMessage → Bool → Prog (World env) (Unit {0})
  accept_verified m true = wrapper m.dialog_id >>= (λ d. contact_of d >>= (λ contact.
      send_request m.dialog_id accept_dialog
        (make_delivery_handler_for_active_dialog_request d contact.adress contact.channel_moniker)
        []))
  accept_verified m false = abort_dialog m.dialog_id >> notify info (failed_verification m.adress)

  abbrev pub change_status : DialogMessage → Prog (World env) (Unit {0})
  change_status m = wrapper m.dialog_id >>= (λ d. contact_of d >>= (λ contact.
      status_set (set_status d (map_action m.action))
      >>= (λ changed. save_wrapper changed >> notify info (dialog_changed changed.status contact))))

  unfoldable pub prepare_for_found_dialog : DialogMessage → Prog (World env) (Unit {0})
  prepare_for_found_dialog m =
      if action_eq m.action verify_key
      then verify m
      else if action_eq m.action key_verification
      then on_crypto (env.check_verification_string m.dialog_id m.content) >>= accept_verified m
      else change_status m

  -- `catch (std::exception& exc)` with nothing but a line in the log.
  abbrev pub log_only : Exception → Prog (World env) (Unit {0})
  log_only e = return tt

  abbrev pub abort_after : DialogMessage → Text → Prog (World env) (Unit {0})
  abort_after m channel w =
      if env.has_dialog m.dialog_id w.dialogs
      then abort_dialog m.dialog_id w
      else abort_unknown m channel w

  unfoldable pub prepare_handle_exception :
      DialogMessage → Text → Exception → Prog (World env) (Unit {0})
  unfolding abort_dialog
  prepare_handle_exception m channel e = catch (abort_after m channel) log_only

  -- The number was checked on a copy that is saved if the number is new.
  abbrev pub handle_checked : DialogMessage → Dialog × Bool → Prog (World env) (Unit {0})
  handle_checked m (d, true) = save_wrapper d >> prepare_for_found_dialog m
  handle_checked m (d, false) = return tt

  abbrev pub handle_body : DialogMessage → Text → Prog (World env) (Unit {0})
  handle_body m channel w =
      if env.has_dialog m.dialog_id w.dialogs
      then (wrapper m.dialog_id >>= (λ d. handle_checked m (is_sequental_ok d m.sequential))) w
      else prepare_not_found_dialog m channel w

  -- `DialogActionHandler::handle`, which nothing leaves as an exception.
  unfoldable pub handle : DialogMessage → Text → Prog (World env) (Unit {0})
  unfolding prepare_handle_exception
  handle m channel = catch (handle_body m channel) (prepare_handle_exception m channel)
