-- ===== src/Core/TextMessages.antt =====
-- messages/src/communication/messageactionhandler.cpp: the texts that the users write. The wording of
-- the texts that the system adds is that of the source, untranslated.
use secure_dialogues.Common.{Bool, true, false, ◌++◌, Text, codes, if◌then◌else◌}
use secure_dialogues.Common.Result.{Exception, Prog, ◌>>=◌, ◌>>◌, return, catch}
use secure_dialogues.DialogMessage.{
  Action, DialogMessage, message, action_eq, make_abort, set_content,
}
use secure_dialogues.Dialog.{Dialog, aborted, is_sequental_ok, make_next_sequental, set_status}
use secure_dialogues.MessageContainer.{
  MessageContainer, Wrapper as MessageWrapper, is_empty, add_message, add_shared_message,
  make_shared, make_user_message, error as status_error, system, add_to_active_dialog_with_wrapper,
  set_active_dialog as container_set_active_dialog,
}
use secure_dialogues.Core.{
  save_wrapper, Environment, World, message_not_deliveried, asks, on_container, notify, status_set,
  error, no_dialog_with, failed_to_send, select_one_dialog,
}
use secure_dialogues.Core.Despatcher.{send_message, send_and_forget}
use secure_dialogues.Core.DialogActions.{wrapper, contact_of, make_message, abort_unknown}
use secure_dialogues.Core.DialogRequests.{log_only}

unfoldable pub is_it_you_action : Action → Bool
is_it_you_action a = action_eq a message

-- `addMessage` of a new message of the system about an error.
abbrev pub add_error : Text → Text → MessageContainer → MessageContainer
add_error id text c =
    let (ref, c') = make_shared (make_user_message status_error system text) c in
    add_shared_message id ref c'

module _ ⦃env : Environment⦄ where
  abbrev pub abort_known : DialogMessage → Text → Dialog → Prog (World env) (Unit {0})
  abort_known m channel d = contact_of d >>= (λ contact w.
      let (numbered, number) = make_next_sequental d in
      (status_set (set_status numbered aborted) >>= (λ changed v.
          if v.despatcher_alive
          then (send_and_forget (make_abort d.dialog_id contact.adress number w.timestamp) channel
                >> save_wrapper changed)
              v
          else save_wrapper changed v))
        w)

  abbrev pub report_and_abort : DialogMessage → Text → Prog (World env) (Unit {0})
  report_and_abort m channel =
      on_container (
        add_error m.dialog_id (
          codes "Error occured during message handling from user "
          ++ m.adress
          ++ codes ". Dialog removed."))
      >> (λ w.
          if env.has_dialog m.dialog_id w.dialogs
          then (wrapper m.dialog_id >>= abort_known m channel) w
          else abort_unknown m channel w)

  unfoldable pub abort_on_exception : DialogMessage → Text → Exception → Prog (World env) (Unit {0})
  abort_on_exception m channel e = catch (report_and_abort m channel) log_only

  abbrev pub add_decrypted : DialogMessage → Dialog × Bool → Prog (World env) (Unit {0})
  add_decrypted m (d, true) =
      asks (env.decrypt_message_body m.dialog_id m.content) World.crypto
      >>= (λ content. on_container (add_message m.dialog_id content true))
  add_decrypted m (d, false) = return tt

  -- The number is checked on a copy, which is dropped.
  abbrev pub handle_body : DialogMessage → Text → Prog (World env) (Unit {0})
  handle_body m channel w =
      if env.has_dialog m.dialog_id w.dialogs
      then (wrapper m.dialog_id >>= (λ d. add_decrypted m (is_sequental_ok d m.sequential))) w
      else (notify error (no_dialog_with m.adress) >> abort_unknown m channel) w

  -- `MessageActionHandler::handle`.
  unfoldable pub handle : DialogMessage → Text → Prog (World env) (Unit {0})
  unfolding abort_on_exception
  handle m channel = catch (handle_body m channel) (abort_on_exception m channel)

  -- The text is added to the active dialog first, and its wrapper goes to the despatcher.
  abbrev pub add_and_send : DialogMessage → Text → Text → Prog (World env) (Unit {0})
  add_and_send m channel text w =
      if w.despatcher_alive
      then (added >>= (λ copy. send_message m channel (message_not_deliveried copy))) w
      else notify error failed_to_send w
    where
      added : Prog (World env) MessageWrapper
      added v =
          let (r, c) = add_to_active_dialog_with_wrapper text false v.container in
          (r, record v { container = c })

  abbrev pub send_body : Text → Text → Prog (World env) (Unit {0})
  send_body id text =
      wrapper id
      >>= (λ d. contact_of d >>= (λ contact. make_message message d contact text))
      >>= (λ ((m, channel), numbered).
          save_wrapper numbered
          >> asks (env.encrypt_message_body m.dialog_id m.content) World.crypto
          >>= (λ body. add_and_send (set_content m body) channel text))

  abbrev pub add_failure : Text → Exception → Prog (World env) (Unit {0})
  add_failure id e =
      on_container (add_error id (codes "Failed to send messsage, reason: " ++ env.what e))

  -- `MessageActionHandler::sendMessage`.
  unfoldable pub send_text : Text → Prog (World env) (Unit {0})
  send_text text w =
      let id = w.container.active_dialog in
      ((if is_empty id then notify error select_one_dialog else return tt)
          >> catch (send_body id text) (add_failure id))
        w

  unfoldable pub set_active_dialog : Text → Prog (World env) (Unit {0})
  set_active_dialog id = on_container (container_set_active_dialog id)
