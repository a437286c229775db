-- ===== src/Core/Keeps/Requests.antt =====
-- What a peer's message about a dialog keeps, if the change of the session keys does.
use secure_dialogues.Common.{Bool, true, false, ◌&&◌, Text, text_eq, List, [], ◌∷◌, if◌then◌else◌}
use secure_dialogues.Common.Result.{Result, ◌>>=◌, ◌>>◌, return}
use secure_dialogues.DialogMessage.{
  DialogMessage, verify_key, key_verification, accept_dialog, create_dialog, abort, action_eq,
}
use secure_dialogues.Dialog.{Dialog, create_request, set_status, make_dialog, is_sequental_ok}
use secure_dialogues.Core.{
  save_wrapper, Environment, World, Contact, on_dialogs, on_crypto, notify, status_set, error, info,
  unknown_contact, failed_contact, failed_verification, dialog_changed,
}
use secure_dialogues.Core.Delivery.{
  make_delivery_handler_for_create_dialog_request,
  make_delivery_handler_for_wait_verification_dialog_request,
  make_delivery_handler_for_active_dialog_request,
}
use secure_dialogues.Core.DialogActions.{
  wrapper, make_message, abort_unknown, send_request, abort_dialog,
}
use secure_dialogues.Core.DialogRequests.{
  map_action, send_verify_key, add_requested, accept_request, prepare_not_found_dialog, verify,
  accept_verified, change_status, prepare_for_found_dialog, log_only, abort_after,
  prepare_handle_exception, handle_checked, handle_body, handle,
}
use secure_dialogues.Core.Keeps.{
  saved-Keeps, IsStable, Keeps, bind-Keeps, then-Keeps, catch-Keeps, if-Keeps, choose-Keeps,
  notify-Keeps, status-Keeps,
}
use secure_dialogues.Core.Keeps.Sending.{send_message-Keeps}
use secure_dialogues.Core.Keeps.Actions.{
  make_message-Keeps, abort_unknown-Keeps, with_contact-Keeps, send_request-Keeps,
  abort_dialog-Keeps,
}

module _ ⦃env : Environment⦄ (I : World env → Type 0) (s : IsStable I)
    (crypto : (w : World env) (x : env.Crypto) → I w → I (record w { crypto = x })) where
  crypto-Keeps : {A : Type 0} (f : env.Crypto → Result A × env.Crypto) → Keeps I (on_crypto f)
  crypto-Keeps f w i = crypto w _ i

  send_verify_key-Keeps :
      (d : Dialog) (c : Contact) (p : (DialogMessage × Text) × Dialog)
      → Keeps I (send_verify_key d c p)
  send_verify_key-Keeps d c ((m, channel), numbered) w i =
      if-Keeps I _ _ _
        (send_message-Keeps I s m channel
          (make_delivery_handler_for_wait_verification_dialog_request numbered c.adress
            c.channel_moniker)
          w i)
        (notify-Keeps I error (failed_contact d.dialog_id) s w i)

  add_requested-Keeps :
      (m : DialogMessage) (c : Contact) (d : Dialog) → Keeps I (add_requested m c d)
  add_requested-Keeps m c d =
      bind-Keeps I (on_dialogs (env.add_dialog d) >> wrapper m.dialog_id)
        (λ copy.
          on_crypto (env.generate_and_export_key m.dialog_id c.adress)
          >>= (λ key. make_message verify_key copy c key)
          >>= send_verify_key d c)
        (then-Keeps I (on_dialogs (env.add_dialog d)) (wrapper m.dialog_id) (λ w i. s.added w d i)
          (λ w i. i))
        (λ copy.
          bind-Keeps I
            (on_crypto (env.generate_and_export_key m.dialog_id c.adress)
              >>= (λ key. make_message verify_key copy c key))
            (send_verify_key d c)
            (bind-Keeps I (on_crypto (env.generate_and_export_key m.dialog_id c.adress))
              (λ key. make_message verify_key copy c key)
              (crypto-Keeps (env.generate_and_export_key m.dialog_id c.adress))
              (make_message-Keeps I s verify_key copy c))
            (send_verify_key-Keeps d c))

  accept_request-Keeps :
      (m : DialogMessage) (channel : Text) (cs : List Contact)
      → Keeps I (accept_request m channel cs)
  accept_request-Keeps m channel [] w i =
      then-Keeps I (notify error (unknown_contact m.adress)) (abort_unknown m channel)
        (notify-Keeps I error (unknown_contact m.adress) s) (abort_unknown-Keeps I s m channel) w i
  accept_request-Keeps m channel (c ∷ others) w i =
      add_requested-Keeps m c
        (make_dialog c.contact_id m.dialog_id m.sequential w.init_sequental create_request) w i

  prepare_not_found_dialog-Keeps :
      (m : DialogMessage) (channel : Text) → Keeps I (prepare_not_found_dialog m channel)
  unfolding prepare_not_found_dialog
  prepare_not_found_dialog-Keeps m channel w i =
      let known =
        env.get_contact_if (λ el. text_eq el.adress m.adress && text_eq el.channel_moniker channel)
          w.contacts in
      if-Keeps I (action_eq m.action abort) (return tt w) _ i (
        if-Keeps I (action_eq m.action create_dialog) (accept_request m channel known w)
          (abort_unknown m channel w) (accept_request-Keeps m channel known w i)
          (abort_unknown-Keeps I s m channel w i))

  verify-Keeps : (m : DialogMessage) → Keeps I (verify m)
  verify-Keeps m =
      with_contact-Keeps I s m.dialog_id
        (λ d contact. on_crypto (env.import_key m.dialog_id m.content) >>= (λ res.
          send_request m.dialog_id key_verification
            (make_delivery_handler_for_create_dialog_request d contact.adress
              contact.channel_moniker)
            res))
        (λ d contact.
          bind-Keeps I (on_crypto (env.import_key m.dialog_id m.content))
            (send_request m.dialog_id key_verification (
              make_delivery_handler_for_create_dialog_request d contact.adress
                contact.channel_moniker))
            (crypto-Keeps (env.import_key m.dialog_id m.content))
            (send_request-Keeps I s m.dialog_id key_verification (
              make_delivery_handler_for_create_dialog_request d contact.adress
                contact.channel_moniker)))

  accept_verified-Keeps : (m : DialogMessage) (b : Bool) → Keeps I (accept_verified m b)
  accept_verified-Keeps m true w i =
      with_contact-Keeps I s m.dialog_id
        (λ d contact.
          send_request m.dialog_id accept_dialog
            (make_delivery_handler_for_active_dialog_request d contact.adress
              contact.channel_moniker)
            [])
        (λ d contact.
          send_request-Keeps I s m.dialog_id accept_dialog
            (make_delivery_handler_for_active_dialog_request d contact.adress
              contact.channel_moniker)
            [])
        w i
  accept_verified-Keeps m false w i =
      then-Keeps I (abort_dialog m.dialog_id) (notify info (failed_verification m.adress))
        (abort_dialog-Keeps I s m.dialog_id) (notify-Keeps I info (failed_verification m.adress) s)
        w i

  change_status-Keeps : (m : DialogMessage) → Keeps I (change_status m)
  change_status-Keeps m =
      with_contact-Keeps I s m.dialog_id
        (λ d contact. status_set (set_status d (map_action m.action)) >>= (λ changed.
          save_wrapper changed >> notify info (dialog_changed changed.status contact)))
        (λ d contact.
          bind-Keeps I (status_set (set_status d (map_action m.action)))
            (λ changed. save_wrapper changed >> notify info (dialog_changed changed.status contact))
            (status-Keeps I (set_status d (map_action m.action)))
            (λ changed.
              then-Keeps I (save_wrapper changed)
                (notify info (dialog_changed changed.status contact)) (saved-Keeps I changed s)
                (notify-Keeps I info (dialog_changed changed.status contact) s)))

  prepare_for_found_dialog-Keeps : (m : DialogMessage) → Keeps I (prepare_for_found_dialog m)
  unfolding prepare_for_found_dialog
  prepare_for_found_dialog-Keeps m =
      let checked = on_crypto (env.check_verification_string m.dialog_id m.content) in
      choose-Keeps I (action_eq m.action verify_key) (verify m)
        (if action_eq m.action key_verification
          then checked >>= accept_verified m
          else change_status m)
        (verify-Keeps m)
        (choose-Keeps I (action_eq m.action key_verification) (checked >>= accept_verified m)
          (change_status m)
          (bind-Keeps I checked (accept_verified m)
            (crypto-Keeps (env.check_verification_string m.dialog_id m.content))
            (accept_verified-Keeps m))
          (change_status-Keeps m))

  abort_after-Keeps : (m : DialogMessage) (channel : Text) → Keeps I (abort_after m channel)
  abort_after-Keeps m channel w i =
      if-Keeps I _ _ _ (abort_dialog-Keeps I s m.dialog_id w i)
        (abort_unknown-Keeps I s m channel w i)

  handle_checked-Keeps : (m : DialogMessage) (p : Dialog × Bool) → Keeps I (handle_checked m p)
  handle_checked-Keeps m (d, true) w i =
      then-Keeps I (save_wrapper d) (prepare_for_found_dialog m) (saved-Keeps I d s)
        (prepare_for_found_dialog-Keeps m) w i
  handle_checked-Keeps m (d, false) w i = i

  handle_body-Keeps : (m : DialogMessage) (channel : Text) → Keeps I (handle_body m channel)
  handle_body-Keeps m channel w i =
      if-Keeps I _ _ _
        (bind-Keeps I (wrapper m.dialog_id) (λ d. handle_checked m (is_sequental_ok d m.sequential))
          (λ v j. j) (λ d. handle_checked-Keeps m (is_sequental_ok d m.sequential)) w i)
        (prepare_not_found_dialog-Keeps m channel w i)

  pub handle-Keeps : (m : DialogMessage) (channel : Text) → Keeps I (handle m channel)
  unfolding handle prepare_handle_exception
  handle-Keeps m channel =
      catch-Keeps I (handle_body m channel) (prepare_handle_exception m channel)
        (handle_body-Keeps m channel)
        (λ e.
          catch-Keeps I (abort_after m channel) log_only (abort_after-Keeps m channel) (λ x w i. i))
