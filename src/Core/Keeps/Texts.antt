-- ===== src/Core/Keeps/Texts.antt =====
-- What the handling and the sending of texts keep, if the additions to the container do.
use secure_dialogues.Common.{Bool, true, false, ◌++◌, Text, codes, inl, inr, ◌≡◌, if◌then◌else◌}
use secure_dialogues.Common.Result.{Prog, ok, ◌>>=◌, ◌>>◌, return, catch, Result-cases}
use secure_dialogues.DialogMessage.{DialogMessage, message, make_abort, set_content}
use secure_dialogues.Dialog.{Dialog, aborted, is_sequental_ok, make_next_sequental, set_status}
use secure_dialogues.MessageContainer.{
  Wrapper as MessageWrapper, is_empty, add_message, add_to_active_dialog_with_wrapper,
}
use secure_dialogues.Core.{
  save_wrapper, Environment, World, Contact, message_not_deliveried, asks, on_container, notify,
  status_set, error, no_dialog_with, failed_to_send, select_one_dialog,
}
use secure_dialogues.Core.Despatcher.{send_message, send_and_forget}
use secure_dialogues.Core.DialogActions.{wrapper, contact_of, make_message, abort_unknown}
use secure_dialogues.Core.DialogRequests.{log_only}
use secure_dialogues.Core.TextMessages.{
  add_error, abort_known, report_and_abort, abort_on_exception, add_decrypted, handle_body, handle,
  add_and_send, send_body, add_failure, send_text,
}
use secure_dialogues.Core.Keeps.{
  saved-Keeps, IsStable, Keeps, bind-Keeps, then-Keeps, catch-Keeps, if-Keeps, choose-Keeps,
  notify-Keeps, status-Keeps,
}
use secure_dialogues.Core.Keeps.Sending.{send_and_forget-Keeps, send_message-Keeps}
use secure_dialogues.Core.Keeps.Actions.{
  make_message-Keeps, abort_unknown-Keeps, with_contact-Keeps,
}

module _ ⦃env : Environment⦄ (I : World env → Type 0) (s : IsStable I) where
  abort_known-Keeps :
      (m : DialogMessage) (channel : Text) (d : Dialog) → Keeps I (abort_known m channel d)
  abort_known-Keeps m channel d =
      bind-Keeps I (contact_of d) _ (λ w i. i)
        (λ contact w.
          let (numbered, number) = make_next_sequental d in
          let told = make_abort d.dialog_id contact.adress number w.timestamp in
          bind-Keeps I (status_set (set_status numbered aborted))
            (λ changed v.
              if v.despatcher_alive
              then (send_and_forget told channel >> save_wrapper changed) v
              else save_wrapper changed v)
            (status-Keeps I (set_status numbered aborted))
            (λ changed v j.
              if-Keeps I v.despatcher_alive
                ((send_and_forget told channel >> save_wrapper changed) v) (save_wrapper changed v)
                (then-Keeps I (send_and_forget told channel) (save_wrapper changed)
                  (send_and_forget-Keeps I s told channel) (saved-Keeps I changed s) v j)
                (saved-Keeps I changed s v j))
            w)

  module _ (m : DialogMessage)
      (errors : (w : World env) (text : Text)
        → I w
        → I (record w { container = add_error m.dialog_id text w.container })) where
    report_and_abort-Keeps : (channel : Text) → Keeps I (report_and_abort m channel)
    report_and_abort-Keeps channel =
        then-Keeps I
          (on_container (
            add_error m.dialog_id (
              codes "Error occured during message handling from user "
              ++ m.adress
              ++ codes ". Dialog removed.")))
          (λ w.
            if env.has_dialog m.dialog_id w.dialogs
            then (wrapper m.dialog_id >>= abort_known m channel) w
            else abort_unknown m channel w)
          (λ w i. errors w _ i)
          (λ w i.
            if-Keeps I (env.has_dialog m.dialog_id w.dialogs)
              ((wrapper m.dialog_id >>= abort_known m channel) w) (abort_unknown m channel w)
              (bind-Keeps I (wrapper m.dialog_id) (abort_known m channel) (λ v j. j)
                (abort_known-Keeps m channel) w i)
              (abort_unknown-Keeps I s m channel w i))

    module _
        (adds : (w : World env) (t : Text)
          → I w
          → env.decrypt_message_body m.dialog_id m.content w.crypto ≡ ok t
          → I (record w { container = add_message m.dialog_id t true w.container })) where
      add_decrypted-Keeps : (p : Dialog × Bool) → Keeps I (add_decrypted m p)
      add_decrypted-Keeps (d, true) w i =
          elim (Result-cases (env.decrypt_message_body m.dialog_id m.content w.crypto)) [
            | inl (t, e) ↦ rw e (adds w t i e)
            | inr (x, e) ↦ rw e i
          ]
      add_decrypted-Keeps (d, false) w i = i

      handle_body-Keeps : (channel : Text) → Keeps I (handle_body m channel)
      handle_body-Keeps channel w i =
          let unknown = notify error (no_dialog_with m.adress) in
          let found = λ (d : Dialog). add_decrypted m (is_sequental_ok d m.sequential) in
          if-Keeps I (env.has_dialog m.dialog_id w.dialogs) ((wrapper m.dialog_id >>= found) w)
            ((unknown >> abort_unknown m channel) w)
            (bind-Keeps I (wrapper m.dialog_id) found (λ v j. j)
              (λ d. add_decrypted-Keeps (is_sequental_ok d m.sequential)) w i)
            (then-Keeps I unknown (abort_unknown m channel)
              (notify-Keeps I error (no_dialog_with m.adress) s) (abort_unknown-Keeps I s m channel)
              w i)

      pub handle-Keeps : (channel : Text) → Keeps I (handle m channel)
      unfolding handle abort_on_exception
      handle-Keeps channel =
          catch-Keeps I (handle_body m channel) (abort_on_exception m channel)
            (handle_body-Keeps channel)
            (λ e.
              catch-Keeps I (report_and_abort m channel) log_only (report_and_abort-Keeps channel)
                (λ x w i. i))

  module _ (text : Text)
      (wraps : (w : World env)
        → I w
        → I (record w {
          container = (add_to_active_dialog_with_wrapper text false w.container).1;
        })) where
    add_and_send-Keeps :
        (m : DialogMessage) (channel : Text) → Keeps I (add_and_send m channel text)
    add_and_send-Keeps m channel w i =
        let added : Prog (World env) MessageWrapper = λ v.
          let (r, c) = add_to_active_dialog_with_wrapper text false v.container in
          (r, record v { container = c }) in
        let send =
          λ (copy : MessageWrapper). send_message m channel (message_not_deliveried copy) in
        if-Keeps I w.despatcher_alive ((added >>= send) w) (notify error failed_to_send w)
          (bind-Keeps I added send wraps
            (λ copy. send_message-Keeps I s m channel (message_not_deliveried copy)) w i)
          (notify-Keeps I error failed_to_send s w i)

    send_numbered-Keeps :
        (p : (DialogMessage × Text) × Dialog)
        → Keeps I (
            save_wrapper p.1
            >> asks (env.encrypt_message_body p.0.0.dialog_id p.0.0.content) World.crypto
            >>= (λ body. add_and_send (set_content p.0.0 body) p.0.1 text))
    send_numbered-Keeps ((m, channel), numbered) =
        let encrypted = asks (env.encrypt_message_body m.dialog_id m.content) World.crypto in
        bind-Keeps I (save_wrapper numbered >> encrypted)
          (λ body. add_and_send (set_content m body) channel text)
          (then-Keeps I (save_wrapper numbered) encrypted (saved-Keeps I numbered s) (λ w i. i))
          (λ body. add_and_send-Keeps (set_content m body) channel)

    send_body-Keeps : (id : Text) → Keeps I (send_body id text)
    send_body-Keeps id =
        let made = λ (d : Dialog) (contact : Contact). make_message message d contact text in
        bind-Keeps I (wrapper id >>= (λ d. contact_of d >>= made d)) _
          (with_contact-Keeps I s id made
            (λ d contact. make_message-Keeps I s message d contact text))
          send_numbered-Keeps

    pub send_text-Keeps :
        (w : World env)
        → ((v : World env) (t : Text)
            → I v
            → I (record v { container = add_error w.container.active_dialog t v.container }))
        → I w
        → I (send_text text w).1
    unfolding send_text
    send_text-Keeps w failures i =
        let id = w.container.active_dialog in
        let unselected = if is_empty id then notify error select_one_dialog else return tt in
        then-Keeps I unselected (catch (send_body id text) (add_failure id))
          (choose-Keeps I (is_empty id) (notify error select_one_dialog) (return tt)
            (notify-Keeps I error select_one_dialog s) (λ v j. j))
          (catch-Keeps I (send_body id text) (add_failure id) (send_body-Keeps id)
            (λ e v j. failures v _ j))
          w i
