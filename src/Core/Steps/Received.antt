-- ===== src/Core/Steps/Received.antt =====
-- What the dispatching of a message puts into the dialogs.
use secure_dialogues.Common.{◌≡◌, refl, Bool, true, false, inl, inr, ◌⊎◌, Text, Option, Bool-cases}
use secure_dialogues.Common.Result.{Result-cases, ok, ◌>>=◌, ◌>>◌, state_after}
use secure_dialogues.DialogMessage.{
  DialogMessage, Action, message, create_dialog, accept_dialog, close_dialog, ack, abort,
  verify_key, key_verification, contact_discover, action_eq,
}
use secure_dialogues.Core.Keeps.Deliveries.{status_changed}
use secure_dialogues.MessageContainer.{
  MessageStatus, Wrapper as MessageWrapper, make_user_message, error as status_error, system,
}
use secure_dialogues.MessageContainer.Valid.{IsValid}
use secure_dialogues.MessageContainer.Grows.{Entry, Grown, also_pushed, also_added, also_status}
use secure_dialogues.Core.{
  Environment, World, save_wrapper, MessageHandler, dialog_action_handler, message_action_handler,
}
use secure_dialogues.Core.Despatcher.{send_ack}
use secure_dialogues.Core.Dispatch.{
  returned, dispatch, dispatch_body, is_signature_valid, handle_valid, handle_by, is_it_you_action,
}
use secure_dialogues.Core.DialogRequests.{is_it_you_action as is_request}
use secure_dialogues.Core.TextMessages.{is_it_you_action as is_text}
use secure_dialogues.Core.Steps.{IsAccepted, IsReceived, IsEnded}
use secure_dialogues.Core.Steps.Ended.{Told, Told-IsStable, told}
use secure_dialogues.Dialog.{Dialog}
use secure_dialogues.Core.Keeps.{IsStable, Keeps, bind-Keeps, then-Keeps, bind_knows, then_result}
use secure_dialogues.Core.Keeps.Sending.{send_ack-Keeps}
use secure_dialogues.Core.Keeps.Requests.{handle-Keeps as requests_kept}
use secure_dialogues.Core.Keeps.Texts.{handle-Keeps as texts_kept}
use secure_dialogues.Core.Keeps.Dispatching.{
  is_signature_valid-Keeps, is_signature_valid_knows, handle_valid-Keeps, handle_each-Keeps,
  acknowledged-Keeps, noexcept-Keeps,
}

no_request : (a : Action) → is_request a ≡ true → is_text a ≡ true → ⊥
unfolding is_request is_text
no_request message h k = cc h
no_request create_dialog h k = cc k
no_request accept_dialog h k = cc k
no_request close_dialog h k = cc k
no_request ack h k = cc h
no_request abort h k = cc k
no_request verify_key h k = cc k
no_request key_verification h k = cc k
no_request contact_discover h k = cc h

module _ ⦃env : Environment⦄ (d : Dialog) (w : World env) where
  crypto_saved : (save_wrapper d w).1.crypto ≡ w.crypto
  unfolding save_wrapper
  crypto_saved = elim (Result-cases (env.save_dialog d w.dialogs).0) [
    | inl (a, e) ↦ rw e refl
    | inr (x, e) ↦ rw e refl
  ]

  timestamp_saved : (save_wrapper d w).1.timestamp ≡ w.timestamp
  unfolding save_wrapper
  timestamp_saved = elim (Result-cases (env.save_dialog d w.dialogs).0) [
    | inl (a, e) ↦ rw e refl
    | inr (x, e) ↦ rw e refl
  ]

module _ ⦃env : Environment⦄ (w : World env) (valid : IsValid w.container) where
  module _ (m : DialogMessage) (channel : Text) where
    abbrev Allowed : Text → Option Entry → Type 0
    Allowed id e = IsReceived m w id e ⊎ IsEnded w id e

    ended : (id : Text) (e : Option Entry) → IsEnded w id e → Allowed id e
    ended id e h = inr h

    abbrev Shows : World env → Type 0
    Shows v = Told Allowed w ended v

    Shows-IsStable : IsStable Shows
    Shows-IsStable = Told-IsStable Allowed w ended

    -- Handling a text needs the crypto system and the clock as they are at the start.
    abbrev ShowsNow : World env → Type 0
    ShowsNow v = (v.crypto ≡ w.crypto) × (v.timestamp ≡ w.timestamp) × Shows v

    ShowsNow-IsStable : IsStable ShowsNow
    ShowsNow-IsStable = record {
      added = λ v d (c, t, g). (c, t, Shows-IsStable.added v d g);
      removed = λ v d (c, t, g). (c, t, Shows-IsStable.removed v d g);
      network = λ v x i. i;
      repo = λ v x i. i;
      notices = λ v x i. i;
      event_queue = λ v x i. i;
      saved = λ v d (c, t, g).
          (rw (crypto_saved d v) c, rw (timestamp_saved d v) t, Shows-IsStable.saved v d g);
    }

    text_handled :
        IsAccepted m w
        → (h : MessageHandler) → is_it_you_action h m.action ≡ true
        → Keeps ShowsNow (handle_by h m channel)
    unfolding is_text
    text_handled accepted dialog_action_handler yours =
        absurd (no_request m.action yours accepted.0)
    text_handled accepted message_action_handler yours =
        texts_kept ShowsNow ShowsNow-IsStable m
          (λ v text (c, t, (r, g)). (
            c,
            t,
            (
              r,
              also_pushed Allowed w.container v.container g m.dialog_id
                  (make_user_message status_error system text)
                  (inl (refl, accepted, inr (text, refl))),
            ),
          ))
          (λ v text (c, t, (r, g)) e. (
            c,
            t,
            (
              r,
              also_added Allowed w.container v.container g m.dialog_id text
                  (inl (refl, accepted, inl (text, refl, rw (← c) e))),
            ),
          ))
          channel

    request_handled :
        action_eq m.action message ≡ false
        → (h : MessageHandler) → is_it_you_action h m.action ≡ true
        → Keeps Shows (handle_by h m channel)
    unfolding is_text
    request_handled other dialog_action_handler yours =
        requests_kept Shows Shows-IsStable (λ v x i. i) m channel
    request_handled other message_action_handler yours = cc (other, yours)

    shown : Shows w
    shown = told Allowed w ended valid

    shown_now : ShowsNow w
    shown_now = (refl, refl, shown)

    text_shows :
        action_eq m.action message ≡ true
        → ShowsNow
            ((send_ack m channel >> is_signature_valid m channel >>= handle_valid m channel) w).1
    text_shows is_message =
        let checked = send_ack m channel >> is_signature_valid m channel in
        bind_knows ShowsNow (λ b. b ≡ true → env.is_signature_ok m w.crypto ≡ ok true) checked
          (handle_valid m channel) w
          (then-Keeps ShowsNow (send_ack m channel) (is_signature_valid m channel)
            (send_ack-Keeps ShowsNow ShowsNow-IsStable m channel)
            (is_signature_valid-Keeps ShowsNow ShowsNow-IsStable (λ v x i. i) m channel) w
            shown_now)
          (λ b e t.
            let acked = state_after (send_ack m channel w) in
            let same : acked.crypto ≡ w.crypto =
              (send_ack-Keeps ShowsNow ShowsNow-IsStable m channel w shown_now).0 in
            rw (← same) (
              is_signature_valid_knows ShowsNow ShowsNow-IsStable m channel acked b
                (then_result ShowsNow (send_ack m channel) (is_signature_valid m channel) w b e) t))
          (λ b known v i.
            handle_valid-Keeps ShowsNow ShowsNow-IsStable (λ u x j. j) m channel b v
              (λ t fresh.
                handle_each-Keeps ShowsNow ShowsNow-IsStable v.handlers m channel
                  (text_handled (is_message, known t, rw (← i.1) fresh)) v i)
              i)

    other_shows :
        action_eq m.action message ≡ false
        → Shows
            ((send_ack m channel >> is_signature_valid m channel >>= handle_valid m channel) w).1
    other_shows other =
        bind-Keeps Shows (send_ack m channel >> is_signature_valid m channel)
          (handle_valid m channel)
          (then-Keeps Shows (send_ack m channel) (is_signature_valid m channel)
            (send_ack-Keeps Shows Shows-IsStable m channel)
            (is_signature_valid-Keeps Shows Shows-IsStable (λ v x i. i) m channel))
          (λ b v i.
            handle_valid-Keeps Shows Shows-IsStable (λ u x j. j) m channel b v
              (λ t fresh.
                handle_each-Keeps Shows Shows-IsStable v.handlers m channel (request_handled other)
                  v i)
              i)
          w shown

    pub dispatch-Grown :
        (v : World env)
        → dispatch m channel w ≡ returned tt v
        → Grown Allowed w.container v.container
    unfolding dispatch dispatch_body
    dispatch-Grown v h =
        (noexcept-Keeps Shows Shows-IsStable (dispatch_body m channel w) tt v h
          (elim (Bool-cases (action_eq m.action ack)) [
            | inl is_ack ↦
                rw (is_ack, dispatch_body)
                  (acknowledged-Keeps Shows Shows-IsStable changed m w shown)
            | inr not_ack ↦
                rw (not_ack, dispatch_body)
                  (elim (Bool-cases (action_eq m.action message)) [
                    | inl is_message ↦ (text_shows is_message).2
                    | inr other ↦ other_shows other
                  ])
          ])).1
      where
        changed :
            (v : World env) (alive : Bool) (t : MessageStatus) (c : MessageWrapper)
            → Shows v
            → Shows (record v { container = status_changed alive t c v.container })
        changed v alive t c (r, g) = (r, also_status Allowed w.container v.container g alive t c)
