-- ===== src/Core/Rejected.antt =====
-- Messages that the despatcher does not pass to a handler.
use secure_dialogues.Common.{◌≡◌, refl, subst, Bool, true, false, Text, arith, ap, ◌≢◌}
use secure_dialogues.Common.Int.{pos, ◌-ℤ◌, ltb_ℤ}
use secure_dialogues.Common.Maps.{text_key}
use secure_dialogues.Common.Result.{
  Result, Exception, ok, throw, state_after, runtime_error, invalid_dialog_action, out_of_range,
  range_error, disconnected, not_authorized, storage_error,
}
use secure_dialogues.DialogMessage.{
  DialogMessage, ack, contact_discover, action_eq, max_timestamp_diff,
}
use secure_dialogues.Core.{Environment, World}
use secure_dialogues.Core.Despatcher.{send_ack}
use secure_dialogues.Core.Dispatch.{
  returned, dispatch, dispatch_body, is_signature_valid, sink_error, signature_error,
}
use secure_dialogues.Core.Sending.{OnlySends, send_ack-OnlySends}

module _ ⦃env : Environment⦄ where
  signature_error_lem :
      (m : DialogMessage) (channel : Text) (e : Exception) (w : World env)
      → action_eq m.action contact_discover ≡ false
      → signature_error m channel e w ≡ (ok false, w)
  unfolding sink_error
  signature_error_lem m channel runtime_error w d = refl
  signature_error_lem m channel invalid_dialog_action w d = refl
  signature_error_lem m channel out_of_range w d = refl
  signature_error_lem m channel range_error w d = rw (d, sink_error) refl
  signature_error_lem m channel disconnected w d = refl
  signature_error_lem m channel not_authorized w d = refl
  signature_error_lem m channel storage_error w d = refl

  is_signature_valid_refused :
      (m : DialogMessage) (channel : Text) (w : World env) (r : Result Bool)
      → action_eq m.action contact_discover ≡ false
      → env.is_signature_ok m w.crypto ≡ r
      → r ≢ ok true
      → is_signature_valid m channel w ≡ (ok false, w)
  unfolding is_signature_valid
  is_signature_valid_refused m channel w (ok true) d e wrong = ground (arith, wrong refl)
  is_signature_valid_refused m channel w (ok false) d e wrong = rw (e, is_signature_valid) refl
  is_signature_valid_refused m channel w (throw x) d e wrong =
      rw (e, is_signature_valid) (signature_error_lem m channel x w d)

  pub ack_only :
      (m : DialogMessage) (channel : Text) (w v : World env)
      → send_ack m channel w ≡ (ok tt, v)
      → OnlySends w v
  ack_only m channel w v sent =
      subst (λ r. OnlySends w (state_after r)) sent (send_ack-OnlySends m channel w)

  -- A message, neither an ACK nor a discovery, whose signature is not found right, be it wrong or its
  -- check thrown, while the ACK for it could be sent: `dispatch` returns, and the world is as it was
  -- but for the network and the events of the channels, whatever the message says.
  pub dispatch_bad_signature :
      (m : DialogMessage) (channel : Text) (w v : World env)
      → action_eq m.action ack ≡ false
      → action_eq m.action contact_discover ≡ false
      → send_ack m channel w ≡ (ok tt, v)
      → env.is_signature_ok m w.crypto ≢ ok true
      → (dispatch m channel w ≡ returned tt v) × OnlySends w v
  unfolding dispatch dispatch_body sink_error
  dispatch_bad_signature m channel w v not_ack known sent bad =
      let only = ack_only m channel w v sent in
      let refused =
        is_signature_valid_refused m channel v (env.is_signature_ok m w.crypto) known
          (rw (ap World.crypto only) refl) bad in
      (rw (not_ack, dispatch) (rw sent (rw refused refl)), only)

  -- A message, not an ACK, with a right signature that is more than 140 seconds old, while the ACK for
  -- it could be sent: `dispatch` returns, and only the network and the events of the channels changed.
  pub dispatch_expired :
      (m : DialogMessage) (channel : Text) (w v : World env)
      → action_eq m.action ack ≡ false
      → send_ack m channel w ≡ (ok tt, v)
      → env.is_signature_ok m w.crypto ≡ ok true
      → ltb_ℤ (pos max_timestamp_diff) (w.timestamp -ℤ m.timestamp) ≡ true
      → (dispatch m channel w ≡ returned tt v) × OnlySends w v
  unfolding dispatch dispatch_body is_signature_valid sink_error
  dispatch_expired m channel w v not_ack sent right old =
      let only = ack_only m channel w v sent in
      let valid : is_signature_valid m channel v ≡ (ok true, v) =
        rw (ap World.crypto only, right, is_signature_valid) refl in
      let late : ltb_ℤ (pos max_timestamp_diff) (v.timestamp -ℤ m.timestamp) ≡ true =
        rw (ap World.timestamp only) old in
      (rw (not_ack, dispatch) (rw sent (rw valid (rw late refl))), only)
