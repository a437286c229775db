-- ===== src/Core/Terminations.antt =====
-- Where an exception meets a `noexcept` function of the receiving thread, or leaves the thread of the
-- repository, and ends the program.
use secure_dialogues.Common.{
  ◌≡◌, refl, subst, ap, sym, Bool, true, false, some, Text, ℕ, List, ◌∷◌, arith, ltb,
}
use secure_dialogues.Common.Maps.{find, text_key, pair_key}
use secure_dialogues.Common.Result.{
  Result, Exception, ok, throw, resume, runtime_error, invalid_dialog_action, out_of_range,
  range_error, disconnected, not_authorized, storage_error, Prog,
}
use secure_dialogues.DialogMessage.{DialogMessage, set_signature, make_ack, abort, ack, action_eq}
use secure_dialogues.Dialog.{Dialog, Status, set_status, is_state_transition_allowed, aborted}
use secure_dialogues.Marshaller.{marshall}
use secure_dialogues.Repository.{
  StoredElement, make_stored, remove, check_values, check_in_thread, erase_expired,
}
use secure_dialogues.Core.{Environment, World, Channel, DeliveryHandler, dialog_action_delivery}
use secure_dialogues.Core.Despatcher.{rethrow, channel_send_message, send_and_forget, send_ack}
use secure_dialogues.Core.Delivery.{removed, timeouted}
use secure_dialogues.Core.Dispatch.{
  terminated, noexcept, dispatch, dispatch_body, acknowledged, check_idle,
}

module _ ⦃env : Environment⦄ where
  noexcept_throws :
      {A : Type 0} (r : Result A × World env) (e : Exception)
      → r.0 ≡ throw e
      → noexcept r ≡ terminated
  noexcept_throws (ok a, w) e h = ground arith
  noexcept_throws (throw x, w) e h = refl

  resume_throws :
      {A B : Type 0} (f : A → Prog (World env) B) (r : Result A × World env) (e : Exception)
      → r.0 ≡ throw e
      → (resume f r).0 ≡ throw e
  resume_throws f (ok a, w) e h = ground arith
  resume_throws {A = A} {B = B} f (throw x, w) e h = ap again h
    where
      again : Result A → Result B
      again (ok a) = throw e
      again (throw y) = throw y

  rethrow_throws : (name : Text) (e : Exception) (w : World env) → (rethrow name e w).0 ≡ throw e
  rethrow_throws name runtime_error w = refl
  rethrow_throws name invalid_dialog_action w = refl
  rethrow_throws name out_of_range w = refl
  rethrow_throws name range_error w = refl
  rethrow_throws name disconnected w = refl
  rethrow_throws name not_authorized w = refl
  rethrow_throws name storage_error w = refl

  send_ack_throws :
      (m : DialogMessage) (channel : Text) (c : Channel) (s : Text) (e : Exception) (w : World env)
      → action_eq m.action abort ≡ false
      → ltb 0 m.sequential ≡ true
      → find channel w.channels ≡ some c
      → env.create_signature (make_ack m w.timestamp) w.crypto ≡ ok s
      → (env.adapter_send channel
          (marshall (set_signature (make_ack m w.timestamp) s))
          m.adress
          w.network).0
        ≡ throw e
      → (send_ack m channel w).0 ≡ throw e
  unfolding send_ack send_and_forget channel_send_message make_ack
  send_ack_throws m channel c s e w not_abort numbered there signs fails =
      rw (not_abort, send_ack)
        (rw numbered (rw there (rw signs (rw there (rw fails (rethrow_throws channel e _))))))

  -- A message that asks for an ACK comes on a channel that is there, and the adapter throws as the
  -- signed ACK is sent, since the connection is lost for example: the program ends.
  pub dispatch-failed_ack :
      (m : DialogMessage) (channel : Text) (c : Channel) (s : Text) (e : Exception) (w : World env)
      → action_eq m.action ack ≡ false
      → action_eq m.action abort ≡ false
      → ltb 0 m.sequential ≡ true
      → find channel w.channels ≡ some c
      → env.create_signature (make_ack m w.timestamp) w.crypto ≡ ok s
      → (env.adapter_send channel
          (marshall (set_signature (make_ack m w.timestamp) s))
          m.adress
          w.network).0
        ≡ throw e
      → dispatch m channel w ≡ terminated
  unfolding dispatch dispatch_body
  dispatch-failed_ack m channel c s e w not_ack not_abort numbered there signs fails =
      rw (not_ack, dispatch)
        (noexcept_throws _ e (
          resume_throws _ _ e (
            resume_throws _ _ e
              (send_ack_throws m channel c s e w not_abort numbered there signs fails))))

  -- An ACK arrives for a message whose delivery handler is to move its dialog to a status that the
  -- dialog, as it is now in the storage, cannot take: the program ends.
  pub dispatch-refused_status :
      (m : DialogMessage) (channel : Text) (d current : Dialog) (next : Status) (abort_need : Bool)
      (address name : Text) (valid : ℕ) (w : World env)
      → action_eq m.action ack ≡ true
      → find (m.dialog_id, m.sequential) w.repo.values
        ≡ some (make_stored (dialog_action_delivery d next abort_need address name) valid)
      → env.reload_dialog d w.dialogs ≡ ok current
      → is_state_transition_allowed current.status next ≡ false
      → dispatch m channel w ≡ terminated
  unfolding dispatch dispatch_body acknowledged removed remove set_status
  dispatch-refused_status m channel d current next abort_need address name valid w is_ack stored
        reloads refused =
      rw (is_ack, dispatch) (rw stored (rw reloads (rw refused refl)))

  timeouted_throws :
      (d current : Dialog) (next : Status) (address name : Text) (w : World env)
      → env.reload_dialog d w.dialogs ≡ ok current
      → is_state_transition_allowed current.status aborted ≡ false
      → (timeouted (dialog_action_delivery d next false address name) w).0 ≡ throw runtime_error
  unfolding timeouted set_status
  timeouted_throws d current next address name w reloads refused =
      rw (reloads, timeouted) (rw refused refl)

  erase_expired_throws :
      (entry : (Text × ℕ) × StoredElement DeliveryHandler)
      (rest : List ((Text × ℕ) × StoredElement DeliveryHandler))
      (again : World env
        → (Result (Unit {0}) × World env) × List ((Text × ℕ) × StoredElement DeliveryHandler))
      (r : Result (Unit {0}) × World env) (e : Exception)
      → r.0 ≡ throw e
      → (erase_expired removed timeouted entry rest again r).0.0 ≡ throw e
  erase_expired_throws entry rest again (ok a, w) e h = ground arith
  erase_expired_throws entry rest again (throw x, w) e h = h

  check_values_throws :
      (now : ℕ) (key : Text × ℕ) (s : StoredElement DeliveryHandler)
      (rest : List ((Text × ℕ) × StoredElement DeliveryHandler)) (w : World env) (e : Exception)
      → ltb now s.valid_to ≡ false
      → (timeouted s.element w).0 ≡ throw e
      → (check_values removed timeouted now ((key, s) ∷ rest) w).0.0 ≡ throw e
  unfolding check_values
  check_values_throws now key s rest w e over fails =
      rw (over, check_values)
        (erase_expired_throws (key, s) rest (check_values removed timeouted now rest) _ e fails)

  -- The first entry of the repository is over and its handler sends no abort, and the status of its
  -- dialog in the storage does not allow ABORTED, being closed or aborted already: the program ends.
  pub check_idle-refused_status :
      (d current : Dialog) (next : Status) (address name : Text) (key : Text × ℕ) (valid : ℕ)
      (rest : List ((Text × ℕ) × StoredElement DeliveryHandler)) (w : World env)
      → w.repo.values
        ≡ (key, make_stored (dialog_action_delivery d next false address name) valid) ∷ rest
      → ltb w.ticks valid ≡ false
      → env.reload_dialog d w.dialogs ≡ ok current
      → is_state_transition_allowed current.status aborted ≡ false
      → check_idle w ≡ terminated
  unfolding check_idle check_in_thread
  check_idle-refused_status d current next address name key valid rest w first over reloads
        refused =
      noexcept_throws _ runtime_error (
        subst
          (λ values. (check_values removed timeouted w.ticks values w).0.0 ≡ throw runtime_error)
          (sym first)
          (check_values_throws w.ticks key
            (make_stored (dialog_action_delivery d next false address name) valid) rest w
            runtime_error over (timeouted_throws d current next address name w reloads refused)))
