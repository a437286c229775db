-- ===== src/Core/Keeps/Deliveries.antt =====
-- What the delivery handlers keep, if the change of a message's status does.
use secure_dialogues.Common.{
  ℕ, Bool, true, false, Text, List, [], ◌∷◌, Option, none, some, ltb, inl, inr, Bool-cases,
}
use secure_dialogues.Common.Maps.{find, pair_key}
use secure_dialogues.Common.Result.{Result, ok, throw, ◌>>=◌, ◌>>◌, return}
use secure_dialogues.DialogMessage.{make_abort}
use secure_dialogues.Dialog.{Dialog, aborted, make_next_sequental}
use secure_dialogues.MessageContainer.{
  MessageContainer, MessageStatus, Wrapper as MessageWrapper, deliveried, not_deliveried,
  update_message, save as save_message,
}
use secure_dialogues.Repository.{
  Repository, StoredElement, check_values, erase_after, erase_expired, remove_found, remove,
}
use secure_dialogues.Core.{
  Environment, World, DeliveryHandler, dialog_action_delivery, message_not_deliveried, no_response,
  error, asks, notify,
}
use secure_dialogues.Core.Despatcher.{send_and_forget}
use secure_dialogues.Core.Delivery.{set_status_and_save, removed, timeouted, send_abort}
use secure_dialogues.Core.Keeps.{IsStable, Keeps, bind-Keeps, then-Keeps, if-Keeps, notify-Keeps}
use secure_dialogues.Core.Keeps.Sending.{send_and_forget-Keeps}
use secure_dialogues.Core.Keeps.Actions.{set_status_and_save-Keeps}

-- The change of the status of a message, as the delivery handlers make it.
abbrev pub status_changed :
    Bool → MessageStatus → MessageWrapper → MessageContainer → MessageContainer
status_changed alive t m c = (save_message alive m (update_message t m c)).1

module _ ⦃env : Environment⦄ (I : World env → Type 0) (s : IsStable I)
    (changes : (w : World env) (alive : Bool) (t : MessageStatus) (m : MessageWrapper)
      → I w
      → I (record w { container = status_changed alive t m w.container })) where
  pub removed-Keeps : (h : DeliveryHandler) → Keeps I (removed h)
  unfolding removed
  removed-Keeps (dialog_action_delivery d next abort_need address channel) w i =
      bind-Keeps I (asks (env.reload_dialog d) World.dialogs)
        (λ current. set_status_and_save current next) (λ v j. j)
        (λ current. set_status_and_save-Keeps I s current next) w i
  removed-Keeps (message_not_deliveried m) w i = changes w w.container_alive deliveried m i

  send_abort-Keeps :
      (b : Bool) (d : Dialog) (address channel : Text) → Keeps I (send_abort b d address channel)
  send_abort-Keeps false d address channel w i = i
  send_abort-Keeps true d address channel w i =
      let (numbered, number) = make_next_sequental d in
      let m = make_abort d.dialog_id address number w.timestamp in
      if-Keeps I w.despatcher_alive ((send_and_forget m channel >> return numbered) w) (return d w)
        (then-Keeps I (send_and_forget m channel) (return numbered)
          (send_and_forget-Keeps I s m channel) (λ v j. j) w i)
        i

  pub timeouted-Keeps : (h : DeliveryHandler) → Keeps I (timeouted h)
  unfolding timeouted
  timeouted-Keeps (dialog_action_delivery d next abort_need address channel) w i =
      let reload = asks (env.reload_dialog d) World.dialogs in
      let abort_it = λ (current : Dialog). send_abort abort_need current address channel in
      let tell = notify error (no_response address) in
      bind-Keeps I (reload >>= abort_it) (λ numbered. tell >> set_status_and_save numbered aborted)
        (bind-Keeps I reload abort_it (λ v j. j)
          (λ current. send_abort-Keeps abort_need current address channel))
        (λ numbered.
          then-Keeps I tell (set_status_and_save numbered aborted)
            (notify-Keeps I error (no_response address) s)
            (set_status_and_save-Keeps I s numbered aborted))
        w i
  timeouted-Keeps (message_not_deliveried m) w i = changes w w.container_alive not_deliveried m i

  erased-Keeps :
      (r : Repository DeliveryHandler (Text × ℕ)) (k : Text × ℕ)
      (o : Option (StoredElement DeliveryHandler)) (w : World env)
      → I w
      → I (remove_found removed timeouted r k o w).0.1
  erased-Keeps r k none w i = i
  erased-Keeps r k (some e) w i = kept (removed e.element w) (removed-Keeps e.element w i)
    where
      kept :
          (p : Result (Unit {0}) × World env) → I p.1 → I (erase_after removed timeouted r k p).0.1
      kept (ok a, v) j = j
      kept (throw x, v) j = j

  pub remove-Keeps :
      (r : Repository DeliveryHandler (Text × ℕ)) (k : Text × ℕ) (w : World env)
      → I w
      → I (remove removed timeouted r k w).0.1
  unfolding remove
  remove-Keeps r k w i = erased-Keeps r k (find k r.values) w i

  expired-Keeps :
      (entry : (Text × ℕ) × StoredElement DeliveryHandler)
      (rest : List ((Text × ℕ) × StoredElement DeliveryHandler))
      (next : World env
        → (Result (Unit {0}) × World env) × List ((Text × ℕ) × StoredElement DeliveryHandler))
      (p : Result (Unit {0}) × World env)
      → ((w : World env) → I w → I (next w).0.1)
      → I p.1
      → I (erase_expired removed timeouted entry rest next p).0.1
  expired-Keeps entry rest next (ok a, w) k i = k w i
  expired-Keeps entry rest next (throw e, w) k i = i

  pub check_values-Keeps :
      (now : ℕ) (values : List ((Text × ℕ) × StoredElement DeliveryHandler)) (w : World env)
      → I w
      → I (check_values removed timeouted now values w).0.1
  unfolding check_values
  check_values-Keeps now [] w i = i
  check_values-Keeps now ((k, e) ∷ rest) w i = elim (Bool-cases (ltb now e.valid_to)) [
    | inl waits ↦ rw (waits, check_values) (check_values-Keeps now rest w i)
    | inr over ↦
        rw (over, check_values)
          (expired-Keeps (k, e) rest (check_values removed timeouted now rest)
            (timeouted e.element w) (check_values-Keeps now rest) (timeouted-Keeps e.element w i))
  ]
