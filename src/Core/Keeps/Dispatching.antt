-- ===== src/Core/Keeps/Dispatching.antt =====
-- What the reading half of the despatcher keeps.
use secure_dialogues.Common.Int.{pos, ◌-ℤ◌, ltb_ℤ}
use secure_dialogues.Common.{
  Bool, true, false, List, [], ◌∷◌, Text, ◌≡◌, refl, inl, inr, if◌then◌else◌, Bool-cases,
}
use secure_dialogues.Common.Result.{
  Result, Exception, Prog, ok, throw, ◌>>=◌, return, resume, recover, runtime_error, range_error,
}
use secure_dialogues.DialogMessage.{DialogMessage, action_eq, contact_discover, max_timestamp_diff}
use secure_dialogues.Discovery.{get_name_and_public_key}
use secure_dialogues.Common.Maps.{pair_key}
use secure_dialogues.Core.Delivery.{removed, timeouted}
use secure_dialogues.Repository.{remove, check_in_thread}
use secure_dialogues.MessageContainer.{MessageStatus, Wrapper as MessageWrapper}
use secure_dialogues.Core.{Environment, World, MessageHandler, asks}
use secure_dialogues.Core.Dispatch.{
  DespatchError, contact_not_found, message_expired, signature_broken, exception_thrown, sink_error,
  signature_error, is_signature_valid, handle_valid, add_discovered, acknowledged, handle_each,
  handle_by, is_it_you_action, returned, noexcept, check_idle,
}
use secure_dialogues.Core.Keeps.{IsStable, Keeps, bind-Keeps, then-Keeps, catch-Keeps, choose-Keeps}
use secure_dialogues.Core.Keeps.Deliveries.{status_changed, remove-Keeps, check_values-Keeps}

module _ ⦃env : Environment⦄ (I : World env → Type 0) (s : IsStable I) where
  module _
      (discovered : (w : World env) (x : env.Discovered)
        → I w
        → I (record w { discovered = x })) where
    pub sink_error-Keeps :
        (e : DespatchError) (m : DialogMessage) (channel : Text) → Keeps I (sink_error e m channel)
    unfolding sink_error
    sink_error-Keeps contact_not_found m channel =
        let read = asks get_name_and_public_key (λ w. m.content) in
        choose-Keeps I (action_eq m.action contact_discover) (read >>= add_discovered m channel)
          (return tt)
          (bind-Keeps I read (add_discovered m channel) (λ w i. i) (λ p w i. discovered w _ i))
          (λ w i. i)
    sink_error-Keeps _ m channel = λ w i. i

    signature_error-Keeps :
        (m : DialogMessage) (channel : Text) (e : Exception) → Keeps I (signature_error m channel e)
    signature_error-Keeps m channel range_error =
        then-Keeps I (sink_error contact_not_found m channel) (return false)
          (sink_error-Keeps contact_not_found m channel) (λ w i. i)
    signature_error-Keeps m channel runtime_error =
        then-Keeps I (sink_error exception_thrown m channel) (return false)
          (sink_error-Keeps exception_thrown m channel) (λ w i. i)
    signature_error-Keeps m channel _ =
        then-Keeps I (sink_error exception_thrown m channel) (return false)
          (sink_error-Keeps exception_thrown m channel) (λ w i. i)

    pub is_signature_valid-Keeps :
        (m : DialogMessage) (channel : Text) → Keeps I (is_signature_valid m channel)
    unfolding is_signature_valid
    is_signature_valid-Keeps m channel =
        catch-Keeps I (asks (env.is_signature_ok m) World.crypto) (signature_error m channel)
          (λ w i. i) (signature_error-Keeps m channel)

    -- A message is handled if its signature is valid and it is not too old.
    pub handle_valid-Keeps :
        (m : DialogMessage) (channel : Text) (valid : Bool) (w : World env)
        → (valid ≡ true
            → ltb_ℤ (pos max_timestamp_diff) (w.timestamp -ℤ m.timestamp) ≡ false
            → I (handle_each w.handlers m channel w).1)
        → I w
        → I (handle_valid m channel valid w).1
    handle_valid-Keeps m channel false w k i = sink_error-Keeps signature_broken m channel w i
    handle_valid-Keeps m channel true w k i =
        elim (Bool-cases (ltb_ℤ (pos max_timestamp_diff) (w.timestamp -ℤ m.timestamp))) [
          | inl old ↦ rw old (sink_error-Keeps message_expired m channel w i)
          | inr fresh ↦ rw fresh (k refl fresh)
        ]

  after_false :
      (p : Result (Unit {0}) × World env) (b : Bool)
      → (resume (λ u. return false) p).0 ≡ ok b
      → b ≡ false
  after_false (ok u, w) b e = cc e
  after_false (throw x, w) b e = cc e

  error_false :
      (m : DialogMessage) (channel : Text) (e : Exception) (w : World env) (b : Bool)
      → (signature_error m channel e w).0 ≡ ok b
      → b ≡ false
  error_false m channel range_error w b e =
      after_false (sink_error contact_not_found m channel w) b e
  error_false m channel runtime_error w b e =
      after_false (sink_error exception_thrown m channel w) b e
  error_false m channel _ w b e = after_false (sink_error exception_thrown m channel w) b e

  known_signature :
      (m : DialogMessage) (channel : Text) (r : Result Bool) (w : World env) (b : Bool)
      → (recover (signature_error m channel) (r, w)).0 ≡ ok b
      → b ≡ true
      → r ≡ ok true
  known_signature m channel (ok a) w b e t = cc (e, t)
  known_signature m channel (throw x) w b e t = cc (error_false m channel x w b e, t)

  -- Only a signature that the crypto system accepts is valid.
  pub is_signature_valid_knows :
      (m : DialogMessage) (channel : Text) (w : World env) (b : Bool)
      → (is_signature_valid m channel w).0 ≡ ok b
      → b ≡ true
      → env.is_signature_ok m w.crypto ≡ ok true
  unfolding is_signature_valid
  is_signature_valid_knows m channel w b e t =
      known_signature m channel (env.is_signature_ok m w.crypto) w b e t

  -- A step that returns leaves the state of the program that it runs.
  pub noexcept-Keeps :
      {A : Type 0} (p : Result A × World env) (a : A) (v : World env)
      → noexcept p ≡ returned a v
      → I p.1
      → I v
  noexcept-Keeps (ok b, w) a v h i = let same : w ≡ v = cc h in rw (← same) i
  noexcept-Keeps (throw e, w) a v h i = cc h

  pub handle_each-Keeps :
      (hs : List MessageHandler) (m : DialogMessage) (channel : Text)
      → ((h : MessageHandler)
          → is_it_you_action h m.action ≡ true
          → Keeps I (handle_by h m channel))
      → Keeps I (handle_each hs m channel)
  unfolding handle_each
  handle_each-Keeps [] m channel k w i = i
  handle_each-Keeps (h ∷ hs) m channel k w i =
      let handled = if is_it_you_action h m.action then handle_by h m channel else return tt in
      then-Keeps I handled (handle_each hs m channel)
        (elim (Bool-cases (is_it_you_action h m.action)) [
          | inl yours ↦ rw yours (k h yours)
          | inr other ↦ rw other (λ v j. j)
        ])
        (handle_each-Keeps hs m channel k) w i

  module _
      (changes : (w : World env) (alive : Bool) (t : MessageStatus) (m : MessageWrapper)
        → I w
        → I (record w { container = status_changed alive t m w.container })) where
    pub acknowledged-Keeps : (m : DialogMessage) → Keeps I (acknowledged m)
    unfolding acknowledged
    acknowledged-Keeps m w i =
        let found : Prog (World env) Bool = λ u.
          let ((r, v), repo) = remove removed timeouted u.repo (m.dialog_id, m.sequential) u in
          (r, record v { repo = repo }) in
        bind-Keeps I found (λ b. return tt)
          (λ u j. s.repo _ _ (remove-Keeps I s changes u.repo (m.dialog_id, m.sequential) u j))
          (λ b v j. j) w i

    pub check_idle-Keeps : (w v : World env) → check_idle w ≡ returned tt v → I w → I v
    unfolding check_idle check_in_thread
    check_idle-Keeps w v h i =
        noexcept-Keeps _ tt v h
          (s.repo _ _ (check_values-Keeps I s changes w.ticks w.repo.values w i))
