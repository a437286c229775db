-- ===== src/Core/Dispatch.antt =====
-- The receiving half of messages/src/communication/messagedespatcher.cpp, with despatcherrorssink.cpp,
-- and the timer that checks for messages that were not acknowledged.
use secure_dialogues.Common.{Bool, false, List, [], ◌∷◌, Text, if◌then◌else◌}
use secure_dialogues.Common.Int.{pos, ◌-ℤ◌, ltb_ℤ}
use secure_dialogues.Common.Maps.{pair_key}
use secure_dialogues.Common.Result.{
  Result, Exception, Prog, ok, throw, ◌>>=◌, ◌>>◌, return, catch, resume, range_error,
}
use secure_dialogues.DialogMessage.{
  Action, DialogMessage, ack, contact_discover, action_eq, max_timestamp_diff,
}
use secure_dialogues.Discovery.{get_name_and_public_key}
use secure_dialogues.Repository.{remove, check_in_thread}
use secure_dialogues.Core.{
  Environment, World, MessageHandler, make_discovered_contact, dialog_action_handler,
  message_action_handler, asks,
}
use secure_dialogues.Core.Despatcher.{send_ack}
use secure_dialogues.Core.Delivery.{removed, timeouted}
use secure_dialogues.Core.DialogRequests
use secure_dialogues.Core.TextMessages

pub data DespatchError : Type 0 where
  contact_not_found message_expired signature_broken exception_thrown : DespatchError

abbrev pub is_it_you_action : MessageHandler → Action → Bool
is_it_you_action dialog_action_handler a = DialogRequests.is_it_you_action a
is_it_you_action message_action_handler a = TextMessages.is_it_you_action a

-- What a call of a `noexcept` function comes to: an exception that would leave it ends the program.
pub data Outcome (env : Environment) (A : Type 0) : Type 0 where
  returned : A → World env → Outcome env A
  terminated : Outcome env A

module _ ⦃env : Environment⦄ where
  abbrev pub noexcept : {A : Type 0} → Result A × World env → Outcome env A
  noexcept (ok a, w) = returned a w
  noexcept (throw e, w) = terminated

  abbrev pub add_discovered : DialogMessage → Text → Text × Text → Prog (World env) (Unit {0})
  add_discovered m channel (contact_name, key) w =
      let (r, d) =
        env.add_discovered
          (make_discovered_contact w.clock channel m.adress key contact_name m.dialog_id)
          w.discovered in
      (r, record w { discovered = d })

  -- `DespatchErrorsSink::error`; the other branches only write to the log.
  unfoldable pub sink_error : DespatchError → DialogMessage → Text → Prog (World env) (Unit {0})
  unfolding get_name_and_public_key
  sink_error contact_not_found m channel =
      if action_eq m.action contact_discover
      then asks get_name_and_public_key (λ w. m.content) >>= add_discovered m channel
      else return tt
  sink_error _ m channel = return tt

  -- `isSignatureValid`: the exceptions of the crypto system become errors; those of the sink end the
  -- program, since this function is `noexcept` too, which `dispatch` passes on.
  abbrev pub signature_error : DialogMessage → Text → Exception → Prog (World env) Bool
  signature_error m channel range_error = sink_error contact_not_found m channel >> return false
  signature_error m channel e = sink_error exception_thrown m channel >> return false

  unfoldable pub is_signature_valid : DialogMessage → Text → Prog (World env) Bool
  is_signature_valid m channel =
      catch (asks (env.is_signature_ok m) World.crypto) (signature_error m channel)

  abbrev pub handle_by : MessageHandler → DialogMessage → Text → Prog (World env) (Unit {0})
  handle_by dialog_action_handler m channel = DialogRequests.handle m channel
  handle_by message_action_handler m channel = TextMessages.handle m channel

  unfoldable pub handle_each :
      List MessageHandler → DialogMessage → Text → Prog (World env) (Unit {0})
  handle_each [] m channel = return tt
  handle_each (h ∷ hs) m channel =
      (if is_it_you_action h m.action then handle_by h m channel else return tt)
      >> handle_each hs m channel

  abbrev pub handle_valid : DialogMessage → Text → Bool → Prog (World env) (Unit {0})
  handle_valid m channel valid w =
      if valid
      then if ltb_ℤ (pos max_timestamp_diff) (w.timestamp -ℤ m.timestamp)
        then sink_error message_expired m channel w
        else handle_each w.handlers m channel w
      else sink_error signature_broken m channel w

  -- `mRepo->remove`; that it finds nothing is only logged.
  unfoldable pub acknowledged : DialogMessage → Prog (World env) (Unit {0})
  unfolding removed timeouted remove
  acknowledged m w =
      let ((r, v), repo) = remove removed timeouted w.repo (m.dialog_id, m.sequential) w in
      resume (λ found. return tt) (r, record v { repo = repo })

  unfoldable pub dispatch_body : DialogMessage → Text → Prog (World env) (Unit {0})
  unfolding acknowledged is_signature_valid send_ack
  dispatch_body m channel =
      if action_eq m.action ack
      then acknowledged m
      else send_ack m channel >> is_signature_valid m channel >>= handle_valid m channel

  -- `MessageDespatcher::dispatch`.
  unfoldable pub dispatch : DialogMessage → Text → World env → Outcome env (Unit {0})
  unfolding dispatch_body
  dispatch m channel w = noexcept (dispatch_body m channel w)

  -- One round of the thread of the repository, which lets an exception end the program.
  unfoldable pub check_idle : World env → Outcome env (Unit {0})
  unfolding check_in_thread removed timeouted
  check_idle w =
      let ((r, v), repo) = check_in_thread removed timeouted w.repo w.ticks w in
      noexcept (r, record v { repo = repo })
