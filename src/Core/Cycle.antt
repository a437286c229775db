-- ===== src/Core/Cycle.antt =====
-- messages/src/communication/channel.cpp: the thread that receives the messages of a channel.
use secure_dialogues.Common.{
  Bool, true, false, Option, none, some, List, [], ◌∷◌, Text, if◌then◌else◌,
}
use secure_dialogues.Common.Result.{
  Result, Exception, ok, throw, state_after, disconnected, not_authorized,
}
use secure_dialogues.DialogMessage.{DialogMessage}
use secure_dialogues.Marshaller.{unmarshall}
use secure_dialogues.Core.{Environment, World, connected, failed_connect, authorization_failed}
use secure_dialogues.Core.Despatcher.{enqueue}
use secure_dialogues.Core.Dispatch.{Outcome, returned, terminated, dispatch}

module _ ⦃env : Environment⦄ where
  abbrev pub and_then :
      {A B : Type 0} → Outcome env A → (A → World env → Outcome env B) → Outcome env B
  and_then terminated f = terminated
  and_then (returned a w) f = f a w

  -- What does not parse is dropped. `dispatch` is `noexcept`, so that the `catch` around it never runs.
  abbrev pub dispatch_parsed : Option DialogMessage → Text → World env → Outcome env (Unit {0})
  dispatch_parsed none name w = returned tt w
  dispatch_parsed (some m) name w = dispatch m name w

  unfoldable pub dispatch_all : List (Text × Text) → Text → World env → Outcome env (Unit {0})
  dispatch_all [] name w = returned tt w
  dispatch_all ((address, text) ∷ rest) name w =
      and_then (dispatch_parsed (unmarshall w.junk text address) name w)
        (λ _. dispatch_all rest name)

  -- The `catch` clauses: the new value of `isDisconected`, whose old one is given.
  abbrev pub cycle_failed : Exception → Text → Bool → World env → Outcome env Bool
  cycle_failed disconnected name before w =
      returned true (state_after (enqueue failed_connect name w))
  cycle_failed not_authorized name before w =
      returned true (state_after (enqueue authorization_failed name w))
  cycle_failed e name before w = returned before w

  abbrev pub handle_received : Text → Result (List (Text × Text)) × World env → Outcome env Bool
  handle_received name (ok [], w) = returned false w
  handle_received name (ok (msg ∷ msgs), w) =
      if w.despatcher_alive
      then and_then (dispatch_all (msg ∷ msgs) name w) (λ _. returned false)
      else returned false w
  handle_received name (throw e, w) = cycle_failed e name false w

  abbrev pub receive_and_handle : Text → World env → Outcome env Bool
  receive_and_handle name w =
      let (r, n) = env.adapter_receive name w.network in
      handle_received name (r, record w { network = n })

  -- What `connect` returns is not read.
  abbrev pub after_connect : Text → Result Bool × World env → Outcome env Bool
  after_connect name (ok _, w) = receive_and_handle name (state_after (enqueue connected name w))
  after_connect name (throw e, w) = cycle_failed e name true w

  abbrev pub connect_first : Text → World env → Outcome env Bool
  connect_first name w =
      let (r, n) = env.adapter_connect name w.network in
      after_connect name (r, record w { network = n })

  -- One turn of the loop of `messsageCycle`, with `isDisconected` before and after it.
  unfoldable pub cycle_turn : Text → Bool → World env → Outcome env Bool
  unfolding dispatch_all
  cycle_turn name is_disconected w =
      if is_disconected then connect_first name w else receive_and_handle name w

  -- `messsageCycle`, for as many turns as there are before `mIsEnds` is set. Before a turn the other
  -- threads may change the world.
  unfoldable pub messsage_cycle :
      List (World env → World env) → Text → Bool → World env → Outcome env Bool
  unfolding cycle_turn
  messsage_cycle [] name is_disconected w = returned is_disconected w
  messsage_cycle (others ∷ turns) name is_disconected w =
      and_then (cycle_turn name is_disconected (others w)) (messsage_cycle turns name)
