-- ===== src/Core/Reconnecting.antt =====
-- What the receiving thread of a channel tells about its connection.
use mathlib.Core.List.{append_assoc, append-nil}
use secure_dialogues.Common.{
  ◌≡◌, refl, sym, ap, ◌∙◌, Bool, true, false, List, [], ◌∷◌, ◌++◌, Text, ℕ, zero, suc, inl, inr,
  ◌⊎◌, if◌then◌else◌,
}
use secure_dialogues.Common.Result.{
  Result, state_after, Exception, ok, throw, runtime_error, invalid_dialog_action, out_of_range,
  range_error, disconnected, not_authorized, storage_error,
}
use secure_dialogues.Core.{
  Environment, World, ChannelStatus, connected, failed_connect, authorization_failed,
}
use secure_dialogues.Core.Dispatch.{Outcome, returned, terminated}
use secure_dialogues.Core.Despatcher.{enqueue}
use secure_dialogues.Core.Cycle.{
  dispatch_all, cycle_turn, messsage_cycle, and_then, cycle_failed, handle_received,
}

-- Turns between which nothing else happens.
abbrev pub alone : {W : Type 0} → ℕ → List (W → W)
alone zero = []
alone (suc n) = (λ w. w) ∷ alone n

abbrev pub flaps : Text → ℕ → List (ChannelStatus × Text)
flaps name zero = []
flaps name (suc n) = (connected, name) ∷ (failed_connect, name) ∷ flaps name n

module _ ⦃env : Environment⦄ where
  -- A network that answers `connect` with false, does not change, and cannot be received from: in any
  -- number of turns in a row the thread announces the channel as connected and as failed once for each
  -- turn, changes nothing else, and stays disconnected.
  pub messsage_cycle-flaps :
      (n : ℕ) (name : Text) (w : World env)
      → env.adapter_connect name w.network ≡ (ok false, w.network)
      → env.adapter_receive name w.network ≡ (throw disconnected, w.network)
      → messsage_cycle (alone n) name true w
        ≡ returned true (record w { event_queue = w.event_queue ++ flaps name n })
  unfolding messsage_cycle cycle_turn
  messsage_cycle-flaps zero name w refuses broken =
      ap (λ (q : List (ChannelStatus × Text)). returned true (record w { event_queue = q }))
        (sym (append-nil w.event_queue))
  messsage_cycle-flaps (suc n) name w refuses broken =
      let next = (w.event_queue ++ (connected, name) ∷ []) ++ (failed_connect, name) ∷ [] in
      rw (refuses, messsage_cycle)
        (rw broken (
          messsage_cycle-flaps n name (record w { event_queue = next }) refuses broken
          ∙ ap (λ (q : List (ChannelStatus × Text)). returned true (record w { event_queue = q }))
              (simp append_assoc refl)))

  -- The last event is the loss of the channel's connection.
  abbrev pub LossIsTold : Text → World env → Type 0
  LossIsTold name v =
      (before : List (ChannelStatus × Text)) × (s : ChannelStatus) × ((s ≡ failed_connect)
        ⊎ (s ≡ authorization_failed))
      × (v.event_queue ≡ before ++ (s, name) ∷ [])

  not_lost :
      {A : Type 0} (o : Outcome env A) (name : Text) (v : World env)
      → and_then o (λ _. returned false) ≡ returned true v
      → LossIsTold name v
  not_lost (returned a w) name v e = cc
  not_lost terminated name v e = cc

  not_lost_if :
      {A : Type 0} (alive : Bool) (o : Outcome env A) (name : Text) (w v : World env)
      → (if alive then and_then o (λ _. returned false) else returned false w) ≡ returned true v
      → LossIsTold name v
  not_lost_if true o name w v e = not_lost o name v e
  not_lost_if false o name w v e = cc

  told :
      (s : ChannelStatus) (name : Text) (w v : World env)
      → (s ≡ failed_connect) ⊎ (s ≡ authorization_failed)
      → Path (Outcome env Bool) (returned true (state_after (enqueue s name w))) (returned true v)
      → LossIsTold name v
  told s name w v lost e =
      let same : state_after (enqueue s name w) ≡ v = cc in
      (w.event_queue, s, lost, ap World.event_queue (sym same))

  cycle_failed_told :
      (e : Exception) (name : Text) (w v : World env)
      → cycle_failed e name false w ≡ returned true v
      → LossIsTold name v
  cycle_failed_told runtime_error name w v h = cc
  cycle_failed_told invalid_dialog_action name w v h = cc
  cycle_failed_told out_of_range name w v h = cc
  cycle_failed_told range_error name w v h = cc
  cycle_failed_told disconnected name w v h = told failed_connect name w v (inl refl) h
  cycle_failed_told not_authorized name w v h = told authorization_failed name w v (inr refl) h
  cycle_failed_told storage_error name w v h = cc

  handle_received_told :
      (name : Text) (r : Result (List (Text × Text))) (w v : World env)
      → handle_received name (r, w) ≡ returned true v
      → LossIsTold name v
  handle_received_told name (ok []) w v h = cc
  handle_received_told name (ok (msg ∷ msgs)) w v h =
      not_lost_if w.despatcher_alive (dispatch_all (msg ∷ msgs) name w) name w v h
  handle_received_told name (throw e) w v h = cycle_failed_told e name w v h

  -- When a turn of a connected channel ends disconnected, the loss of the channel's connection is the
  -- last event that the thread put into the queue.
  pub cycle_turn_told :
      (name : Text) (w v : World env)
      → cycle_turn name false w ≡ returned true v
      → LossIsTold name v
  unfolding cycle_turn
  cycle_turn_told name w v h =
      handle_received_told name (env.adapter_receive name w.network).0
        (record w { network = (env.adapter_receive name w.network).1 }) v h
