-- ===== src/Core/Sending.antt =====
-- What sending changes.
use secure_dialogues.Common.{
  ◌≡◌, refl, ap, none, some, Text, inl, inr, Option-cases, Bool-cases, ◌&&◌, not, ltb, is_some, ◌+◌,
  ℕ,
}
use secure_dialogues.Common.Maps.{find, text_key, pair_key, pair_eq_iff}
use secure_dialogues.Common.Result.{
  Exception, ok, runtime_error, invalid_dialog_action, out_of_range, range_error, disconnected,
  not_authorized, storage_error, Result-cases, state_after,
}
use secure_dialogues.DialogMessage.{DialogMessage, set_signature, make_ack, abort, action_eq}
use secure_dialogues.Marshaller.{marshall}
use secure_dialogues.Repository.{make_stored, store}
use secure_dialogues.Repository.Entries.{find-store}
use secure_dialogues.Core.{Environment, World, Channel, DeliveryHandler}
use secure_dialogues.Core.Despatcher.{
  rethrow, channel_send_message, send_and_forget, send_ack, send_message,
}

module _ ⦃env : Environment⦄ where
  -- The two worlds differ at most in what the network and the queue of channel events hold.
  abbrev pub OnlySends : World env → World env → Type 0
  OnlySends w w' = w' ≡ record w { network = w'.network; event_queue = w'.event_queue }

  rethrow-OnlySends :
      (name : Text) (e : Exception) (w v : World env)
      → OnlySends w v
      → OnlySends w (state_after (rethrow name e v))
  rethrow-OnlySends name runtime_error w v h = h
  rethrow-OnlySends name invalid_dialog_action w v h = h
  rethrow-OnlySends name out_of_range w v h = h
  rethrow-OnlySends name range_error w v h = h
  rethrow-OnlySends name disconnected w v h =
      ap {A = World env}
        (λ x. record x { event_queue = (state_after (rethrow name disconnected v)).event_queue }) h
  rethrow-OnlySends name not_authorized w v h =
      ap {A = World env}
        (λ x. record x { event_queue = (state_after (rethrow name not_authorized v)).event_queue })
        h
  rethrow-OnlySends name storage_error w v h = h

  pub channel_send_message-OnlySends :
      (name : Text) (m : DialogMessage) (w : World env)
      → OnlySends w (state_after (channel_send_message name m w))
  unfolding channel_send_message
  channel_send_message-OnlySends name m w =
      let sent = env.adapter_send name (marshall m) m.adress w.network in
      elim (Result-cases sent.0) [
        | inl (a, e) ↦ rw e refl
        | inr (x, e) ↦ rw e (rethrow-OnlySends name x w (record w { network = sent.1 }) refl)
      ]

  pub send_and_forget-OnlySends :
      (m : DialogMessage) (name : Text) (w : World env)
      → OnlySends w (state_after (send_and_forget m name w))
  unfolding send_and_forget
  send_and_forget-OnlySends m name w = elim (Result-cases (env.create_signature m w.crypto)) [
    | inl (s, e) ↦ rw e (elim (Option-cases (find name w.channels)) [
      | inl missing ↦ rw missing refl
      | inr (c, there) ↦ rw there (channel_send_message-OnlySends name (set_signature m s) w)
    ])
    | inr (x, e) ↦ rw e refl
  ]

  pub send_ack-OnlySends :
      (m : DialogMessage) (name : Text) (w : World env)
      → OnlySends w (state_after (send_ack m name w))
  unfolding send_ack
  send_ack-OnlySends m name w =
      elim (Bool-cases (
        not (action_eq m.action abort) && (ltb 0 m.sequential && is_some (find name w.channels)))) [
          | inl sends ↦ rw sends (send_and_forget-OnlySends (make_ack m w.timestamp) name w)
          | inr skips ↦ rw skips refl
        ]

  -- `sendMessage` on a channel that is there, for a message that can be signed and whose dialog id and
  -- number are not waited for: the delivery handler waits for the ACK of the message afterwards, until
  -- the interval of the channel is over, also when the sending itself threw.
  pub send_message-registered :
      (m : DialogMessage) (name : Text) (h : DeliveryHandler) (c : Channel) (s : Text)
      (w : World env)
      → find name w.channels ≡ some c
      → env.create_signature m w.crypto ≡ ok s
      → find (m.dialog_id, m.sequential) w.repo.values ≡ none
      → find (m.dialog_id, m.sequential) (state_after (send_message m name h w)).repo.values
        ≡ some (make_stored h (w.ticks + c.wait_ack_interval))
  unfolding send_message
  send_message-registered m name h c s w there signs free =
      let key : Text × ℕ = (m.dialog_id, m.sequential) in
      let stored = find-store w.repo h key key c.wait_ack_interval w.ticks in
      let v : World env = record w { repo = (store w.repo h key c.wait_ack_interval w.ticks).0 } in
      rw (there, send_message)
        (rw signs (
          rw (ap World.repo (channel_send_message-OnlySends name (set_signature m s) v))
            (rw (stored.1, (pair_eq_iff key key).1 refl, free) refl)))
