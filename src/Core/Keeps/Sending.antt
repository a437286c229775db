-- ===== src/Core/Keeps/Sending.antt =====
-- What sending keeps.
use secure_dialogues.Common.{Text, Option, none, some}
use secure_dialogues.Common.Maps.{find, text_key, pair_key}
use secure_dialogues.Common.Result.{
  ◌>>◌, return, Exception, runtime_error, invalid_dialog_action, out_of_range, range_error,
  disconnected, not_authorized, storage_error,
}
use secure_dialogues.DialogMessage.{DialogMessage, set_signature, make_ack}
use secure_dialogues.Marshaller.{marshall}
use secure_dialogues.Core.{Environment, World, asks, Channel, DeliveryHandler}
use secure_dialogues.Core.Despatcher.{
  rethrow, adapter_sends, signed, store_handler, channel_send_message, send_and_forget, send_ack,
  send_message, send_if, send_on,
}
use secure_dialogues.Core.Keeps.{IsStable, Keeps, bind-Keeps, then-Keeps, catch-Keeps, if-Keeps}

module _ ⦃env : Environment⦄ (I : World env → Type 0) (s : IsStable I) where
  rethrow-Keeps : (name : Text) (e : Exception) → Keeps I (rethrow name e)
  rethrow-Keeps name runtime_error w i = i
  rethrow-Keeps name invalid_dialog_action w i = i
  rethrow-Keeps name out_of_range w i = i
  rethrow-Keeps name range_error w i = i
  rethrow-Keeps name disconnected w i = s.event_queue w _ i
  rethrow-Keeps name not_authorized w i = s.event_queue w _ i
  rethrow-Keeps name storage_error w i = i

  pub channel_send_message-Keeps :
      (name : Text) (m : DialogMessage) → Keeps I (channel_send_message name m)
  unfolding channel_send_message
  channel_send_message-Keeps name m w i =
      catch-Keeps I (adapter_sends name (marshall m) m.adress) (rethrow name)
        (λ v j. s.network v _ j) (rethrow-Keeps name) w i

  send_if-Keeps :
      (o : Option Channel) (m : DialogMessage) (name : Text) → Keeps I (send_if o m name)
  send_if-Keeps none m name w i = i
  send_if-Keeps (some c) m name w i = channel_send_message-Keeps name m w i

  signed-Keeps : (m : DialogMessage) → Keeps I (signed m)
  signed-Keeps m =
      bind-Keeps I (asks (env.create_signature m) World.crypto) (λ x. return (set_signature m x))
        (λ w i. i) (λ x w i. i)

  pub send_and_forget-Keeps : (m : DialogMessage) (name : Text) → Keeps I (send_and_forget m name)
  unfolding send_and_forget
  send_and_forget-Keeps m name w i =
      bind-Keeps I (signed m) (λ x. send_if (find name w.channels) x name) (signed-Keeps m)
        (λ x. send_if-Keeps (find name w.channels) x name) w i

  pub send_ack-Keeps : (m : DialogMessage) (name : Text) → Keeps I (send_ack m name)
  unfolding send_ack
  send_ack-Keeps m name w i =
      if-Keeps I _ _ _ (send_and_forget-Keeps (make_ack m w.timestamp) name w i) i

  send_on-Keeps :
      (o : Option Channel) (m : DialogMessage) (name : Text) (h : DeliveryHandler)
      → Keeps I (send_on o m name h)
  send_on-Keeps none m name h w i = i
  send_on-Keeps (some c) m name h w i =
      bind-Keeps I (signed m)
        (λ x. store_handler h x c.wait_ack_interval >> channel_send_message name x) (signed-Keeps m)
        (λ x.
          then-Keeps I (store_handler h x c.wait_ack_interval) (channel_send_message name x)
            (λ v j. s.repo v _ j) (channel_send_message-Keeps name x))
        w i

  pub send_message-Keeps :
      (m : DialogMessage) (name : Text) (h : DeliveryHandler) → Keeps I (send_message m name h)
  unfolding send_message
  send_message-Keeps m name h w i = send_on-Keeps (find name w.channels) m name h w i
