-- ===== src/Core/Receiving.antt =====
-- A text on its way from the network to the user.
use secure_dialogues.Common.{
  ◌≡◌, refl, subst, ◌∙◌, true, false, some, List, [], ◌∷◌, ◌++◌, Text, text_eq_refl, ltb,
}
use secure_dialogues.Common.Int.{ℤ, pos, ◌-ℤ◌, ltb_ℤ}
use secure_dialogues.Common.Result.{ok}
use secure_dialogues.DialogMessage.{
  Action, ack, action_eq, DialogMessage, message, set_signature, max_timestamp_diff,
}
use secure_dialogues.Dialog.{Dialog, make_next_sequental}
use secure_dialogues.Marshaller.{marshall, trim}
use secure_dialogues.Marshaller.RoundTrip.{IsSendable, unmarshall-marshall}
use secure_dialogues.MessageContainer.{add_message, message_of}
use secure_dialogues.MessageContainer.Valid.{IsValid}
use secure_dialogues.MessageContainer.Views.{dialog_messages, shown, dialog_messages-add_message}
use secure_dialogues.Core.{
  Environment, World, Contact, MessageHandler, dialog_action_handler, message_action_handler,
}
use secure_dialogues.Core.Despatcher.{send_ack}
use secure_dialogues.Core.Dispatch.{
  is_it_you_action, returned, dispatch, dispatch_body, is_signature_valid, handle_each,
}
use secure_dialogues.Core.DialogRequests
use secure_dialogues.Core.TextMessages
use secure_dialogues.Core.Rejected.{ack_only}
use secure_dialogues.Core.Texts.{handle-fresh}
use secure_dialogues.Core.Sent.{text_message}
use secure_dialogues.Core.Cycle.{cycle_turn, dispatch_all}

is_text_lem :
    (a : Action)
    → a ≡ message
    → (action_eq a ack ≡ false)
      × (is_it_you_action dialog_action_handler a ≡ false)
      × (is_it_you_action message_action_handler a ≡ true)
unfolding DialogRequests.is_it_you_action TextMessages.is_it_you_action
is_text_lem a e = rw e (refl, refl, refl)

module _ ⦃env : Environment⦄ where
  handle_each-text :
      (m : DialogMessage) (channel : Text) (hs : List MessageHandler) (w v : World env)
      → m.action ≡ message
      → hs ≡ message_action_handler ∷ dialog_action_handler ∷ []
      → TextMessages.handle m channel w ≡ (ok tt, v)
      → handle_each hs m channel w ≡ (ok tt, v)
  unfolding handle_each
  handle_each-text m channel hs w v is_text both handled =
      let (not_ack, not_request, its_text) = is_text_lem m.action is_text in
      rw both (rw (its_text, not_request) (rw handled refl))

  dispatch-text :
      (m : DialogMessage) (channel : Text) (d : Dialog) (content : Text) (w v : World env)
      → m.action ≡ message
      → send_ack m channel w ≡ (ok tt, v)
      → env.is_signature_ok m w.crypto ≡ ok true
      → ltb_ℤ (pos max_timestamp_diff) (w.timestamp -ℤ m.timestamp) ≡ false
      → w.handlers ≡ message_action_handler ∷ dialog_action_handler ∷ []
      → env.has_dialog m.dialog_id w.dialogs ≡ true
      → env.get_dialog m.dialog_id w.dialogs ≡ ok d
      → ltb d.peer_sequental m.sequential ≡ true
      → env.decrypt_message_body m.dialog_id m.content w.crypto ≡ ok content
      → dispatch m channel w
        ≡ returned tt (record w {
          network = v.network;
          event_queue = v.event_queue;
          container = add_message m.dialog_id content true w.container;
        })
  unfolding dispatch dispatch_body is_signature_valid
  dispatch-text m channel d content w v is_text sent right fresh both has gets next decrypts =
      let u : World env = record w { network = v.network; event_queue = v.event_queue } in
      let acked : send_ack m channel w ≡ (ok tt, u) =
        subst {A = World env} (λ x. send_ack m channel w ≡ (ok tt, x)) (ack_only m channel w v sent)
          sent in
      let each =
        handle_each-text m channel w.handlers u
          (record u { container = add_message m.dialog_id content true w.container }) is_text both
          (handle-fresh m channel d content u has gets next decrypts) in
      rw ((is_text_lem m.action is_text).0, dispatch)
        (rw acked (rw right (rw fresh (rw each refl))))

  -- One turn of a connected channel that receives, from an address, the text that `sendMessage` of
  -- the sender hands to its adapter, while the despatcher is there and the ACK can be sent; the
  -- receiver's handlers are those that the core adds, the signature check passes, the message is not
  -- too old, its dialog is there, its number is above the last one saved, and it can be decrypted. Then
  -- the turn ends connected, and in a valid container the dialog shows the text last, as received.
  pub cycle_turn-text_message :
      (sent d : Dialog) (contact : Contact) (body s address name content : Text) (sent_at : ℤ)
      (w v : World env) (n : env.Network)
      → let m = set_signature (text_message sent contact body sent_at) s in
        let r = record m { adress = address } in
        IsSendable m
        → trim body ≡ body
        → IsValid w.container
        → env.adapter_receive name w.network ≡ (ok ((address, marshall m) ∷ []), n)
        → w.despatcher_alive ≡ true
        → send_ack r name (record w { network = n }) ≡ (ok tt, v)
        → env.is_signature_ok r w.crypto ≡ ok true
        → ltb_ℤ (pos max_timestamp_diff) (w.timestamp -ℤ sent_at) ≡ false
        → w.handlers ≡ message_action_handler ∷ dialog_action_handler ∷ []
        → env.has_dialog sent.dialog_id w.dialogs ≡ true
        → env.get_dialog sent.dialog_id w.dialogs ≡ ok d
        → ltb d.peer_sequental (make_next_sequental sent).1 ≡ true
        → env.decrypt_message_body sent.dialog_id body w.crypto ≡ ok content
        → (end : World env) × (cycle_turn name false w ≡ returned false end)
          × (dialog_messages sent.dialog_id end.container
              ≡ some (
                  shown (dialog_messages sent.dialog_id w.container)
                  ++ some (message_of content true) ∷ []))
  unfolding cycle_turn dispatch_all
  cycle_turn-text_message sent d contact body s address name content sent_at w v n sendable trimmed
        valid receives alive acks right fresh both has gets next decrypts =
      let m = set_signature (text_message sent contact body sent_at) s in
      let r = record m { adress = address } in
      let parsed = unmarshall-marshall w.junk m address sendable trimmed in
      let done =
        dispatch-text r name d content (record w { network = n }) v refl acks right fresh both has
          gets next decrypts in
      let end : World env = record w {
        network = v.network;
        event_queue = v.event_queue;
        container = add_message sent.dialog_id content true w.container;
      } in
      let all : dispatch_all ((address, marshall m) ∷ []) name (record w { network = n })
          ≡ returned tt end =
        rw (parsed, dispatch_all) (rw done refl) in
      (
        end,
        rw (receives, cycle_turn) (rw all (rw alive refl)),
        (dialog_messages-add_message sent.dialog_id sent.dialog_id content true w.container valid).0
            ∙ rw (text_eq_refl sent.dialog_id) refl,
      )
