-- ===== src/Core/Discovered.antt =====
-- A contact that makes itself known.
use secure_dialogues.Common.{◌≡◌, refl, ap, true, false, Text, ℕ, All}
use secure_dialogues.Common.Int.{ℤ}
use secure_dialogues.Common.Result.{ok, throw, range_error}
use secure_dialogues.DialogMessage.{DialogMessage, ack, contact_discover, action_eq}
use secure_dialogues.Discovery.{get_name_and_public_key, discover_message}
use secure_dialogues.Discovery.Bodies.{IsPlain, get_name_and_public_key-discover_message}
use secure_dialogues.Core.{Environment, World, make_discovered_contact}
use secure_dialogues.Core.Despatcher.{send_ack}
use secure_dialogues.Core.Dispatch.{
  returned, dispatch, dispatch_body, is_signature_valid, sink_error,
}
use secure_dialogues.Core.Rejected.{ack_only}

module _ ⦃env : Environment⦄ where
  -- A discovery from an address that is no contact's, with the body that the sender makes for a name
  -- without dash and line end, while the ACK for it could be sent: `dispatch` returns, and the storage
  -- of discovered contacts is given the sender's name and key with the time, the channel, the address and the
  -- dialog id of the message; else only the ACK changed the world. The signature was not checked.
  pub dispatch-discover_message :
      (m : DialogMessage) (name key uiid address channel : Text) (number : ℕ) (sent_at : ℤ)
      (w v : World env) (ds : env.Discovered)
      → All IsPlain name
      → action_eq m.action ack ≡ false
      → action_eq m.action contact_discover ≡ true
      → m.content ≡ (discover_message name key uiid number address sent_at).content
      → send_ack m channel w ≡ (ok tt, v)
      → env.is_signature_ok m w.crypto ≡ throw range_error
      → env.add_discovered
          (make_discovered_contact v.clock channel m.adress key name m.dialog_id)
          w.discovered
        ≡ (ok tt, ds)
      → dispatch m channel w ≡ returned tt (record v { discovered = ds })
  unfolding dispatch dispatch_body is_signature_valid sink_error
  dispatch-discover_message m name key uiid address channel number sent_at w v ds plain not_ack
        discovers body sent unknown added =
      let only = ack_only m channel w v sent in
      let parts =
        get_name_and_public_key-discover_message name key uiid address number sent_at plain in
      let read : get_name_and_public_key m.content ≡ ok (name, key) = rw body parts in
      let refused : is_signature_valid m channel v ≡ (ok false, record v { discovered = ds }) =
        rw (ap World.crypto only, unknown, is_signature_valid)
          (rw discovers (rw read (rw (ap World.discovered only) (rw added refl)))) in
      rw (not_ack, dispatch) (rw sent (rw refused refl))
