-- ===== src/CryptoSystem/Signatures.antt =====
-- The signature of a message, from the sender's key to the receiver's check.
use secure_dialogues.Common.{◌≡◌, refl, ap, true, some, [], Text, ℕ, subst}
use secure_dialogues.Common.Result.{ok}
use secure_dialogues.DialogMessage.{DialogMessage, set_signature}
use secure_dialogues.Marshaller.{Junk, marshall, marshall_except_signature, unmarshall, trim}
use secure_dialogues.Marshaller.RoundTrip.{IsSendable, unmarshall-marshall}
use secure_dialogues.Marshaller.Signing.{marshall-except_signature}
use secure_dialogues.CryptoSystem.{
  Primitives, CryptoSystem, find_remote, get_remote_by_adress, is_signature_ok, create_signature,
}

module _ ⦃prim : Primitives⦄ where
  -- A message without a signature and without white space at its end is signed by one side, and is
  -- sendable with that signature; the other side knows the sender's address, under which it keeps a
  -- public key that finds every signature by the sender's private key right. Then the other side reads
  -- the message from its text, with the address it came from, and finds its signature right.
  pub is_signature_ok-create_signature :
      (junk : Junk) (m : DialogMessage) (s address : Text) (draw : ℕ) (key : prim.PublicKey)
      (a b : CryptoSystem prim)
      → m.sign ≡ []
      → trim m.content ≡ m.content
      → create_signature m draw a ≡ (ok s, a)
      → IsSendable (set_signature m s)
      → find_remote address b.remote ≡ ok key
      → ((draw : ℕ) (t s : Text)
          → prim.create_sign a.local draw t ≡ ok s
          → prim.is_valid key t s ≡ ok true)
      → (r : DialogMessage) × (unmarshall junk (marshall (set_signature m s)) address ≡ some r)
        × (is_signature_ok r b ≡ (ok true, b))
  unfolding create_signature is_signature_ok get_remote_by_adress marshall_except_signature
  is_signature_ok-create_signature junk m s address draw key a b unsigned trimmed signs sendable
        known verifies =
      let right : prim.is_valid key (marshall m) s ≡ ok true =
        verifies draw (marshall m) s (ap (λ p. p.0) signs) in
      let same : prim.is_valid key (marshall_except_signature m) s ≡ ok true =
        subst (λ t. prim.is_valid key t s ≡ ok true) ((marshall-except_signature m).1 unsigned)
          right in
      (
        record m { sign = s; adress = address },
        unmarshall-marshall junk (set_signature m s) address sendable trimmed,
        rw (known, is_signature_ok) (rw same refl),
      )
