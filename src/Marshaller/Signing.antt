-- ===== src/Marshaller/Signing.antt =====
-- The text that is signed (`marshall` of a message, in CryptoSystemImpl::createSignature) and the text
-- that is verified (`marshallExceptSignature`, in CryptoSystemImpl::isSignatureOk).
use secure_dialogues.Common.{
  ◌+◌, ◌≡◌, ◌≢◌, ◌↔◌, refl, sym, ap, ◌∙◌, some, [], ◌∷◌, ◌++◌, arith, Text, length, length-append,
}
use secure_dialogues.Common.Int.{ℤ}
use secure_dialogues.Decimal.{show_nat, show_int}
use secure_dialogues.DialogMessage.{DialogMessage, set_signature, make_ack}
use secure_dialogues.Marshaller.{
  field_action, field_dialog_id, field_version, field_sequental_number, field_sign, field_timestamp,
  header, version, body_delimiter, action_to_text, trim, write_field, marshall,
  marshall_except_signature, Junk, unmarshall,
}
use secure_dialogues.Marshaller.RoundTrip.{IsSendable, unmarshall-marshall}

length-write_field :
    (key value rest : Text)
    → length (write_field key value rest) ≡ length key + length value + length rest + 2
length-write_field key value rest =
    omega (arith, length-append key (b':' ∷ (value ++ 10 ∷ rest)), length-append value (10 ∷ rest))

length_nil : (s : Text) → length s ≡ 0 → s ≡ []
length_nil [] h = refl
length_nil (c ∷ s) h = absurd (omega arith)

-- What stands before the signature field.
before_sign : DialogMessage → Text → Text
before_sign m rest =
    header
    ++ 10
      ∷ write_field field_version version (
          write_field field_action (action_to_text m.action) (
            write_field field_sequental_number (show_nat m.sequential) (
              write_field field_dialog_id m.dialog_id
                (write_field field_timestamp (show_int m.timestamp) rest))))

length-before_sign :
    (m : DialogMessage) (rest : Text)
    → length (before_sign m rest) ≡ length (before_sign m []) + length rest
unfolding before_sign
length-before_sign m rest = omega (arith, length-append {0}, length-write_field)

sign_nil :
    (m : DialogMessage) (tail : Text)
    → before_sign m (write_field field_sign m.sign tail)
      ≡ before_sign m (field_sign ++ b':' ∷ 10 ∷ tail)
    → m.sign ≡ []
sign_nil m tail e = length_nil m.sign (
    omega (
      arith,
      ap length e,
      length-before_sign m (write_field field_sign m.sign tail),
      length-before_sign m (field_sign ++ b':' ∷ 10 ∷ tail),
      length-write_field field_sign m.sign tail,
      length-append field_sign (b':' ∷ 10 ∷ tail),
    ))

-- The text that is signed is the text that is verified exactly if the message had no signature yet
-- when it was signed.
pub marshall-except_signature :
    (m : DialogMessage) → (marshall m ≡ marshall_except_signature m) ↔ (m.sign ≡ [])
unfolding marshall marshall_except_signature before_sign
marshall-except_signature m = (
  λ e. sign_nil m (body_delimiter ++ 10 ∷ trim m.content) e,
  λ e.
      ap (λ (s : Text). marshall (record m { sign = s })) e
      ∙ sym (ap (λ (s : Text). marshall_except_signature (record m { sign = s })) e),
)

-- The signature of an acknowledgement is made over another text than the one that would be verified,
-- since `make_ack` fills the signature with a space before it is signed.
pub marshall-make_ack_ne :
    (mess : DialogMessage) (now : ℤ)
    → marshall (make_ack mess now) ≢ marshall_except_signature (make_ack mess now)
unfolding make_ack
marshall-make_ack_ne mess now e =
    ground (arith, (marshall-except_signature (make_ack mess now)).0 e)

-- A message that is sent unsigned and signed on its way is verified by the receiver over the very
-- text that the sender signed: for every message without a signature and without white space at its
-- end, and every signature with which it is sendable, the receiver reads a message whose text for the
-- verification is the text that the sender signed, and whose signature is the sender's.
pub verified_text :
    (junk : Junk) (m : DialogMessage) (signature address : Text)
    → m.sign ≡ []
    → trim m.content ≡ m.content
    → IsSendable (set_signature m signature)
    → (r : DialogMessage) × (unmarshall junk (marshall (set_signature m signature)) address
        ≡ some r)
      × (marshall_except_signature r ≡ marshall m)
      × (r.sign ≡ signature)
unfolding marshall_except_signature
verified_text junk m signature address e t s = (
  record m { sign = signature; adress = address },
  unmarshall-marshall junk (set_signature m signature) address s t,
  sym ((marshall-except_signature m).1 e),
  refl,
)
