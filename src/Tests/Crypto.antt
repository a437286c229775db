-- ===== src/Tests/Crypto.antt =====
-- Runs of messages/src/crypto/cryptosystemimpl.cpp with small primitives: a signature is one fixed
-- text, and a cipher or a key encrypts by putting its number in front.
use secure_dialogues.Common.{
  ◌≡◌, refl, sym, ap, Bool, true, some, none, [], ◌∷◌, ◌++◌, Text, ℕ, codes, text_eq, drop,
}
use secure_dialogues.Common.Maps.{find, text_key}
use secure_dialogues.Common.Result.{Result, ok, throw, state_after}
use secure_dialogues.DialogMessage.{DialogMessage, set_signature}
use secure_dialogues.Marshaller.{marshall, unmarshall}
use secure_dialogues.CryptoSystem.{
  Primitives, CryptoSystem, create_signature, is_signature_ok, find_remote, generate_and_export_key,
  import_key, check_verification_string,
}
use secure_dialogues.CryptoSystem.Signatures.{is_signature_ok-create_signature}
use secure_dialogues.CryptoSystem.Handshake.{import_key-generate_and_export_key}
use secure_dialogues.Tests.Marshalling.{
  greeting, signature, greeting-IsSendable, greeting_trimmed, junk,
}

instance abbrev pub tiny : Primitives
tiny = record {
  PublicKey = ℕ;
  PrivateKey = ℕ;
  Cipher = ℕ;
  remote_encrypt = λ key draw text. ok (key ∷ text);
  is_valid = λ key text sign. ok (text_eq sign signature);
  local_decrypt = λ key text. ok (drop 1 text);
  create_sign = λ key draw text. ok signature;
  cipher_encrypt = λ key draw text. ok (key ∷ text);
  cipher_decrypt = λ key text. ok (drop 1 text);
  generate_symmetrical_cipher_to = λ key draw. ok (5, codes "5");
  create_symmetrical_cipher_from = λ key text. ok 5;
  random_hex = λ draw. codes "A0";
  serialize = λ key. ok (codes "k");
  deserialize = λ text. ok 2;
  generate_keys = λ draw. ok none;
}

-- A side that knows one peer.
abbrev side : Text → CryptoSystem tiny
side address = record {
  public_key = 2;
  local = 3;
  remote = (codes "c", record { addres = address; operation = 2 }) ∷ [];
  ciphers = [];
}

abbrev checked : Result Text → Result Bool
checked (ok s) = ok (text_eq s signature)
checked (throw e) = throw e

is_signature_ok-create_signature_example :
    (r : DialogMessage) × (unmarshall junk
        (marshall (set_signature greeting signature))
        (codes "eve")
      ≡ some r)
    × (is_signature_ok r (side (codes "eve")) ≡ (ok true, side (codes "eve")))
unfolding create_signature find_remote text_eq
is_signature_ok-create_signature_example =
    is_signature_ok-create_signature junk greeting signature (codes "eve") 0 2 (side (codes "bob"))
      (side (codes "eve")) refl greeting_trimmed refl greeting-IsSendable refl
      (λ draw t s e. sym (ap checked e))

import_key-generate_and_export_key_example :
    let exported = generate_and_export_key (codes "d") (codes "bob") 0 0 0 (side (codes "bob")) in
    (exported.0 ≡ ok (codes "5" ++ b',' ∷ (2 ∷ codes "A0")))
    × (((import_key (codes "d") (codes "5" ++ b',' ∷ (2 ∷ codes "A0")) 0 (side (codes "eve"))).0
          ≡ ok (5 ∷ codes "A0"))
        × ((check_verification_string (codes "d") (5 ∷ codes "A0") (state_after exported)).0
            ≡ ok true))
unfolding find_remote find text_eq
import_key-generate_and_export_key_example =
    import_key-generate_and_export_key (codes "d") (codes "bob") (codes "5") (2 ∷ codes "A0")
      (5 ∷ codes "A0") 0 0 0 0 2 5 5 (side (codes "bob")) (side (codes "eve")) refl refl refl refl
      (refl, tt) refl refl refl refl refl
