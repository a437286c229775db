-- ===== src/CryptoSystem.antt =====
-- messages/src/crypto/cryptosystemimpl.cpp: the keys of the peers and of the dialogs. The operations
-- over CryptoPP (encryption/src) are parameters; what they draw from the random source is an argument.
-- A call holds the lock of the system, so it is one step.
use secure_dialogues.Common.{
  ℕ, Bool, true, false, Option, none, some, List, [], ◌∷◌, ◌++◌, ◌==◌, Text, text_eq, codes,
  if◌then◌else◌,
}
use secure_dialogues.Common.Maps.{find, insert, emplace, erase, text_key}
use secure_dialogues.Common.Result.{
  Result, Exception, Prog, ok, throw, ◌>>=◌, ◌>>◌, return, raise, range_error, out_of_range,
  runtime_error,
}
use secure_dialogues.DialogMessage.{DialogMessage}
use secure_dialogues.Marshaller.{marshall, marshall_except_signature}
pub mod Signatures
pub mod Handshake

pub record Primitives : Type 1 where
  pub PublicKey : Type 0
  pub PrivateKey : Type 0
  pub Cipher : Type 0
  -- `RemotePeerOperations`.
  pub remote_encrypt : PublicKey → ℕ → Text → Result Text
  pub is_valid : PublicKey → Text → Text → Result Bool
  -- `LocalPeerOperations`.
  pub local_decrypt : PrivateKey → Text → Result Text
  pub create_sign : PrivateKey → ℕ → Text → Result Text
  -- `SymetricalCipher`.
  pub cipher_encrypt : Cipher → ℕ → Text → Result Text
  pub cipher_decrypt : Cipher → Text → Result Text
  -- `generateSymmetricalCipherTo`, with the text of the key for the peer, and its inverse.
  pub generate_symmetrical_cipher_to : PublicKey → ℕ → Result (Cipher × Text)
  pub create_symmetrical_cipher_from : PrivateKey → Text → Result Cipher
  -- The hexadecimal text of a block of 100 random bytes.
  pub random_hex : ℕ → Text
  pub serialize : PublicKey → Result Text
  pub deserialize : Text → Result PublicKey
  -- `AsymetricalKeyGenerator::generate`: none if there are no new keys.
  pub generate_keys : ℕ → Result (Option (PublicKey × PrivateKey))

pub record RemoteElement (prim : Primitives) : Type 0 where
  pub addres : Text
  pub operation : prim.PublicKey

pub record DialogElement (prim : Primitives) : Type 0 where
  pub cipher : prim.Cipher
  pub my_string : Text

-- The key store and the private key that `mLocal` works with.
pub record CryptoSystem (prim : Primitives) : Type 0 where
  pub public_key : prim.PublicKey
  pub local : prim.PrivateKey
  pub remote : List (Text × RemoteElement prim)
  pub ciphers : List (Text × DialogElement prim)

abbrev pub split_after : ℕ → Text × Text → Text × Text
split_after x (before, after) = (x ∷ before, after)

-- The text before the first comma and the text after it; without a comma both are the whole text.
abbrev pub split_comma_from : Text → Text → Text × Text
split_comma_from whole [] = ([], whole)
split_comma_from whole (x ∷ xs) =
    if x == b',' then ([], xs) else split_after x (split_comma_from whole xs)

abbrev pub split_comma : Text → Text × Text
split_comma s = split_comma_from s s

module _ ⦃prim : Primitives⦄ where
  -- A question that changes nothing.
  abbrev pub answers : {A : Type 0} → Result A → Prog (CryptoSystem prim) A
  answers r c = (r, c)

  -- The first peer in the order of the contact ids that has the address.
  unfoldable pub find_remote : Text → List (Text × RemoteElement prim) → Result prim.PublicKey
  find_remote adress [] = throw range_error
  find_remote adress ((id, e) ∷ rest) =
      if text_eq e.addres adress then ok e.operation else find_remote adress rest

  unfoldable pub get_remote_by_adress : Text → Prog (CryptoSystem prim) prim.PublicKey
  unfolding find_remote
  get_remote_by_adress adress c = (find_remote adress c.remote, c)

  unfoldable pub is_signature_ok : DialogMessage → Prog (CryptoSystem prim) Bool
  unfolding get_remote_by_adress
  is_signature_ok m =
      get_remote_by_adress m.adress
      >>= (λ key. answers (prim.is_valid key (marshall_except_signature m) m.sign))

  unfoldable pub create_signature : DialogMessage → ℕ → Prog (CryptoSystem prim) Text
  create_signature m draw c = (prim.create_sign c.local draw (marshall m), c)

  abbrev pub emplace_cipher : Text → prim.Cipher → Text → Prog (CryptoSystem prim) (Unit {0})
  emplace_cipher id cipher mine c =
      return tt
        (record c { ciphers = emplace id (record { cipher = cipher; my_string = mine }) c.ciphers })

  -- The draws are for the block, the key and the encryption.
  unfoldable pub generate_and_export_key : Text → Text → ℕ → ℕ → ℕ → Prog (CryptoSystem prim) Text
  unfolding get_remote_by_adress
  generate_and_export_key id addres block key pad = get_remote_by_adress addres >>= (λ peer.
      answers (prim.generate_symmetrical_cipher_to peer key) >>= (λ (cipher, body).
        emplace_cipher id cipher (prim.random_hex block)
        >> answers (prim.remote_encrypt peer pad (prim.random_hex block))
        >>= (λ check. return (body ++ b',' ∷ check))))

  abbrev pub encrypt_found :
      Exception → Option (DialogElement prim) → ℕ → Text → Prog (CryptoSystem prim) Text
  encrypt_found e none draw text = raise e
  encrypt_found e (some el) draw text = answers (prim.cipher_encrypt el.cipher draw text)

  abbrev pub import_parts : Text → ℕ → Text × Text → Prog (CryptoSystem prim) Text
  import_parts id draw (key, verification) c =
      (answers (prim.create_symmetrical_cipher_from c.local key)
          >>= (λ cipher. emplace_cipher id cipher [])
          >> answers (prim.local_decrypt c.local verification)
          >>= (λ decr v. encrypt_found out_of_range (find id v.ciphers) draw decr v))
        c

  unfoldable pub import_key : Text → Text → ℕ → Prog (CryptoSystem prim) Text
  import_key id message draw = import_parts id draw (split_comma message)

  abbrev pub check_found : Option (DialogElement prim) → Text → Prog (CryptoSystem prim) Bool
  check_found none message = return false
  check_found (some el) message =
      answers (prim.cipher_decrypt el.cipher message)
      >>= (λ decr. return (text_eq decr el.my_string))

  unfoldable pub check_verification_string : Text → Text → Prog (CryptoSystem prim) Bool
  check_verification_string id message c = check_found (find id c.ciphers) message c

  unfoldable pub encrypt_message_body : Text → Text → ℕ → Prog (CryptoSystem prim) Text
  encrypt_message_body id message draw c =
      encrypt_found runtime_error (find id c.ciphers) draw message c

  abbrev pub decrypt_found : Option (DialogElement prim) → Text → Prog (CryptoSystem prim) Text
  decrypt_found none message = raise runtime_error
  decrypt_found (some el) message = answers (prim.cipher_decrypt el.cipher message)

  unfoldable pub decrypt_message_body : Text → Text → Prog (CryptoSystem prim) Text
  decrypt_message_body id message c = decrypt_found (find id c.ciphers) message c

  unfoldable pub export_public_key : Prog (CryptoSystem prim) Text
  export_public_key c = (prim.serialize c.public_key, c)

  abbrev pub use_keys : Option (prim.PublicKey × prim.PrivateKey) → Prog (CryptoSystem prim) Bool
  use_keys none c = return false c
  use_keys (some (public, private)) c =
      return true (record c { public_key = public; local = private })

  unfoldable pub generate_asymetric_keys : ℕ → Prog (CryptoSystem prim) Bool
  generate_asymetric_keys draw = answers (prim.generate_keys draw) >>= use_keys

  -- The id, the address and the public key of a contact.
  unfoldable pub update_contact : Text → Text → Text → Prog (CryptoSystem prim) (Unit {0})
  update_contact id adress key = answers (prim.deserialize key) >>= (λ public c.
      return tt
        (record c { remote = insert id (record { addres = adress; operation = public }) c.remote }))

  unfoldable pub remove_contact : Text → CryptoSystem prim → CryptoSystem prim
  remove_contact id c = record c { remote = erase id c.remote }

  unfoldable pub dialog_removed : Text → CryptoSystem prim → CryptoSystem prim
  dialog_removed id c = record c { ciphers = erase id c.ciphers }
