-- ===== src/Keys.antt =====
-- encryption/src/serialization/serializations.cpp (with aeskeyserializator.cpp and
-- aeskeydeserializator.cpp, which have the same code), encryption/src/symetrical/symetricalsystemfactories.cpp,
-- encryption/src/serialization/fileasynckeyserializer.cpp and
-- encryption/src/asymetrical/asymetricalkeystore.cpp. The ciphers and the encodings of CryptoPP are
-- parameters, and the file system is a map from names to texts. `none` is a thrown exception.
use secure_dialogues.Common.{
  ℕ, zero, suc, ◌-◌, ◌==◌, Bool, true, false, Option, none, some, List, [], ◌∷◌, ◌++◌, Text, codes,
  ltb, length, take, drop, if◌then◌else◌,
}
use secure_dialogues.Common.Int.{ℤ, pos, negsuc}
use secure_dialogues.Common.Maps.{find, insert, text_key}
use secure_dialogues.Common.Options.{◌>>=◌}
use secure_dialogues.Decimal.{stol, show_nat}
pub mod RoundTrip
pub mod Files

pub record AesKeyStruct : Type 0 where
  pub key : Text
  pub iv : Text

-- `std::numeric_limits<int>::max()`.
abbrev pub int_max : ℕ
int_max = 2147483647

-- `std::stoi`, which throws for a number out of the range of `int`, where the size is tested to be
-- positive.
abbrev pub positive_int : ℤ → Option ℕ
positive_int (pos n) = if n == 0 then none else if ltb int_max n then none else some n
positive_int (negsuc n) = none

-- `std::getline(ss, size, ':')`: the text up to the colon, and what follows it.
unfoldable pub until_colon : Text → Text × Text
until_colon [] = ([], [])
until_colon (c ∷ s) =
    let (line, rest) = until_colon s in if c == b':' then ([], s) else (c ∷ line, rest)

abbrev pub zeros : ℕ → Text
zeros zero = []
zeros (suc n) = 0 ∷ zeros n

-- `ss.read` into a field of zeros: what the stream does not have stays zero.
abbrev pub read_field : ℕ → Text → Text
read_field n s = take n s ++ zeros (n - length s)

unfoldable pub read_block : Text → Option (Text × Text)
unfolding until_colon
read_block s =
    let (size, rest) = until_colon s in
    stol size >>= positive_int >>= (λ n. some (read_field n rest, drop n rest))

abbrev pub two_blocks : Text → Option AesKeyStruct
two_blocks s =
    read_block s
    >>= (λ (key, rest). read_block rest >>= (λ (iv, others). some (record { key = key; iv = iv })))

-- `ss << key.size() << ":" << key << iv.size() << ":" << iv`.
unfoldable pub key_text : AesKeyStruct → Text
key_text k = show_nat (length k.key) ++ b':' ∷ (k.key ++ (show_nat (length k.iv) ++ b':' ∷ k.iv))

unfoldable pub serialize : (Text → Option Text) → AesKeyStruct → Option Text
unfolding key_text
serialize encrypt k = encrypt (key_text k)

unfoldable pub deserialize : (Text → Option Text) → Text → Option AesKeyStruct
unfolding read_block
deserialize decrypt message = decrypt message >>= two_blocks

-- A cipher is made of its key: `AesCipher`.
module _ {Cipher : Type 0} (aes_cipher : Text → Text → Cipher) where
  -- `generateSymmetricalCipherTo`, with the key that the generator draws: the message and the cipher.
  unfoldable pub generate_symmetrical_cipher_to :
      (Text → Option Text) → AesKeyStruct → Option (Text × Cipher)
  unfolding serialize
  generate_symmetrical_cipher_to encrypt drawn =
      serialize encrypt drawn >>= (λ message. some (message, aes_cipher drawn.key drawn.iv))

  -- `createSymmetricalCipherFrom`.
  unfoldable pub create_symmetrical_cipher_from : (Text → Option Text) → Text → Option Cipher
  unfolding deserialize
  create_symmetrical_cipher_from decrypt message =
      deserialize decrypt message >>= (λ k. some (aes_cipher k.key k.iv))

-- `AsymetricalKeyStore`.
pub record AsymetricalKeyStore (Public Private : Type 0) : Type 0 where
  pub public_key : Option Public
  pub private_key : Option Private

abbrev pub set_keys :
    {Public Private : Type 0}
    → Public
    → Private
    → AsymetricalKeyStore Public Private
    → AsymetricalKeyStore Public Private
set_keys pub_key priv_key store = record { public_key = some pub_key; private_key = some priv_key }

abbrev pub file_name : Text → Text → Text
file_name template extension = template ++ b'.' ∷ extension

-- `KeyLoader::saveKey`: the text is what the cipher makes of the encoded key.
abbrev pub save_key :
    (Text → Option Text) → Text → Text → List (Text × Text) → Option (List (Text × Text))
save_key encrypt name encoded files = encrypt encoded >>= (λ text. some (insert name text files))

-- A file that is not there is read as an empty one.
abbrev pub file_content : Option Text → Text
file_content none = []
file_content (some text) = text

abbrev pub load_key :
    {Key : Type 0}
    → (Text → Option Key)
    → (Text → Option Text)
    → Text
    → List (Text × Text)
    → Option Key
load_key decode decrypt name files = decrypt (file_content (find name files)) >>= decode

-- The files of the two keys of a template, written in this order and read in the other.
unfoldable pub serialize_keys :
    {Public Private : Type 0}
    → (Public → Text)
    → (Private → Text)
    → (Text → Option Text)
    → Text
    → AsymetricalKeyStore Public Private
    → List (Text × Text)
    → Option (List (Text × Text))
serialize_keys encode_public encode_private encrypt template store files =
    store.public_key >>= (λ pub_key.
      save_key encrypt (file_name template (codes "PUB")) (encode_public pub_key) files
      >>= (λ saved. store.private_key >>= (λ priv_key.
          save_key encrypt (file_name template (codes "PRV")) (encode_private priv_key) saved)))

unfoldable pub deserialize_keys :
    {Public Private : Type 0}
    → (Text → Option Public)
    → (Text → Option Private)
    → (Text → Option Text)
    → Text
    → List (Text × Text)
    → AsymetricalKeyStore Public Private
    → Option (AsymetricalKeyStore Public Private)
deserialize_keys decode_public decode_private decrypt template files store =
    load_key decode_private decrypt (file_name template (codes "PRV")) files >>= (λ priv_key.
      load_key decode_public decrypt (file_name template (codes "PUB")) files
      >>= (λ pub_key. some (set_keys pub_key priv_key store)))
