-- ===== src/Keys/Files.antt =====
-- The key files.
use secure_dialogues.Common.{
  ◌≡◌, refl, false, Option, some, List, Text, codes, text_eq, text_eq_refl, arith, [], ◌∷◌,
}
use secure_dialogues.Common.Maps.{insert, find-insert, text_key}
use secure_dialogues.Common.Options.{◌>>=◌}
use secure_dialogues.Keys.{AsymetricalKeyStore, serialize_keys, deserialize_keys, file_name}

names_differ :
    (template : Text)
    → text_eq (file_name template (codes "PRV")) (file_name template (codes "PUB")) ≡ false
unfolding text_eq
names_differ [] = refl
names_differ (c ∷ template) = ground (arith, names_differ template)

module _ {Public Private : Type 0} (encode_public : Public → Text) (encode_private : Private → Text)
    (decode_public : Text → Option Public) (decode_private : Text → Option Private)
    (encrypt decrypt : Text → Option Text) where
  -- The two keys, whose encodings are decoded as they were and are encrypted to texts that the cipher
  -- decrypts to them, are written to files with different names. Then they are read back as they
  -- were, whatever the files held before and the store holds now.
  pub deserialize_keys-serialize_keys :
      (template pub_text priv_text : Text) (pub_key : Public) (priv_key : Private)
      (files : List (Text × Text)) (store : AsymetricalKeyStore Public Private)
      → encrypt (encode_public pub_key) ≡ some pub_text
      → encrypt (encode_private priv_key) ≡ some priv_text
      → decrypt pub_text ≡ some (encode_public pub_key)
      → decrypt priv_text ≡ some (encode_private priv_key)
      → decode_public (encode_public pub_key) ≡ some pub_key
      → decode_private (encode_private priv_key) ≡ some priv_key
      → (serialize_keys encode_public encode_private encrypt template
            (record { public_key = some pub_key; private_key = some priv_key })
            files
          >>= (λ saved. deserialize_keys decode_public decode_private decrypt template saved store))
        ≡ some (record { public_key = some pub_key; private_key = some priv_key })
  unfolding serialize_keys deserialize_keys
  deserialize_keys-serialize_keys template pub_text priv_text pub_key priv_key files store pub_sent
        priv_sent pub_got priv_got pub_same priv_same =
      let prv = file_name template (codes "PRV") in
      let public_saved = insert (file_name template (codes "PUB")) pub_text files in
      rw (pub_sent, priv_sent)
        (rw (find-insert prv prv priv_text public_saved, text_eq_refl prv, priv_got)
          (rw
            (
              priv_same,
              find-insert prv (file_name template (codes "PUB")) priv_text public_saved,
              names_differ template,
            )
            (rw
              (
                find-insert (file_name template (codes "PUB")) (file_name template (codes "PUB"))
                    pub_text files,
                text_eq_refl (file_name template (codes "PUB")),
                pub_got,
              )
              (rw pub_same refl))))
