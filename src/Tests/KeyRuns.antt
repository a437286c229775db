-- ===== src/Tests/KeyRuns.antt =====
-- Runs of the serialization of keys, with texts as ciphers and with encryption that changes nothing.
use secure_dialogues.Common.{◌≡◌, refl, some, [], ◌∷◌, ◌++◌, Text, codes, arith}
use secure_dialogues.Decimal.{show_nat}
use secure_dialogues.Keys.{
  AesKeyStruct, key_text, deserialize, generate_symmetrical_cipher_to,
  create_symmetrical_cipher_from,
}
use secure_dialogues.Keys.RoundTrip.{create_symmetrical_cipher_from-generate, deserialize_cut}

abbrev drawn : AesKeyStruct
drawn = record { key = codes "key"; iv = codes "iv" }

create_symmetrical_cipher_from-generate_example :
    (cipher : Text × Text) × (generate_symmetrical_cipher_to (λ k iv. (k, iv)) some drawn
      ≡ some (codes "3:key2:iv", cipher))
    × (create_symmetrical_cipher_from (λ k iv. (k, iv)) some (codes "3:key2:iv") ≡ some cipher)
unfolding key_text show_nat
create_symmetrical_cipher_from-generate_example =
    create_symmetrical_cipher_from-generate (λ k iv. (k, iv)) some some drawn (codes "3:key2:iv")
      (omega arith, omega arith) (omega arith, omega arith) refl refl

deserialize_cut_example :
    deserialize some (codes "3:key4:iv")
    ≡ some (record { key = codes "key"; iv = codes "iv" ++ 0 ∷ 0 ∷ [] })
unfolding show_nat
deserialize_cut_example =
    deserialize_cut some (codes "key") (codes "iv") (codes "ab") (codes "3:key4:iv")
      (omega arith, omega arith) (omega arith, omega arith) refl
