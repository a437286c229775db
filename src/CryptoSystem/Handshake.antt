-- ===== src/CryptoSystem/Handshake.antt =====
-- The agreement of two peers on the key of a dialog: VERIFY_KEY, KEY_VERIFICATION, ACCEPT_DIALOG.
use secure_dialogues.Common.{
  ℕ, ◌≡◌, refl, ap, ◌∙◌, true, false, none, some, List, [], ◌∷◌, ◌++◌, ◌==◌, Text, text_eq_refl,
  All,
}
use secure_dialogues.Common.Maps.{find, emplace, find-emplace, text_key}
use secure_dialogues.Common.Result.{ok, state_after}
use secure_dialogues.CryptoSystem.{
  Primitives, CryptoSystem, DialogElement, find_remote, get_remote_by_adress,
  generate_and_export_key, import_key, check_verification_string, split_comma_from, import_parts,
}

split_comma_lem :
    (whole key rest : Text)
    → All (λ x. (x == b',') ≡ false) key
    → split_comma_from whole (key ++ b',' ∷ rest) ≡ (key, rest)
split_comma_lem whole [] rest h = refl
split_comma_lem whole (x ∷ xs) rest (ne, h) = rw (ne, split_comma_lem whole xs rest h)

module _ ⦃prim : Primitives⦄ where
  abbrev pub dialog_element : prim.Cipher → Text → DialogElement prim
  dialog_element cipher mine = record { cipher = cipher; my_string = mine }

  find-emplaced :
      (id : Text) (e : DialogElement prim) (m : List (Text × DialogElement prim))
      → find id m ≡ none
      → find id (emplace id e m) ≡ some e
  find-emplaced id e m free = rw (find-emplace id id e m, (text_key.eq_iff id id).1 refl, free) refl

  generate_lem :
      (id addres key check : Text) (block draw pad : ℕ) (peer : prim.PublicKey)
      (cipher : prim.Cipher) (a : CryptoSystem prim)
      → find_remote addres a.remote ≡ ok peer
      → prim.generate_symmetrical_cipher_to peer draw ≡ ok (cipher, key)
      → prim.remote_encrypt peer pad (prim.random_hex block) ≡ ok check
      → generate_and_export_key id addres block draw pad a ≡ (
        ok (key ++ b',' ∷ check),
        record a { ciphers = emplace id (dialog_element cipher (prim.random_hex block)) a.ciphers },
      )
  unfolding generate_and_export_key get_remote_by_adress
  generate_lem id addres key check block draw pad peer cipher a known made encrypts =
      rw (known, generate_and_export_key) (rw made (rw encrypts refl))

  import_lem :
      (id key check proof hex : Text) (draw : ℕ) (cipher : prim.Cipher) (b : CryptoSystem prim)
      → find id b.ciphers ≡ none
      → All (λ x. (x == b',') ≡ false) key
      → prim.create_symmetrical_cipher_from b.local key ≡ ok cipher
      → prim.local_decrypt b.local check ≡ ok hex
      → prim.cipher_encrypt cipher draw hex ≡ ok proof
      → import_key id (key ++ b',' ∷ check) draw b
        ≡ (ok proof, record b { ciphers = emplace id (dialog_element cipher []) b.ciphers })
  unfolding import_key
  import_lem id key check proof hex draw cipher b free plain made decrypts proves =
      ap (λ (p : Text × Text). import_parts id draw p b)
        (split_comma_lem (key ++ b',' ∷ check) key check plain)
      ∙ rw (made, import_parts)
          (rw decrypts
            (rw (find-emplaced id (dialog_element cipher []) b.ciphers free) (rw proves refl)))

  -- Neither side has a key for the dialog, the first side knows the peer's public key, and the key
  -- that it makes has no comma in its text; the peer restores a cipher from that key and decrypts the
  -- check, and what the peer's cipher encrypts the first side's cipher decrypts. Then the peer answers
  -- to the exported key with a proof that the first side accepts.
  pub import_key-generate_and_export_key :
      (id addres key check proof : Text) (block draw pad next : ℕ) (peer : prim.PublicKey)
      (cipher copy : prim.Cipher) (a b : CryptoSystem prim)
      → find id a.ciphers ≡ none
      → find id b.ciphers ≡ none
      → find_remote addres a.remote ≡ ok peer
      → prim.generate_symmetrical_cipher_to peer draw ≡ ok (cipher, key)
      → All (λ x. (x == b',') ≡ false) key
      → prim.remote_encrypt peer pad (prim.random_hex block) ≡ ok check
      → prim.create_symmetrical_cipher_from b.local key ≡ ok copy
      → prim.local_decrypt b.local check ≡ ok (prim.random_hex block)
      → prim.cipher_encrypt copy next (prim.random_hex block) ≡ ok proof
      → prim.cipher_decrypt cipher proof ≡ ok (prim.random_hex block)
      → let exported = generate_and_export_key id addres block draw pad a in
        (exported.0 ≡ ok (key ++ b',' ∷ check))
        × (((import_key id (key ++ b',' ∷ check) next b).0 ≡ ok proof)
            × ((check_verification_string id proof (state_after exported)).0 ≡ ok true))
  unfolding check_verification_string
  import_key-generate_and_export_key id addres key check proof block draw pad next peer cipher copy
        a b free_a free_b known made plain encrypts restores decrypts proves accepts =
      let mine = dialog_element cipher (prim.random_hex block) in
      rw (generate_lem id addres key check block draw pad peer cipher a known made encrypts) (
        refl,
        (
          rw
              (import_lem id key check proof (prim.random_hex block) next copy b free_b plain
                restores decrypts proves)
              refl,
          rw (find-emplaced id mine a.ciphers free_a)
              (rw accepts (rw (text_eq_refl (prim.random_hex block)) refl)),
        ),
      )
