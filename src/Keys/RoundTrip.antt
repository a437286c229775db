-- ===== src/Keys/RoundTrip.antt =====
-- A key of the symmetric cipher through its text.
use secure_dialogues.Common.{
  ℕ, suc, zero, ◌-◌, ◌≤◌, ◌≡◌, ◌==◌, refl, true, false, Option, some, [], ◌∷◌, ◌++◌, Text, ltb,
  length, take, drop, drop-append, length-append, arith, All, All-map,
}
use secure_dialogues.Common.Int.{pos}
use secure_dialogues.Decimal.{is_digit, stol, show_nat, show_int}
use secure_dialogues.Decimal.RoundTrip.{show_nat-IsDigit, stol-show_int}
use secure_dialogues.Keys.{
  AesKeyStruct, int_max, zeros, until_colon, read_field, read_block, two_blocks, key_text,
  serialize, deserialize, generate_symmetrical_cipher_to, create_symmetrical_cipher_from,
}

abbrev pub NoColon : Text → Type 0
NoColon s = All (λ c. (c == b':') ≡ false) s

until_colon-append : (s rest : Text) → NoColon s → until_colon (s ++ b':' ∷ rest) ≡ (s, rest)
unfolding until_colon
until_colon-append [] rest h = refl
until_colon-append (c ∷ s) rest (other, h) = rw (other, until_colon-append s rest h) refl

digit_no_colon : (c : ℕ) → is_digit c ≡ true → (c == b':') ≡ false
unfolding is_digit
digit_no_colon c h = ground (arith, h)

show_nat-NoColon : (n : ℕ) → NoColon (show_nat n)
show_nat-NoColon n =
    All-map (λ c. is_digit c ≡ true) (λ c. (c == b':') ≡ false) digit_no_colon (show_nat n)
      (show_nat-IsDigit n)

stol-show_nat : (n : ℕ) → n ≤ int_max → stol (show_nat n) ≡ some (pos n)
unfolding show_int
stol-show_nat n h = stol-show_int (pos n) (omega (arith, h))

-- The size of a block is not zero, and fits into an `int`.
abbrev pub IsBlockSize : ℕ → Type 0
IsBlockSize n = (1 ≤ n) × (n ≤ int_max)

read_block-append :
    (n : ℕ) (rest : Text)
    → IsBlockSize n
    → read_block (show_nat n ++ b':' ∷ rest) ≡ some (read_field n rest, drop n rest)
unfolding read_block
read_block-append n rest (low, high) =
    let positive : (n == 0) ≡ false = ground (arith, low) in
    let fits : ltb int_max n ≡ false = ground (arith, high) in
    rw (until_colon-append (show_nat n) rest (show_nat-NoColon n), read_block)
      (rw (stol-show_nat n high) (rw positive (rw fits refl)))

take-append : (s rest : Text) → take (length s) (s ++ rest) ≡ s
take-append [] rest = refl
take-append (c ∷ s) rest = rw (take-append s rest) refl

zeros_none : (s rest : Text) → zeros (length s - length (s ++ rest)) ≡ []
zeros_none s rest =
    let none_left : length s - length (s ++ rest) ≡ 0 = omega (arith, length-append s rest) in
    rw none_left refl

append_nil : (s : Text) → s ++ [] ≡ s
append_nil [] = refl
append_nil (c ∷ s) = rw (append_nil s) refl

-- A block is there as a whole.
read_block-whole :
    (s rest : Text)
    → IsBlockSize (length s)
    → read_block (show_nat (length s) ++ b':' ∷ (s ++ rest)) ≡ some (s, rest)
read_block-whole s rest fits =
    rw
      (
        read_block-append (length s) (s ++ rest) fits,
        take-append s rest,
        zeros_none s rest,
        append_nil s,
        drop-append s rest,
      )
      refl

take_all : (n : ℕ) (s : Text) → length s ≤ n → take n s ≡ s
take_all zero [] h = refl
take_all (suc n) [] h = refl
take_all (suc n) (c ∷ s) h = rw (take_all n s (omega (arith, h))) refl
take_all zero (c ∷ s) h = absurd (omega (arith, h))

-- What `two_blocks` reads of a text whose second block is cut.
two_blocks-cut :
    (key part : Text) (n : ℕ)
    → IsBlockSize (length key)
    → IsBlockSize n
    → length part ≤ n
    → two_blocks (show_nat (length key) ++ b':' ∷ (key ++ (show_nat n ++ b':' ∷ part)))
      ≡ some (record { key = key; iv = part ++ zeros (n - length part) })
two_blocks-cut key part n key_fits fits short =
    rw
      (
        read_block-whole key (show_nat n ++ b':' ∷ part) key_fits,
        read_block-append n part fits,
        take_all n part short,
      )
      refl

two_blocks-key_text :
    (k : AesKeyStruct)
    → IsBlockSize (length k.key)
    → IsBlockSize (length k.iv)
    → two_blocks (key_text k) ≡ some k
unfolding key_text
two_blocks-key_text k key_fits iv_fits =
    let whole : length k.iv - length k.iv ≡ 0 = omega arith in
    rw
      (
        two_blocks-cut k.key k.iv (length k.iv) key_fits iv_fits (omega arith),
        whole,
        append_nil k.iv,
      )
      refl

module _ {Cipher : Type 0} (aes_cipher : Text → Text → Cipher)
    (encrypt decrypt : Text → Option Text) where
  -- A key and an initial vector are drawn, neither of them empty nor longer than an `int` counts, and the
  -- peer's decryptor gives back what was encrypted for it. Then the message that goes with a new
  -- cipher makes the same cipher on the other side.
  pub create_symmetrical_cipher_from-generate :
      (drawn : AesKeyStruct) (message : Text)
      → IsBlockSize (length drawn.key)
      → IsBlockSize (length drawn.iv)
      → encrypt (key_text drawn) ≡ some message
      → decrypt message ≡ some (key_text drawn)
      → (cipher : Cipher) × (generate_symmetrical_cipher_to aes_cipher encrypt drawn
          ≡ some (message, cipher))
        × (create_symmetrical_cipher_from aes_cipher decrypt message ≡ some cipher)
  unfolding generate_symmetrical_cipher_to create_symmetrical_cipher_from serialize deserialize
  create_symmetrical_cipher_from-generate drawn message key_fits iv_fits sent got = (
    aes_cipher drawn.key drawn.iv,
    rw (sent, generate_symmetrical_cipher_to) refl,
    rw (got, create_symmetrical_cipher_from) (rw (two_blocks-key_text drawn key_fits iv_fits) refl),
  )

-- The decryptor makes of a message the text of a key, whose sizes are not zero and fit into an `int`,
-- that ends within the initial vector. Then the message is accepted, and the missing bytes are zeros.
pub deserialize_cut :
    (decrypt : Text → Option Text) (key part missing message : Text)
    → IsBlockSize (length key)
    → IsBlockSize (length (part ++ missing))
    → decrypt message
      ≡ some (
          show_nat (length key)
          ++ b':' ∷ (key ++ (show_nat (length (part ++ missing)) ++ b':' ∷ part)))
    → deserialize decrypt message ≡ some (record { key = key; iv = part ++ zeros (length missing) })
unfolding deserialize
deserialize_cut decrypt key part missing message key_fits iv_fits got =
    let short : length part ≤ length (part ++ missing) =
      omega (arith, length-append part missing) in
    let rest : length (part ++ missing) - length part ≡ length missing =
      omega (arith, length-append part missing) in
    rw (got, deserialize)
      (rw (two_blocks-cut key part (length (part ++ missing)) key_fits iv_fits short, rest) refl)
