-- ===== src/Decimal/RoundTrip.antt =====
-- A number that is written out and read again.
use mathlib.Core.List.{append_assoc, append-nil}
use secure_dialogues.Common.{
  ℕ, zero, suc, ◌+◌, ◌*◌, ◌/◌, ◌%◌, ◌≤◌, ◌<◌, ◌==◌, ◌≡◌, ◌≢◌, refl, sym, ◌∙◌, ap, true, false, some,
  [], ◌∷◌, ◌++◌, arith, ltb, Text, All, Bool-cases, inl, inr,
}
use secure_dialogues.Common.Int.{ℤ, pos, negsuc}
use secure_dialogues.Dialog.{ulong_mod, ulong_max}
use secure_dialogues.Decimal.{
  digits_from, show_nat, show_int, is_digit, is_space, skip_space, scan, read_digits, read_signed,
  stoul, long_max, stol, plus,
}

abbrev pub IsDigit : ℕ → Type 0
IsDigit c = is_digit c ≡ true

digit_lem : (d : ℕ) → d < 10 → is_digit (48 + d) ≡ true
unfolding is_digit
digit_lem d h = ground arith

scan_digit :
    (acc d : ℕ) (rest : Text) → d < 10 → scan acc ((48 + d) ∷ rest) ≡ scan (acc * 10 + d) rest
unfolding scan
scan_digit acc d rest h =
    rw (digit_lem d h) (ap (λ (k : ℕ). scan (acc * 10 + k) rest) (omega arith))

scan-digits_from : (f n : ℕ) (rest : Text) → n < f → scan 0 (digits_from f n ++ rest) ≡ scan n rest
unfolding digits_from
scan-digits_from zero n rest h = absurd (omega arith)
scan-digits_from (suc f) n rest h = elim (Bool-cases (ltb n 10)) [
  | inl small ↦
      rw small (scan_digit 0 n rest (ground arith) ∙ ap (λ (k : ℕ). scan k rest) (omega arith))
  | inr big ↦
      rw (big, append_assoc (digits_from f (n / 10)) ((48 + n % 10) ∷ []) rest)
        (scan-digits_from f (n / 10) ((48 + n % 10) ∷ rest) (ground arith)
          ∙ scan_digit (n / 10) (n % 10) rest (omega arith)
          ∙ ap (λ (k : ℕ). scan k rest) (omega arith))
]

All-append : (P : ℕ → Type 0) (xs ys : Text) → All P xs → All P ys → All P (xs ++ ys)
All-append P [] ys h k = k
All-append P (x ∷ xs) ys h k = (h.0, All-append P xs ys h.1 k)

digits_from-IsDigit : (f n : ℕ) → All IsDigit (digits_from f n)
unfolding digits_from
digits_from-IsDigit zero n = tt
digits_from-IsDigit (suc f) n = elim (Bool-cases (ltb n 10)) [
  | inl small ↦ rw small (digit_lem n (ground arith), tt)
  | inr big ↦ rw big (
      All-append IsDigit (digits_from f (n / 10)) ((48 + n % 10) ∷ [])
        (digits_from-IsDigit f (n / 10)) (digit_lem (n % 10) (omega arith), tt))
]

append_ne_nil : (xs : Text) (c : ℕ) → xs ++ c ∷ [] ≢ []
append_ne_nil [] c h = cc
append_ne_nil (x ∷ xs) c h = cc

digits_from_ne_nil : (f n : ℕ) → digits_from (suc f) n ≢ []
unfolding digits_from
digits_from_ne_nil f n = elim (Bool-cases (ltb n 10)) [
  | inl small ↦ rw small (λ h. cc)
  | inr big ↦ rw big (append_ne_nil (digits_from f (n / 10)) (48 + n % 10))
]

-- A number is written in digits only, with at least one.
pub show_nat-IsDigit : (n : ℕ) → All IsDigit (show_nat n)
unfolding show_nat
show_nat-IsDigit n = digits_from-IsDigit (suc n) n

pub show_nat_ne_nil : (n : ℕ) → show_nat n ≢ []
unfolding show_nat
show_nat_ne_nil n = digits_from_ne_nil n n

scan-show_nat : (n : ℕ) → scan 0 (show_nat n) ≡ n
unfolding show_nat scan
scan-show_nat n =
    ap (scan 0) (sym (append-nil (digits_from (suc n) n)))
    ∙ scan-digits_from (suc n) n [] (omega arith)

digit_is_no_sign :
    (c : ℕ)
    → is_digit c ≡ true
    → ((c == b'-') ≡ false) × ((c == b'+') ≡ false) × (is_space c ≡ false)
unfolding is_digit is_space
digit_is_no_sign c h = (ground arith, ground arith, ground arith)

-- What is read from a text of digits, with or without a minus sign before it.
record Reads (n : ℕ) (s : Text) : Type 0 where
  digits : read_digits s ≡ some n
  signed : read_signed s ≡ plus (some n)
  skipped : skip_space s ≡ s

read_lem : (n : ℕ) (s : Text) → All IsDigit s → s ≢ [] → scan 0 s ≡ n → Reads n s
unfolding read_signed skip_space
read_lem n [] d ne e = absurd (ne refl)
read_lem n (c ∷ s) d ne e =
    let f = digit_is_no_sign c d.0 in
    record {
      digits = rw (d.0) (ap (λ (k : ℕ). some k) e);
      signed = rw (f.0, f.1, d.0) (ap (λ (k : ℕ). plus (some k)) e);
      skipped = rw (f.2) refl;
    }

read-show_nat : (n : ℕ) → Reads n (show_nat n)
read-show_nat n = read_lem n (show_nat n) (show_nat-IsDigit n) (show_nat_ne_nil n) (scan-show_nat n)

-- An `unsigned long` is read back from its text.
pub stoul-show_nat : (n : ℕ) → n < ulong_mod → stoul (show_nat n) ≡ some n
unfolding stoul
stoul-show_nat n h =
    let r = read-show_nat n in
    let fits : ltb ulong_max n ≡ false = ground arith in rw (r.skipped, r.signed, fits) refl

-- The values of a `long`.
abbrev pub IsLong : ℤ → Type 0
IsLong (pos n) = n ≤ long_max
IsLong (negsuc n) = n ≤ long_max

-- A `long` is read back from its text.
pub stol-show_int : (k : ℤ) → IsLong k → stol (show_int k) ≡ some k
unfolding stol show_int
stol-show_int (pos n) h =
    let r = read-show_nat n in
    let fits : ltb long_max n ≡ false = ground arith in rw (r.skipped, r.signed, fits) refl
stol-show_int (negsuc n) h =
    let r = read-show_nat (suc n) in
    let fits : ltb (suc long_max) (suc n) ≡ false = ground arith in rw (r.digits, fits) refl
