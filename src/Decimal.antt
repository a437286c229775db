-- ===== src/Decimal.antt =====
-- The numbers in a message's text (messages/src/utils/messagemarshaller.cpp): `<<` of an integer, and
-- the C++ standard's `std::stoul` and `std::stol` at base 10, in the "C" locale, for 64-bit longs.
-- `none` is a thrown exception.
pub mod RoundTrip
use secure_dialogues.Common.{
  ℕ, zero, suc, ◌+◌, ◌-◌, ◌*◌, ◌/◌, ◌%◌, ◌==◌, Bool, ◌&&◌, ◌||◌, Option, none, some, List, [], ◌∷◌,
  ◌++◌, ltb, leb, if◌then◌else◌, Text,
}
use secure_dialogues.Common.Int.{ℤ, pos, negsuc}
use secure_dialogues.Dialog.{ulong_mod, ulong_max}

-- The digits of a number. The fuel bounds their count; one more than the number is enough.
unfoldable pub digits_from : ℕ → ℕ → Text
digits_from zero n = []
digits_from (suc fuel) n =
    let rest = digits_from fuel (n / 10) ++ (48 + n % 10) ∷ [] in
    if ltb n 10 then (48 + n) ∷ [] else rest

unfoldable pub show_nat : ℕ → Text
unfolding digits_from
show_nat n = digits_from (suc n) n

unfoldable pub show_int : ℤ → Text
unfolding show_nat
show_int (pos n) = show_nat n
show_int (negsuc n) = b'-' ∷ show_nat (suc n)

unfoldable pub is_digit : ℕ → Bool
is_digit c = leb 48 c && leb c 57

-- `std::isspace`.
unfoldable pub is_space : ℕ → Bool
is_space c = (c == 32) || (leb 9 c && leb c 13)

unfoldable pub skip_space : Text → Text
skip_space [] = []
skip_space (c ∷ s) = let rest = skip_space s in if is_space c then rest else c ∷ s

-- The value of the digits that a text begins with.
unfoldable pub scan : ℕ → Text → ℕ
scan acc [] = acc
scan acc (c ∷ s) = let more = scan (acc * 10 + (c - 48)) s in if is_digit c then more else acc

abbrev pub read_digits : Text → Option ℕ
read_digits [] = none
read_digits (c ∷ s) = if is_digit c then some (scan 0 (c ∷ s)) else none

-- An optional sign, then digits; what follows them is not read.
pub data Signed : Type 0 where
  plus : Option ℕ → Signed
  minus : Option ℕ → Signed

unfoldable pub read_signed : Text → Signed
read_signed [] = plus none
read_signed (c ∷ s) =
    if c == b'-'
    then minus (read_digits s)
    else if c == b'+'
    then plus (read_digits s)
    else plus (read_digits (c ∷ s))

-- A minus sign negates in the unsigned type.
abbrev pub to_ulong : Signed → Option ℕ
to_ulong (plus none) = none
to_ulong (plus (some n)) = if ltb ulong_max n then none else some n
to_ulong (minus none) = none
to_ulong (minus (some n)) = if ltb ulong_max n then none else some ((ulong_mod - n) % ulong_mod)

unfoldable pub stoul : Text → Option ℕ
unfolding read_signed skip_space is_space
stoul s = to_ulong (read_signed (skip_space s))

-- `std::numeric_limits<long>::max()`.
abbrev pub long_max : ℕ
long_max = 9223372036854775807

abbrev pub negate : ℕ → ℤ
negate zero = pos 0
negate (suc n) = negsuc n

abbrev pub to_long : Signed → Option ℤ
to_long (plus none) = none
to_long (plus (some n)) = if ltb long_max n then none else some (pos n)
to_long (minus none) = none
to_long (minus (some n)) = if ltb (suc long_max) n then none else some (negate n)

unfoldable pub stol : Text → Option ℤ
unfolding read_signed skip_space is_space
stol s = to_long (read_signed (skip_space s))
