-- ===== src/Discovery/Bodies.antt =====
-- What the receiver reads from the body of a `CONTACT_DISCOVER` message.
use mathlib.Core.List.{append_assoc}
use native.Mathlib.Nat.{suc-add}
use secure_dialogues.Common.{
  ℕ, ◌+◌, ◌≤◌, ◌≡◌, refl, true, false, some, [], ◌∷◌, ◌++◌, arith, ltb, Text, All, length, drop,
  length-append, take-append, codes,
}
use secure_dialogues.Common.Int.{ℤ}
use secure_dialogues.Common.Result.{ok}
use secure_dialogues.Discovery.{
  content_delimiter, contains, find_first_of, substr_from, get_name_and_public_key,
  discover_message,
}

-- The two characters that the delimiter is made of.
abbrev pub IsPlain : ℕ → Type 0
IsPlain c = contains c content_delimiter ≡ false

find_first_of-append :
    (name rest : Text) (c : ℕ)
    → All IsPlain name
    → contains c content_delimiter ≡ true
    → find_first_of (name ++ c ∷ rest) content_delimiter ≡ some (length name)
unfolding find_first_of
find_first_of-append [] rest c h k = rw k refl
find_first_of-append (x ∷ name) rest c h k = rw (h.0, find_first_of-append name rest c h.1 k) refl

drop_tail :
    (name rest : Text) (c : ℕ)
    → drop (length name + length content_delimiter) (name ++ c ∷ rest) ≡ drop 31 rest
drop_tail [] rest c = refl
drop_tail (x ∷ name) rest c = rw suc-add (drop_tail name rest c)

substr_tail :
    (name rest : Text) (c : ℕ)
    → 31 ≤ length rest
    → substr_from (name ++ c ∷ rest) (length name + length content_delimiter) ≡ ok (drop 31 rest)
unfolding substr_from
substr_tail name rest c fits =
    let room : ltb (length (name ++ c ∷ rest)) (length name + length content_delimiter) ≡ false =
      ground (arith, length-append name (c ∷ rest)) in
    rw (room, drop_tail name rest c) refl

-- A body splits at its first line end or dash, whichever comes first: the name is what stands before,
-- and the key is what stands 32 places further on.
pub split_name :
    (name rest : Text) (c : ℕ)
    → All IsPlain name
    → contains c content_delimiter ≡ true
    → 31 ≤ length rest
    → get_name_and_public_key (name ++ c ∷ rest) ≡ ok (name, drop 31 rest)
unfolding get_name_and_public_key
split_name name rest c h k fits = rw (
  find_first_of-append name rest c h k,
  substr_tail name rest c fits,
  take-append name (c ∷ rest),
)

-- The receiver reads back the name and the key that the sender put into the message, for every
-- name that has no dash and no line end.
pub get_name_and_public_key-discover_message :
    (name public_key uiid address : Text) (sequental : ℕ) (now : ℤ)
    → All IsPlain name
    → get_name_and_public_key (discover_message name public_key uiid sequental address now).content
      ≡ ok (name, public_key)
unfolding discover_message
get_name_and_public_key-discover_message name public_key uiid address sequental now h =
    split_name name ((codes "------------------------------" ++ 10 ∷ []) ++ public_key) 10 h refl
      (omega arith)

-- A name with a dash is cut: for every name that has a dash after a plain beginning, the receiver
-- takes that beginning for the name, and a text for the key that starts 31 places behind the dash.
pub dash_name_cut :
    (front back public_key uiid address : Text) (sequental : ℕ) (now : ℤ)
    → All IsPlain front
    → get_name_and_public_key
        (discover_message (front ++ b'-' ∷ back) public_key uiid sequental address now).content
      ≡ ok (front, drop 31 (back ++ (content_delimiter ++ public_key)))
unfolding discover_message
dash_name_cut front back public_key uiid address sequental now h =
    rw (append_assoc front (b'-' ∷ back) (content_delimiter ++ public_key)) (
      split_name front (back ++ (content_delimiter ++ public_key)) b'-' h refl
        (omega (arith, length-append back (content_delimiter ++ public_key))))
