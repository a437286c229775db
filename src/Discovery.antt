-- ===== src/Discovery.antt =====
-- messages/src/communication/discovercontactagent.cpp: the body of a `CONTACT_DISCOVER` message, a
-- name and a public key. The public key's text comes from the crypto system, the message's id and
-- number are drawn at random: they are arguments.
pub mod Bodies
use secure_dialogues.Common.{
  ℕ, suc, ◌+◌, ◌==◌, Bool, true, false, ◌||◌, Option, none, some, List, [], ◌∷◌, ◌++◌, ltb,
  if◌then◌else◌, Text, codes, length, drop, take,
}
use secure_dialogues.Common.Result.{Result, ok, throw, runtime_error, out_of_range}
use secure_dialogues.Common.Int.{ℤ}
use secure_dialogues.DialogMessage.{DialogMessage, make_dialog_message, contact_discover}

-- `ContentDelitimer`: a line of thirty dashes between line ends.
abbrev pub content_delimiter : Text
content_delimiter = 10 ∷ codes "------------------------------" ++ 10 ∷ []

abbrev pub contains : ℕ → Text → Bool
contains c [] = false
contains c (x ∷ xs) = (c == x) || contains c xs

abbrev pub suc_found : Option ℕ → Option ℕ
suc_found none = none
suc_found (some i) = some (suc i)

-- `s.find_first_of(set)`: the first position that holds any character of the set.
unfoldable pub find_first_of : Text → Text → Option ℕ
find_first_of [] set = none
find_first_of (x ∷ xs) set = if contains x set then some 0 else suc_found (find_first_of xs set)

-- `s.substr(pos)`.
unfoldable pub substr_from : Text → ℕ → Result Text
substr_from s pos = if ltb (length s) pos then throw out_of_range else ok (drop pos s)

abbrev pub with_name : Text → Result Text → Result (Text × Text)
with_name name (ok key) = ok (name, key)
with_name name (throw e) = throw e

abbrev pub split_at : Text → Option ℕ → Result (Text × Text)
split_at content none = throw runtime_error
split_at content (some pos) =
    with_name (take pos content) (substr_from content (pos + length content_delimiter))

unfoldable pub get_name_and_public_key : Text → Result (Text × Text)
unfolding find_first_of substr_from
get_name_and_public_key content = split_at content (find_first_of content content_delimiter)

-- The message that `discover` sends through `sendAndForget`.
unfoldable pub discover_message : Text → Text → Text → ℕ → Text → ℤ → DialogMessage
discover_message name public_key uiid sequental address now =
    make_dialog_message contact_discover (name ++ (content_delimiter ++ public_key)) uiid address
      sequental [] now
