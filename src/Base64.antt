-- ===== src/Base64.antt =====
-- utils/src/utils/base64.cpp (plugins/vk-plugin/vk-communication/base64.cpp is the same text): bytes
-- to base64 and back. `isalnum` is that of the "C" locale.
pub mod Table
pub mod RoundTrip
use Prim.Native.Nat.{bit_and}
use secure_dialogues.Common.{
  ℕ, suc, zero, ◌+◌, ◌*◌, ◌/◌, ◌%◌, ◌==◌, Bool, ◌&&◌, ◌||◌, not, List, [], ◌∷◌, ◌++◌, leb,
  if◌then◌else◌, Text, codes,
}

abbrev pub base64_chars : Text
base64_chars = codes "ABCDEFGHIJKLMNOPQRSTUVWXYZabcdefghijklmnopqrstuvwxyz0123456789+/"

abbrev pub get_or : Text → ℕ → ℕ → ℕ
get_or [] i d = d
get_or (x ∷ xs) zero d = x
get_or (x ∷ xs) (suc i) d = get_or xs i d

-- `base64_chars[i]`; index 64 is the string's closing zero.
unfoldable pub char_at : ℕ → ℕ
char_at i = get_or base64_chars i 0

-- `static_cast<unsigned char>(s.find(c))`: `npos` becomes 255.
abbrev pub find_from : ℕ → Text → ℕ → ℕ
find_from i [] c = 255
find_from i (x ∷ xs) c = if x == c then i % 256 else find_from (suc i) xs c

unfoldable pub find_char : ℕ → ℕ
find_char c = find_from 0 base64_chars c

abbrev pub is_alnum : ℕ → Bool
is_alnum c = (leb 48 c && leb c 57) || ((leb 65 c && leb c 90) || (leb 97 c && leb c 122))

unfoldable pub is_base64 : ℕ → Bool
is_base64 c = is_alnum c || ((c == b'+') || (c == b'/'))

-- The four indices of three bytes.
unfoldable pub index_0 : ℕ → ℕ
index_0 a = bit_and a 0xfc / 4 % 256

unfoldable pub index_1 : ℕ → ℕ → ℕ
index_1 a b = (bit_and a 0x03 * 16 + bit_and b 0xf0 / 16) % 256

unfoldable pub index_2 : ℕ → ℕ → ℕ
index_2 b c = (bit_and b 0x0f * 4 + bit_and c 0xc0 / 64) % 256

unfoldable pub index_3 : ℕ → ℕ
index_3 c = bit_and c 0x3f % 256

-- `if (i)`: the bytes that are left, filled up with zeros, then one `=` for each that was missing.
unfoldable pub encode_tail : Text → Text → Text
encode_tail [] ret = ret
encode_tail (a ∷ []) ret = ret ++ char_at (index_0 a) ∷ char_at (index_1 a 0) ∷ b'=' ∷ b'=' ∷ []
encode_tail (a ∷ b ∷ _) ret =
    ret ++ char_at (index_0 a) ∷ char_at (index_1 a b) ∷ char_at (index_2 b 0) ∷ b'=' ∷ []

-- The first argument is what stands in `char_array_3` before place `i`.
unfoldable pub encode_loop : Text → Text → Text → Text
encode_loop buf ret [] = encode_tail buf ret
encode_loop [] ret (c ∷ input) = encode_loop (c ∷ []) ret input
encode_loop (a ∷ []) ret (c ∷ input) = encode_loop (a ∷ c ∷ []) ret input
encode_loop (a ∷ b ∷ _) ret (c ∷ input) =
    encode_loop []
      (ret
        ++ char_at (index_0 a)
          ∷ char_at (index_1 a b)
          ∷ char_at (index_2 b c)
          ∷ char_at (index_3 c)
          ∷ [])
      input

unfoldable pub base64_encode : Text → Text
unfolding encode_loop encode_tail
base64_encode bytes = encode_loop [] [] bytes

-- The three bytes of four table positions.
unfoldable pub byte_0 : ℕ → ℕ → ℕ
byte_0 w x = (w * 4 + bit_and x 0x30 / 16) % 256

unfoldable pub byte_1 : ℕ → ℕ → ℕ
byte_1 x y = (bit_and x 0xf * 16 + bit_and y 0x3c / 4) % 256

unfoldable pub byte_2 : ℕ → ℕ → ℕ
byte_2 y z = (bit_and y 0x3 * 64 + z) % 256

-- `if (i)`: the last group has `i` characters and yields `i - 1` bytes.
unfoldable pub decode_tail : Text → Text → Text
decode_tail [] ret = ret
decode_tail (a ∷ []) ret = ret
decode_tail (a ∷ b ∷ []) ret = ret ++ byte_0 (find_char a) (find_char b) ∷ []
decode_tail (a ∷ b ∷ c ∷ _) ret =
    ret ++ byte_0 (find_char a) (find_char b) ∷ byte_1 (find_char b) (find_char c) ∷ []

unfoldable pub decode_push : Text → ℕ → Text
decode_push [] c = c ∷ []
decode_push (a ∷ buf) c = a ∷ decode_push buf c

-- The `while` condition on a character.
abbrev pub continues : ℕ → Bool
continues c = not (c == b'=') && is_base64 c

-- The first argument is what stands in `char_array_4` before place `i`.
unfoldable pub decode_loop : Text → Text → Text → Text
decode_loop buf ret [] = decode_tail buf ret
decode_loop (a ∷ b ∷ c ∷ _) ret (d ∷ input) =
    let rest =
      decode_loop []
        (ret
          ++ byte_0 (find_char a) (find_char b)
            ∷ byte_1 (find_char b) (find_char c)
            ∷ byte_2 (find_char c) (find_char d)
            ∷ [])
        input in
    if continues d then rest else decode_tail (a ∷ b ∷ c ∷ []) ret
decode_loop buf ret (d ∷ input) =
    let rest = decode_loop (decode_push buf d) ret input in
    if continues d then rest else decode_tail buf ret

unfoldable pub base64_decode : Text → Text
unfolding decode_loop decode_tail
base64_decode encoded_string = decode_loop [] [] encoded_string
