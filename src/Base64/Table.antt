-- ===== src/Base64/Table.antt =====
-- Facts about single bytes and table positions, checked value by value.
use Prim.Native.Nat.{bit_and}
use secure_dialogues.Common.{
  ℕ, zero, suc, ◌+◌, ◌*◌, ◌/◌, ◌%◌, ◌<◌, ◌==◌, ◌≡◌, refl, Bool, true, ◌&&◌, arith, ==_iff,
  if◌then◌else◌, false,
}
use secure_dialogues.Base64.{
  char_at, find_char, is_base64, continues, index_0, index_1, index_2, index_3, byte_0, byte_1,
  byte_2,
}

-- A test of the entries of a table, from its last one down.
passes : (ℕ → Bool) → ℕ → Bool
passes test zero = true
passes test (suc entry) = if test entry then passes test entry else false

passes_at :
    (test : ℕ → Bool) (size entry : ℕ) → entry < size → passes test size ≡ true → test entry ≡ true
unfolding passes
passes_at test zero entry small checked = absurd (omega arith)
passes_at test (suc size) entry small checked = ground (arith, passes_at test size entry)

find_table : passes (λ v. find_char (char_at v) == v) 64 ≡ true
unfolding passes find_char char_at
find_table = refl

-- Each table position is found back from its character.
pub find_char-char_at : (v : ℕ) → v < 64 → find_char (char_at v) ≡ v
find_char-char_at v h = (==_iff _ v).0 (passes_at _ 64 v h find_table)

continues_table : passes (λ v. continues (char_at v)) 64 ≡ true
unfolding passes char_at is_base64
continues_table = refl

-- No character of the table stops the decoder.
pub continues-char_at : (v : ℕ) → v < 64 → continues (char_at v) ≡ true
continues-char_at v h = passes_at _ 64 v h continues_table

-- Each mask as a quotient or a remainder.
masks : ℕ → Bool
masks a =
    (bit_and a 0xfc / 4 == a / 4)
    && ((bit_and a 0x03 == a % 4)
        && ((bit_and a 0xf0 / 16 == a / 16)
            && ((bit_and a 0x0f == a % 16)
                && ((bit_and a 0xc0 / 64 == a / 64)
                    && ((bit_and a 0x3f == a % 64)
                        && ((bit_and a 0x30 / 16 == a / 16 % 4)
                            && (bit_and a 0x3c / 4 == a / 4 % 16)))))))

masks_table : passes masks 256 ≡ true
unfolding passes masks
masks_table = refl

record Masks (a : ℕ) : Type 0 where
  high_6 : bit_and a 0xfc / 4 ≡ a / 4
  low_2 : bit_and a 0x03 ≡ a % 4
  high_4 : bit_and a 0xf0 / 16 ≡ a / 16
  low_4 : bit_and a 0x0f ≡ a % 16
  high_2 : bit_and a 0xc0 / 64 ≡ a / 64
  low_6 : bit_and a 0x3f ≡ a % 64
  mid_2 : bit_and a 0x30 / 16 ≡ a / 16 % 4
  mid_4 : bit_and a 0x3c / 4 ≡ a / 4 % 16

masks_lem : (a : ℕ) → a < 256 → Masks a
unfolding masks
masks_lem a h =
    let t : masks a ≡ true = passes_at masks 256 a h masks_table in
    record {
      high_6 = ground arith;
      low_2 = ground arith;
      high_4 = ground arith;
      low_4 = ground arith;
      high_2 = ground arith;
      low_6 = ground arith;
      mid_2 = ground arith;
      mid_4 = ground arith;
    }

pub index_0_lem : (a : ℕ) → a < 256 → index_0 a ≡ a / 4
unfolding index_0
index_0_lem a h = omega (arith, masks_lem a h)

pub index_1_lem : (a b : ℕ) → a < 256 → b < 256 → index_1 a b ≡ a % 4 * 16 + b / 16
unfolding index_1
index_1_lem a b h k = omega (arith, masks_lem a h, masks_lem b k)

pub index_2_lem : (b c : ℕ) → b < 256 → c < 256 → index_2 b c ≡ b % 16 * 4 + c / 64
unfolding index_2
index_2_lem b c h k = omega (arith, masks_lem b h, masks_lem c k)

pub index_3_lem : (c : ℕ) → c < 256 → index_3 c ≡ c % 64
unfolding index_3
index_3_lem c h = omega (arith, masks_lem c h)

pub byte_0_lem : (w x : ℕ) → w < 64 → x < 64 → byte_0 w x ≡ w * 4 + x / 16
unfolding byte_0
byte_0_lem w x h k = omega (arith, masks_lem x (omega arith))

pub byte_1_lem : (x y : ℕ) → x < 64 → y < 64 → byte_1 x y ≡ x % 16 * 16 + y / 4
unfolding byte_1
byte_1_lem x y h k = omega (arith, masks_lem x (omega arith), masks_lem y (omega arith))

pub byte_2_lem : (y z : ℕ) → y < 64 → z < 64 → byte_2 y z ≡ y % 4 * 64 + z
unfolding byte_2
byte_2_lem y z h k = omega (arith, masks_lem y (omega arith))
