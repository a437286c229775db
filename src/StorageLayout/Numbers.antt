-- ===== src/StorageLayout/Numbers.antt =====
-- Numbers that are written as bytes and read again.
use native.Mathlib.Nat.{mod-eq_of_lt, pow-zero, pow-suc}
use secure_dialogues.Common.{
  ℕ, ltb, ◌≤◌, ◌*◌, ◌/◌, ◌-◌, zero, suc, ◌<◌, ◌^◌, ◌≡◌, refl, ap, some, List, ◌++◌, length, arith,
  Bool-cases, inl, inr,
}
use secure_dialogues.Common.Int.{ℤ, pos, negsuc}
use secure_dialogues.StorageLayout.{to_bytes, from_bytes, to_pattern, from_pattern}

-- A signed number in the range of a width.
abbrev pub Fits : ℕ → ℤ → Type 0
Fits w (pos n) = 2 * n < 256 ^ w
Fits w (negsuc n) = 2 * suc n ≤ 256 ^ w

pub length-to_bytes : (w n : ℕ) → length (to_bytes w n) ≡ w
unfolding to_bytes
length-to_bytes zero n = refl
length-to_bytes (suc w) n = ap suc (length-to_bytes w (n / 256))

pub from_bytes-to_bytes :
    (w n : ℕ) (rest : List ℕ) → n < 256 ^ w → from_bytes w (to_bytes w n ++ rest) ≡ some (n, rest)
unfolding to_bytes from_bytes
from_bytes-to_bytes zero n rest h = ap (λ (k : ℕ). some (k, rest)) (omega (arith, pow-zero 256, h))
from_bytes-to_bytes (suc w) n rest h =
    rw (from_bytes-to_bytes w (n / 256) rest (omega (arith, pow-suc 256 w, h)))
      (ap (λ (k : ℕ). some (k, rest)) (omega arith))

pub to_pattern_lt : (w : ℕ) (z : ℤ) → Fits w z → to_pattern w z < 256 ^ w
unfolding to_pattern
to_pattern_lt w (pos n) h =
    rw (mod-eq_of_lt {n = n} {m = 256 ^ w} (omega (arith, h))) (omega (arith, h))
to_pattern_lt w (negsuc n) h = omega (arith, h)

-- A signed number in range is what its bytes are read back as.
pub from_pattern-to_pattern : (w : ℕ) (z : ℤ) → Fits w z → from_pattern w (to_pattern w z) ≡ z
unfolding to_pattern from_pattern
from_pattern-to_pattern w (pos n) h =
    rw (mod-eq_of_lt {n = n} {m = 256 ^ w} (omega (arith, h))) (ground (arith, h))
from_pattern-to_pattern w (negsuc n) h =
    rw (mod-eq_of_lt {n = n} {m = 256 ^ w} (omega (arith, h)))
      (elim (Bool-cases (ltb (2 * (256 ^ w - 1 - n)) (256 ^ w))) [
        | inl small ↦ absurd (ground (arith, h, small))
        | inr big ↦ rw big (ap negsuc (omega (arith, h)))
      ])
