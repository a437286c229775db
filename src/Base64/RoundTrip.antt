-- ===== src/Base64/RoundTrip.antt =====
-- Decoding after encoding.
use mathlib.Core.List.{append_assoc, append-nil}
use secure_dialogues.Common.{ℕ, ◌<◌, ◌≡◌, refl, sym, ◌∙◌, ap, [], ◌∷◌, ◌++◌, arith, Text, All}
use secure_dialogues.Base64.{
  char_at, index_0, index_1, index_2, index_3, byte_0, byte_1, byte_2, encode_loop, encode_tail,
  base64_encode, decode_loop, decode_tail, decode_push, base64_decode,
}
use secure_dialogues.Base64.Table.{
  find_char-char_at, continues-char_at, index_0_lem, index_1_lem, index_2_lem, index_3_lem,
  byte_0_lem, byte_1_lem, byte_2_lem,
}

abbrev pub IsByte : ℕ → Type 0
IsByte b = b < 256

-- What is read back from the four indices of three bytes.
record Group (a b c : ℕ) : Type 0 where
  below_0 : index_0 a < 64
  below_1 : index_1 a b < 64
  below_2 : index_2 b c < 64
  below_3 : index_3 c < 64
  first : byte_0 (index_0 a) (index_1 a b) ≡ a
  second : byte_1 (index_1 a b) (index_2 b c) ≡ b
  third : byte_2 (index_2 b c) (index_3 c) ≡ c

group_lem : (a b c : ℕ) → a < 256 → b < 256 → c < 256 → Group a b c
group_lem a b c ha hb hc =
    let i0 = index_0_lem a ha in
    let i1 = index_1_lem a b ha hb in
    let i2 = index_2_lem b c hb hc in
    let i3 = index_3_lem c hc in
    let l0 : index_0 a < 64 = omega arith in
    let l1 : index_1 a b < 64 = omega arith in
    let l2 : index_2 b c < 64 = omega arith in
    let l3 : index_3 c < 64 = omega arith in
    record {
      below_0 = l0;
      below_1 = l1;
      below_2 = l2;
      below_3 = l3;
      first = omega (arith, byte_0_lem (index_0 a) (index_1 a b) l0 l1);
      second = omega (arith, byte_1_lem (index_1 a b) (index_2 b c) l1 l2);
      third = omega (arith, byte_2_lem (index_2 b c) (index_3 c) l2 l3);
    }

encode_loop_ret : (buf ret bs : Text) → encode_loop buf ret bs ≡ ret ++ encode_loop buf [] bs
unfolding encode_loop encode_tail
encode_loop_ret [] ret [] = sym (append-nil ret)
encode_loop_ret (a ∷ []) ret [] = refl
encode_loop_ret (a ∷ b ∷ buf) ret [] = refl
encode_loop_ret [] ret (c ∷ bs) = encode_loop_ret (c ∷ []) ret bs
encode_loop_ret (a ∷ []) ret (c ∷ bs) = encode_loop_ret (a ∷ c ∷ []) ret bs
encode_loop_ret (a ∷ b ∷ buf) ret (c ∷ bs) =
    let group =
      char_at (index_0 a)
      ∷ char_at (index_1 a b)
      ∷ char_at (index_2 b c)
      ∷ char_at (index_3 c)
      ∷ [] in
    encode_loop_ret [] (ret ++ group) bs
    ∙ append_assoc ret group (encode_loop [] [] bs)
    ∙ ap (◌++◌ ret) (sym (encode_loop_ret [] group bs))

decode_encode :
    (ret bs : Text) → All IsByte bs → decode_loop [] ret (encode_loop [] [] bs) ≡ ret ++ bs
unfolding encode_loop encode_tail decode_loop decode_tail decode_push
decode_encode ret [] h = sym (append-nil ret)
decode_encode ret (a ∷ []) h =
    let g = group_lem a 0 0 h.0 (omega arith) (omega arith) in
    simp (
      continues-char_at (index_0 a) g.below_0,
      continues-char_at (index_1 a 0) g.below_1,
      find_char-char_at (index_0 a) g.below_0,
      find_char-char_at (index_1 a 0) g.below_1,
      g.first,
    )
decode_encode ret (a ∷ b ∷ []) h =
    let g = group_lem a b 0 h.0 h.1.0 (omega arith) in
    simp (
      continues-char_at (index_0 a) g.below_0,
      continues-char_at (index_1 a b) g.below_1,
      continues-char_at (index_2 b 0) g.below_2,
      find_char-char_at (index_0 a) g.below_0,
      find_char-char_at (index_1 a b) g.below_1,
      find_char-char_at (index_2 b 0) g.below_2,
      g.first,
      g.second,
    )
decode_encode ret (a ∷ b ∷ c ∷ bs) h =
    let g = group_lem a b c h.0 h.1.0 h.1.1.0 in
    rw
      (encode_loop_ret []
        (char_at (index_0 a)
          ∷ char_at (index_1 a b)
          ∷ char_at (index_2 b c)
          ∷ char_at (index_3 c)
          ∷ [])
        bs)
      (simp
        (
          continues-char_at (index_0 a) g.below_0,
          continues-char_at (index_1 a b) g.below_1,
          continues-char_at (index_2 b c) g.below_2,
          continues-char_at (index_3 c) g.below_3,
          find_char-char_at (index_0 a) g.below_0,
          find_char-char_at (index_1 a b) g.below_1,
          find_char-char_at (index_2 b c) g.below_2,
          find_char-char_at (index_3 c) g.below_3,
          g.first,
          g.second,
          g.third,
        )
        (decode_encode (ret ++ a ∷ b ∷ c ∷ []) bs h.1.1.1 ∙ append_assoc ret (a ∷ b ∷ c ∷ []) bs))

-- Decoding what was encoded gives the bytes back.
pub base64_decode-encode : (bs : Text) → All IsByte bs → base64_decode (base64_encode bs) ≡ bs
unfolding base64_decode base64_encode
base64_decode-encode bs h = decode_encode [] bs h
