-- ===== src/Marshaller/Lines.antt =====
-- Lines, white space at the end, and one line of a message at a time.
use native.Mathlib.Nat.{suc-add}
use secure_dialogues.Common.{
  Bool, true, false, ℕ, ◌+◌, ◌-◌, ◌<◌, ◌==◌, ◌≡◌, ◌≢◌, refl, ap, ap₂, ◌∙◌, ◌||◌, some, List, [],
  ◌∷◌, ◌++◌, ◌⊎◌, inl, inr, arith, if◌then◌else◌, Text, text_eq_refl, All, length, drop, Bool-cases,
  length-append, take-append, not, ◌&&◌,
}
use secure_dialogues.Decimal.{is_space}
use secure_dialogues.Marshaller.{
  all_space, zero_trailing, c_str, trim, find_char, split_found, split_key_val, cons_head,
  get_lines, write_field, keyed, value_of,
}

abbrev pub IsNot : ℕ → ℕ → Type 0
IsNot ch c = (c == ch) ≡ false

-- The same as a test, for the literals.
abbrev pub lacks : ℕ → Text → Bool
lacks ch [] = true
lacks ch (c ∷ s) = not (c == ch) && lacks ch s

pub lacks_sound : (ch : ℕ) (s : Text) → lacks ch s ≡ true → All (IsNot ch) s
lacks_sound ch [] h = tt
lacks_sound ch (c ∷ s) h = (ground arith, lacks_sound ch s (ground arith))

-- A text without a line end, followed by one, is the first line.
pub get_lines-append :
    (l rest : Text) → All (IsNot 10) l → get_lines (l ++ 10 ∷ rest) ≡ l ∷ get_lines rest
unfolding get_lines
get_lines-append [] rest h = refl
get_lines-append (c ∷ l) rest h = rw (h.0, get_lines-append l rest h.1) refl

-- A text cut at every line end: the first piece and the others.
unfoldable pub first_piece : Text → Text
first_piece [] = []
first_piece (c ∷ s) = if c == 10 then [] else c ∷ first_piece s

unfoldable pub other_pieces : Text → List Text
other_pieces [] = []
other_pieces (c ∷ s) = if c == 10 then first_piece s ∷ other_pieces s else other_pieces s

-- Lines, each with a line end before it.
unfoldable pub glue : List Text → Text
glue [] = []
glue (l ∷ ls) = 10 ∷ (l ++ glue ls)

pub glue_pieces : (s : Text) → first_piece s ++ glue (other_pieces s) ≡ s
unfolding first_piece other_pieces glue
glue_pieces [] = refl
glue_pieces (c ∷ s) = elim (Bool-cases (c == 10)) [
  | inl e ↦ rw (e, glue_pieces s) (ground arith)
  | inr e ↦ rw (e, glue_pieces s) refl
]

get_lines_pieces :
    (s rest : Text)
    → get_lines (s ++ 10 ∷ rest) ≡ first_piece s ∷ (other_pieces s ++ get_lines rest)
unfolding get_lines first_piece other_pieces
get_lines_pieces [] rest = refl
get_lines_pieces (c ∷ s) rest = elim (Bool-cases (c == 10)) [
  | inl e ↦ rw (e, get_lines_pieces s rest) refl
  | inr e ↦ rw (e, get_lines_pieces s rest) refl
]

prefix_lines :
    (k s : Text) (l : Text) (ls : List Text)
    → All (IsNot 10) k
    → get_lines s ≡ l ∷ ls
    → get_lines (k ++ s) ≡ (k ++ l) ∷ ls
unfolding get_lines
prefix_lines [] s l ls h e = e
prefix_lines (c ∷ k) s l ls h e = rw (h.0, prefix_lines k s l ls h.1 e) refl

-- The lines of a field whose key has no line end: the value may have some.
pub get_lines-write_field :
    (key value rest : Text)
    → All (IsNot 10) key
    → get_lines (write_field key value rest)
      ≡ (key ++ b':' ∷ first_piece value) ∷ (other_pieces value ++ get_lines rest)
get_lines-write_field key value rest h =
    prefix_lines key (b':' ∷ (value ++ 10 ∷ rest)) (b':' ∷ first_piece value)
      (other_pieces value ++ get_lines rest) h
      (prefix_lines (b':' ∷ []) (value ++ 10 ∷ rest) (first_piece value)
        (other_pieces value ++ get_lines rest) (refl, tt) (get_lines_pieces value rest))

pieces_of_line : (s : Text) → All (IsNot 10) s → (first_piece s ≡ s) × (other_pieces s ≡ [])
unfolding first_piece other_pieces
pieces_of_line [] h = (refl, refl)
pieces_of_line (c ∷ s) h = let (e, f) = pieces_of_line s h.1 in (rw (h.0, e) refl, rw (h.0, f) refl)

pub get_lines-write_field_line :
    (key value rest : Text)
    → All (IsNot 10) key
    → All (IsNot 10) value
    → get_lines (write_field key value rest) ≡ (key ++ b':' ∷ value) ∷ get_lines rest
get_lines-write_field_line key value rest h k =
    let (e, f) = pieces_of_line value k in get_lines-write_field key value rest h ∙ rw (e, f) refl

-- Lines, each with a line end behind it.
unfoldable pub unlines : List Text → Text
unlines [] = []
unlines (l ∷ ls) = l ++ 10 ∷ unlines ls

cons_head_ne_nil : (c : ℕ) (ls : List Text) → cons_head c ls ≢ []
cons_head_ne_nil c [] h = cc
cons_head_ne_nil c (l ∷ ls) h = cc

get_lines_nil : (s : Text) → get_lines s ≡ [] → s ≡ []
unfolding get_lines
get_lines_nil [] e = refl
get_lines_nil (c ∷ s) e = ground (arith, cons_head_ne_nil c (get_lines s))

unlines-cons_head :
    (c : ℕ) (ls : List Text) (s : Text)
    → (ls ≡ [] → s ≡ [])
    → (unlines ls ≡ s) ⊎ (unlines ls ≡ s ++ 10 ∷ [])
    → (unlines (cons_head c ls) ≡ c ∷ s) ⊎ (unlines (cons_head c ls) ≡ c ∷ (s ++ 10 ∷ []))
unfolding unlines
unlines-cons_head c [] s n h = inr (rw (n refl) refl)
unlines-cons_head c (l ∷ ls) s n (inl e) = inl (ap (◌∷◌ c) e)
unlines-cons_head c (l ∷ ls) s n (inr e) = inr (ap (◌∷◌ c) e)

-- Putting a line end behind every line adds at most one line end to a text.
unlines-get_lines :
    (s : Text) → (unlines (get_lines s) ≡ s) ⊎ (unlines (get_lines s) ≡ s ++ 10 ∷ [])
unfolding get_lines unlines
unlines-get_lines [] = inl refl
unlines-get_lines (c ∷ s) = elim (Bool-cases (c == 10)) [
  | inl t ↦ elim (unlines-get_lines s) [
    | inl e ↦ inl (rw (t, e) (ground arith))
    | inr e ↦ inr (rw (t, e) (ground arith))
  ]
  | inr t ↦ rw t (unlines-cons_head c (get_lines s) s (get_lines_nil s) (unlines-get_lines s))
]

all_space-append : (s : Text) → all_space (s ++ 10 ∷ []) ≡ all_space s
unfolding is_space
all_space-append [] = refl
all_space-append (c ∷ s) = rw (all_space-append s) refl

zero_trailing-append : (s : Text) → zero_trailing (s ++ 10 ∷ []) ≡ zero_trailing s ++ 0 ∷ []
unfolding zero_trailing is_space
zero_trailing-append [] = refl
zero_trailing-append (c ∷ s) = rw (all_space-append s, zero_trailing-append s) refl

c_str-append : (s : Text) → c_str (s ++ 0 ∷ []) ≡ c_str s
unfolding c_str
c_str-append [] = refl
c_str-append (c ∷ s) = rw (c_str-append s) refl

-- A line end behind a text is trimmed away.
pub trim-unlines : (s : Text) → trim (unlines (get_lines s)) ≡ trim s
unfolding trim
trim-unlines s = elim (unlines-get_lines s) [
  | inl e ↦ rw e refl
  | inr e ↦ rw (e, zero_trailing-append s) (c_str-append (zero_trailing s))
]

find_char-append :
    (ch : ℕ) (k v : Text) → All (IsNot ch) k → find_char ch (k ++ ch ∷ v) ≡ some (length k)
unfolding find_char
find_char-append ch [] v h = ground arith
find_char-append ch (c ∷ k) v h = rw (h.0, find_char-append ch k v h.1) refl

length_pos : (k : Text) → k ≢ [] → 0 < length k
length_pos [] h = absurd (h refl)
length_pos (c ∷ k) h = omega arith

drop_key : (k v : Text) (c : ℕ) → drop (length k + 1) (k ++ c ∷ v) ≡ v
drop_key [] v c = refl
drop_key (x ∷ k) v c = rw suc-add (drop_key k v c)

-- A key without a colon and a value, neither of them empty, are split at the colon between them.
pub split_key_val-append :
    (k v : Text)
    → All (IsNot b':') k
    → k ≢ []
    → v ≢ []
    → split_key_val (k ++ b':' ∷ v) ≡ some (k, v)
unfolding split_key_val
split_key_val-append k v h kn vn =
    let inside : ((length (k ++ b':' ∷ v) - 1 == length k) || (0 == length k)) ≡ false =
      ground (arith, length-append k (b':' ∷ v), length_pos k kn, length_pos v vn) in
    rw (find_char-append b':' k v h, split_found, inside)
      (ap some (ap₂ (λ (a b : Text). (a, b)) (take-append k (b':' ∷ v)) (drop_key k v b':')))

-- A line that begins with the field's name and a colon yields what follows.
pub keyed-line :
    (field v : Text)
    → All (IsNot b':') field
    → field ≢ []
    → v ≢ []
    → keyed field (field ++ b':' ∷ v) ≡ some v
unfolding keyed
keyed-line field v h fn vn =
    rw (split_key_val-append field v h fn vn, value_of, text_eq_refl field) refl
