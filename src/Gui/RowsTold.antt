-- ===== src/Gui/RowsTold.antt =====
-- A window that follows the signals of a list model knows how many rows it has.
use secure_dialogues.Common.{
  ℕ, zero, suc, ◌+◌, ◌-◌, ◌<◌, ◌≡◌, refl, ◌∙◌, Bool, true, Option, none, some, List, [], ◌∷◌, ◌++◌,
  length, length-append, length-modify, inl, inr, Bool-cases, Option-cases, arith, get_elem?,
}
use secure_dialogues.Gui.{
  Signal, insert_rows, remove_rows, reset_model, data_changed, new_dialog_was_selected,
  not_valid_dialog_was_selected, rows_told,
}
use secure_dialogues.Gui.Rows.{
  Rows, find_if, erase_at, append_row, remove_row, remove_and_reset, change_row,
}

pub rows_told-append :
    (n : ℕ) (xs ys : List Signal) → rows_told n (xs ++ ys) ≡ rows_told (rows_told n xs) ys
rows_told-append n [] ys = refl
rows_told-append n (insert_rows first last ∷ xs) ys =
    rows_told-append (n + suc (last - first)) xs ys
rows_told-append n (remove_rows first last ∷ xs) ys =
    rows_told-append (n - suc (last - first)) xs ys
rows_told-append n (reset_model rows ∷ xs) ys = rows_told-append rows xs ys
rows_told-append n (data_changed row ∷ xs) ys = rows_told-append n xs ys
rows_told-append n (new_dialog_was_selected id ∷ xs) ys = rows_told-append n xs ys
rows_told-append n (not_valid_dialog_was_selected id ∷ xs) ys = rows_told-append n xs ys

pub find_if_lt :
    {A : Type 0} (p : A → Bool) (xs : List A) (i : ℕ) → find_if p xs ≡ some i → i < length xs
unfolding find_if
find_if_lt p [] i h = cc
find_if_lt p (x ∷ xs) i h = elim (Bool-cases (p x)) [
  | inl here ↦ ground (arith, here, h)
  | inr other ↦ elim (Option-cases (find_if p xs)) [
    | inl missing ↦ ground (arith, other, missing, h)
    | inr (j, there) ↦ ground (arith, other, there, h, find_if_lt p xs j there)
  ]
]

find_if-suc :
    {A : Type 0} (p : A → Bool) (x : A) (xs : List A) (n : ℕ)
    → find_if p (x ∷ xs) ≡ some (suc n)
    → find_if p xs ≡ some n
unfolding find_if
find_if-suc p x xs n h = elim (Bool-cases (p x)) [
  | inl here ↦ ground (arith, here, h)
  | inr other ↦ elim (Option-cases (find_if p xs)) [
    | inl missing ↦ ground (arith, other, missing, h)
    | inr (j, there) ↦ ground (arith, other, there, h)
  ]
]

find_if_zero :
    {A : Type 0} (p : A → Bool) (x : A) (xs : List A) → find_if p (x ∷ xs) ≡ some 0 → p x ≡ true
unfolding find_if
find_if_zero p x xs h = elim (Bool-cases (p x)) [
  | inl here ↦ here
  | inr other ↦ elim (Option-cases (find_if p xs)) [
    | inl missing ↦ ground (arith, other, missing, h)
    | inr (j, there) ↦ ground (arith, other, there, h)
  ]
]

-- The element that `find_if` found passes the test.
pub find_if_holds :
    {A : Type 0} (p : A → Bool) (xs : List A) (n : ℕ)
    → find_if p xs ≡ some n
    → (x : A) × (get_elem? xs n ≡ some x) × (p x ≡ true)
unfolding find_if
find_if_holds p [] n h = cc
find_if_holds p (x ∷ xs) zero h = (x, refl, find_if_zero p x xs h)
find_if_holds p (x ∷ xs) (suc n) h = find_if_holds p xs n (find_if-suc p x xs n h)

pub length-erase_at :
    {A : Type 0} (xs : List A) (i : ℕ) → i < length xs → length (erase_at xs i) ≡ length xs - 1
unfolding erase_at
length-erase_at [] i h = absurd (omega (arith, h))
length-erase_at (x ∷ xs) zero h = omega arith
length-erase_at (x ∷ xs) (suc i) h = omega (arith, h, length-erase_at xs i (omega (arith, h)))

-- `first`: the number of rows when the window was attached.
abbrev pub Told : {A : Type 0} → ℕ → Rows A → Type 0
Told first m = rows_told first m.signals ≡ length m.rows

module _ {A : Type 0} (first : ℕ) (m : Rows A) (told : Told first m) where
  pub append_row-Told : (a : A) → Told first (append_row a m)
  append_row-Told a =
      rows_told-append first m.signals (insert_rows (length m.rows) (length m.rows) ∷ [])
      ∙ rw (told, length-append m.rows (a ∷ [])) (omega arith)

  pub remove_row-Told : (p : A → Bool) → Told first (remove_row (find_if p m.rows) m)
  remove_row-Told p = elim (Option-cases (find_if p m.rows)) [
    | inl missing ↦ rw missing told
    | inr (i, found) ↦ rw found (
        rows_told-append first m.signals (remove_rows i i ∷ [])
        ∙ rw (told, length-erase_at m.rows i (find_if_lt p m.rows i found)) (omega arith))
  ]

  pub remove_and_reset-Told : (o : Option ℕ) → Told first (remove_and_reset o m)
  remove_and_reset-Told none = told
  remove_and_reset-Told (some i) =
      rows_told-append first m.signals (reset_model (length (erase_at m.rows i)) ∷ [])

  pub change_row-Told : (f : A → A) (o : Option ℕ) → Told first (change_row f o m)
  change_row-Told f none = told
  change_row-Told f (some i) =
      rows_told-append first m.signals (data_changed i ∷ [])
      ∙ rw (told, length-modify f m.rows i) refl
