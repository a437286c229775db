-- ===== src/Gui/Rows.antt =====
-- The part that the list models have in common: rows, and the signals about them.
use secure_dialogues.Common.{
  ℕ, zero, suc, Bool, Option, none, some, List, [], ◌∷◌, ◌++◌, length, modify, if◌then◌else◌,
}
use secure_dialogues.Gui.{Signal, insert_rows, remove_rows, reset_model, data_changed}

-- `std::find_if`, as the distance from the first element.
unfoldable pub find_if {ℓ} : {A : Type ℓ} → (A → Bool) → List A → Option ℕ
find_if p [] = none
find_if p (x ∷ xs) =
    if p x then some 0 else elim (find_if p xs) [ none ↦ none | some i ↦ some (suc i) ]

unfoldable pub erase_at {ℓ} : {A : Type ℓ} → List A → ℕ → List A
erase_at [] i = []
erase_at (x ∷ xs) zero = xs
erase_at (x ∷ xs) (suc i) = x ∷ erase_at xs i

pub record Rows (A : Type 0) : Type 0 where
  pub rows : List A
  pub signals : List Signal

module _ {A : Type 0} where
  abbrev pub append_row : A → Rows A → Rows A
  append_row a m = record {
    rows = m.rows ++ a ∷ [];
    signals = m.signals ++ insert_rows (length m.rows) (length m.rows) ∷ [];
  }

  abbrev pub remove_row : Option ℕ → Rows A → Rows A
  remove_row none m = m
  remove_row (some i) m = record {
    rows = erase_at m.rows i;
    signals = m.signals ++ remove_rows i i ∷ [];
  }

  -- The removal that resets the model.
  abbrev pub remove_and_reset : Option ℕ → Rows A → Rows A
  remove_and_reset none m = m
  remove_and_reset (some i) m = record {
    rows = erase_at m.rows i;
    signals = m.signals ++ reset_model (length (erase_at m.rows i)) ∷ [];
  }

  abbrev pub change_row : (A → A) → Option ℕ → Rows A → Rows A
  change_row f none m = m
  change_row f (some i) m = record {
    rows = modify f m.rows i;
    signals = m.signals ++ data_changed i ∷ [];
  }
