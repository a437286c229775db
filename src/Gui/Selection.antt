-- ===== src/Gui/Selection.antt =====
-- The dialog that is selected in the list of dialogs.
use secure_dialogues.Common.{
  ℕ, zero, suc, ◌≡◌, refl, ap, sym, ◌∙◌, Bool, true, false, ◌||◌, some, List, [], ◌∷◌, ◌++◌, map,
  Text, text_eq, text_eq_refl, text_eq_iff, length, modify, get_elem?, ◌⊎◌, arith,
}
use secure_dialogues.Common.Int.{ℤ}
use secure_dialogues.Dialog.{Dialog}
use secure_dialogues.Gui.{
  Signal, insert_rows, remove_rows, reset_model, data_changed, new_dialog_was_selected,
  not_valid_dialog_was_selected, rows_told,
}
use secure_dialogues.Gui.Rows.{find_if}
use secure_dialogues.Gui.RowsTold.{find_if_holds}
use secure_dialogues.Gui.DialogModel.{
  assign_info, erase_info, DialogInfo, DialogUserModel, assign_dialog, has_dialog_id,
}

-- The dialog that the signals selected last.
abbrev pub last_selected : Text → List Signal → Text
last_selected id [] = id
last_selected id (new_dialog_was_selected j ∷ rest) = last_selected j rest
last_selected id (not_valid_dialog_was_selected j ∷ rest) = last_selected j rest
last_selected id (insert_rows first last ∷ rest) = last_selected id rest
last_selected id (remove_rows first last ∷ rest) = last_selected id rest
last_selected id (reset_model rows ∷ rest) = last_selected id rest
last_selected id (data_changed row ∷ rest) = last_selected id rest

abbrev pub ids : List DialogInfo → List Text
ids infos = map DialogInfo.dialog_id infos

abbrev pub listed : Text → List Text → Bool
listed id [] = false
listed id (j ∷ js) = text_eq id j || listed id js

-- The windows know the number of the dialogs, the dialog that was announced last is the active one,
-- and it is in the list unless it is the empty one.
pub record IsConsistent (m : DialogUserModel) : Type 0 where
  pub rows : rows_told 0 m.signals ≡ length m.dialogs_info
  pub selected : last_selected [] m.signals ≡ m.active_dialog
  pub present : (m.active_dialog ≡ []) ⊎ (listed m.active_dialog (ids m.dialogs_info) ≡ true)

pub some_inj : {x y : DialogInfo} → some x ≡ some y → x ≡ y
some_inj e = cc

pub last_selected-append :
    (id : Text) (xs ys : List Signal)
    → last_selected id (xs ++ ys) ≡ last_selected (last_selected id xs) ys
last_selected-append id [] ys = refl
last_selected-append id (new_dialog_was_selected j ∷ xs) ys = last_selected-append j xs ys
last_selected-append id (not_valid_dialog_was_selected j ∷ xs) ys = last_selected-append j xs ys
last_selected-append id (insert_rows first last ∷ xs) ys = last_selected-append id xs ys
last_selected-append id (remove_rows first last ∷ xs) ys = last_selected-append id xs ys
last_selected-append id (reset_model rows ∷ xs) ys = last_selected-append id xs ys
last_selected-append id (data_changed row ∷ xs) ys = last_selected-append id xs ys

pub listed-append :
    (id j : Text) (js : List Text) → listed id js ≡ true → listed id (js ++ j ∷ []) ≡ true
listed-append id j [] h = cc
listed-append id j (k ∷ ks) h = ground (arith, h, listed-append id j ks)

pub ids-append :
    (xs : List DialogInfo) (i : DialogInfo) → ids (xs ++ i ∷ []) ≡ ids xs ++ i.dialog_id ∷ []
ids-append [] i = refl
ids-append (x ∷ xs) i = rw (ids-append xs i) refl

pub ids-modify :
    (f : DialogInfo → DialogInfo) (xs : List DialogInfo) (n : ℕ)
    → ((x : DialogInfo) → get_elem? xs n ≡ some x → (f x).dialog_id ≡ x.dialog_id)
    → ids (modify f xs n) ≡ ids xs
ids-modify f [] n same = refl
ids-modify f (x ∷ xs) zero same = rw (same x refl) refl
ids-modify f (x ∷ xs) (suc n) same = rw (ids-modify f xs n same) refl

pub ids-map :
    (f : DialogInfo → DialogInfo) (xs : List DialogInfo)
    → ((i : DialogInfo) → (f i).dialog_id ≡ i.dialog_id)
    → ids (map f xs) ≡ ids xs
ids-map f [] same = refl
ids-map f (x ∷ xs) same = rw (same x, ids-map f xs same) refl

pub ids-assign_dialog :
    (d : Dialog) (now : ℤ) (xs : List DialogInfo) (n : ℕ)
    → find_if (has_dialog_id d.dialog_id) xs ≡ some n
    → ids (modify (assign_dialog d now) xs n) ≡ ids xs
ids-assign_dialog d now xs n found =
    let (x, there, same) = find_if_holds (has_dialog_id d.dialog_id) xs n found in
    ids-modify (assign_dialog d now) xs n (λ y e.
      (text_eq_iff d.dialog_id x.dialog_id).0 same
      ∙ ap DialogInfo.dialog_id (some_inj (sym there ∙ e)))

pub listed-erase_info :
    (now : ℤ) (a : Text) (xs : List DialogInfo) (n : ℕ)
    → ((x : DialogInfo) → get_elem? xs n ≡ some x → text_eq a x.dialog_id ≡ false)
    → listed a (ids (erase_info now xs n)) ≡ listed a (ids xs)
unfolding erase_info
listed-erase_info now a [] n other = refl
listed-erase_info now a (x ∷ xs) zero other =
    rw (other x refl, ids-map (assign_info now) xs (λ i. refl)) refl
listed-erase_info now a (x ∷ xs) (suc n) other = rw (listed-erase_info now a xs n other) refl

pub listed-get_elem? :
    (xs : List DialogInfo) (n : ℕ) (i : DialogInfo)
    → get_elem? xs n ≡ some i
    → listed i.dialog_id (ids xs) ≡ true
listed-get_elem? [] n i h = cc
listed-get_elem? (x ∷ xs) zero i h =
    rw (ap DialogInfo.dialog_id (some_inj h), text_eq_refl i.dialog_id) refl
listed-get_elem? (x ∷ xs) (suc n) i h = ground (arith, listed-get_elem? xs n i h)
