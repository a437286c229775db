-- ===== src/Gui/DialogSteps.antt =====
-- The changes of the list of dialogs that its operations are made of.
use secure_dialogues.Common.{
  ℕ, ◌≡◌, refl, sym, ◌∙◌, true, List, [], ◌∷◌, ◌++◌, length, length-append, length-modify, modify,
  inl, inr, Bool-cases, arith,
}
use secure_dialogues.Dialog.{active, status_eq}
use secure_dialogues.Gui.{
  insert_rows, data_changed, new_dialog_was_selected, not_valid_dialog_was_selected, rows_told,
}
use secure_dialogues.Gui.RowsTold.{rows_told-append}
use secure_dialogues.Gui.DialogModel.{
  DialogInfo, DialogUserModel, messages_readed, update_active_dialog,
}
use secure_dialogues.Gui.Selection.{
  IsConsistent, last_selected-append, ids, listed, listed-append, ids-append, ids-modify,
}

pub selected-IsConsistent :
    (i : DialogInfo) (m : DialogUserModel)
    → rows_told 0 m.signals ≡ length m.dialogs_info
    → listed i.dialog_id (ids m.dialogs_info) ≡ true
    → IsConsistent (update_active_dialog i m)
selected-IsConsistent i m rows there = elim (Bool-cases (status_eq active i.status)) [
  | inl is_active ↦ rw is_active (record {
    rows = rows_told-append 0 m.signals (new_dialog_was_selected i.dialog_id ∷ []) ∙ rows;
    selected = last_selected-append [] m.signals (new_dialog_was_selected i.dialog_id ∷ []);
    present = inr there;
  })
  | inr other ↦ rw other (record {
    rows = rows_told-append 0 m.signals (not_valid_dialog_was_selected i.dialog_id ∷ []) ∙ rows;
    selected = last_selected-append [] m.signals (not_valid_dialog_was_selected i.dialog_id ∷ []);
    present = inr there;
  })
]

pub same_ids-IsConsistent :
    (xs : List DialogInfo) (m : DialogUserModel)
    → length xs ≡ length m.dialogs_info
    → ids xs ≡ ids m.dialogs_info
    → IsConsistent m
    → IsConsistent (record m { dialogs_info = xs })
same_ids-IsConsistent xs m lengths same c = record {
  rows = c.rows ∙ sym lengths;
  selected = c.selected;
  present = rw same c.present;
}

pub read-IsConsistent :
    (n : ℕ) (m : DialogUserModel)
    → IsConsistent m
    → IsConsistent (record m { dialogs_info = modify messages_readed m.dialogs_info n })
read-IsConsistent n m c =
    same_ids-IsConsistent (modify messages_readed m.dialogs_info n) m
      (length-modify messages_readed m.dialogs_info n)
      (ids-modify messages_readed m.dialogs_info n (λ x e. refl)) c

-- A signal that changes neither the number of rows nor the selection.
pub told-IsConsistent :
    (n : ℕ) (m : DialogUserModel)
    → IsConsistent m
    → IsConsistent (record m { signals = m.signals ++ data_changed n ∷ [] })
told-IsConsistent n m c = record {
  rows = rows_told-append 0 m.signals (data_changed n ∷ []) ∙ c.rows;
  selected = last_selected-append [] m.signals (data_changed n ∷ []) ∙ c.selected;
  present = c.present;
}

-- The list with a dialog at its end, before anything is selected.
abbrev pub appended : DialogInfo → DialogUserModel → DialogUserModel
appended i m = record m {
  dialogs_info = m.dialogs_info ++ i ∷ [];
  signals = m.signals ++ insert_rows (length m.dialogs_info) (length m.dialogs_info) ∷ [];
}

pub appended-IsConsistent :
    (i : DialogInfo) (m : DialogUserModel) → IsConsistent m → IsConsistent (appended i m)
appended-IsConsistent i m c =
    let s = insert_rows (length m.dialogs_info) (length m.dialogs_info) ∷ [] in
    record {
      rows =
          rows_told-append 0 m.signals s
          ∙ rw (c.rows, length-append m.dialogs_info (i ∷ [])) (omega arith);
      selected = last_selected-append [] m.signals s ∙ c.selected;
      present = elim c.present [
        | inl e ↦ inl e
        | inr there ↦ inr (
            rw (ids-append m.dialogs_info i)
              (listed-append m.active_dialog i.dialog_id (ids m.dialogs_info) there))
      ];
    }
