-- ===== src/Gui/DialogRun.antt =====
-- Sequences of what happens to the list of dialogs.
use secure_dialogues.Gui.DialogKept.{
  after, add_found-IsConsistent, change_found-IsConsistent, remove_found_info-IsConsistent,
  changed_contact-IsConsistent, add_unread_at-IsConsistent, select_row-IsConsistent,
}
use secure_dialogues.Common.{
  ◌≡◌, refl, Option, none, some, List, [], ◌∷◌, Text, text_eq, get_elem?, inl, inr, Bool-cases,
}
use secure_dialogues.Common.Int.{ℤ, pos, negsuc}
use secure_dialogues.Common.Result.{ok}
use secure_dialogues.Dialog.{Dialog}
use secure_dialogues.Contacts.{Contact}
use secure_dialogues.Gui.Rows.{find_if}
use secure_dialogues.Gui.DialogModel.{
  DialogUserModel, ContactStorage, has_dialog_id, added_dialog, changed_dialog, removed_dialog,
  changed_contact, unread_added, row_was_selected, make_dialog_user_model,
}
use secure_dialogues.Gui.Selection.{IsConsistent}

-- What the storages, the container and the user do to the model.
pub data DialogOperation : Type 0 where
  add change remove : Dialog → ℤ → DialogOperation
  change_contact : Contact → DialogOperation
  add_message : Text → ℤ → DialogOperation
  select : ℤ → DialogOperation

unfoldable pub run_dialog_operation :
    ContactStorage → DialogOperation → DialogUserModel → DialogUserModel
run_dialog_operation contacts (add d now) m = after (added_dialog contacts d now m) m
run_dialog_operation contacts (change d now) m = changed_dialog d now m
run_dialog_operation contacts (remove d now) m = removed_dialog d now m
run_dialog_operation contacts (change_contact c) m = changed_contact c m
run_dialog_operation contacts (add_message id now) m = unread_added id now m
run_dialog_operation contacts (select row) m = row_was_selected row m

unfoldable pub run_dialog_operations :
    ContactStorage → List DialogOperation → DialogUserModel → DialogUserModel
unfolding run_dialog_operation
run_dialog_operations contacts [] m = m
run_dialog_operations contacts (o ∷ os) m =
    run_dialog_operations contacts os (run_dialog_operation contacts o m)

run_dialog_operation-IsConsistent :
    (contacts : ContactStorage) (o : DialogOperation) (m : DialogUserModel)
    → IsConsistent m
    → IsConsistent (run_dialog_operation contacts o m)
unfolding run_dialog_operation added_dialog changed_dialog removed_dialog unread_added
    row_was_selected
run_dialog_operation-IsConsistent contacts (add d now) m c =
    add_found-IsConsistent d now (contacts d.contact_id) m c
run_dialog_operation-IsConsistent contacts (change d now) m c =
    change_found-IsConsistent d now (find_if (has_dialog_id d.dialog_id) m.dialogs_info) m refl c
run_dialog_operation-IsConsistent contacts (remove d now) m c =
    remove_found_info-IsConsistent d now (find_if (has_dialog_id d.dialog_id) m.dialogs_info) m refl
      c
run_dialog_operation-IsConsistent contacts (change_contact contact) m c =
    changed_contact-IsConsistent contact m c
run_dialog_operation-IsConsistent contacts (add_message id now) m c =
    elim (Bool-cases (text_eq m.active_dialog id)) [
      | inl own ↦ rw own c
      | inr other ↦
          rw other (add_unread_at-IsConsistent now (find_if (has_dialog_id id) m.dialogs_info) m c)
    ]
run_dialog_operation-IsConsistent contacts (select (pos n)) m c =
    select_row-IsConsistent n (get_elem? m.dialogs_info n) m refl c
run_dialog_operation-IsConsistent contacts (select (negsuc n)) m c = c

-- Whatever the storages, the container and the user do to the list of dialogs, in any order: the
-- windows that follow its signals know the number of its rows, the dialog that was announced last as
-- selected is the active one, and the active dialog, unless it is the empty one, is in the list.
pub run_dialog_operations-IsConsistent :
    (contacts : ContactStorage) (os : List DialogOperation) (m : DialogUserModel)
    → IsConsistent m
    → IsConsistent (run_dialog_operations contacts os m)
unfolding run_dialog_operations
run_dialog_operations-IsConsistent contacts [] m c = c
run_dialog_operations-IsConsistent contacts (o ∷ os) m c =
    run_dialog_operations-IsConsistent contacts os (run_dialog_operation contacts o m)
      (run_dialog_operation-IsConsistent contacts o m c)

-- The list of dialogs cannot be made for dialogs that are stored: the function that reads their
-- contacts uses the pointer to the storage after it was moved away, whatever the storage holds. It can
-- be made for no dialogs, and is then consistent.
pub make_dialog_user_model_lem :
    (contacts : Option ContactStorage) (now : ℤ) (d : Dialog) (ds : List Dialog)
    → (make_dialog_user_model contacts now (d ∷ ds) ≡ none)
      × ((m : DialogUserModel) × (make_dialog_user_model contacts now [] ≡ some (ok m))
          × IsConsistent m)
unfolding make_dialog_user_model
make_dialog_user_model_lem contacts now d ds = (
  refl,
  (
    record { dialogs_info = []; active_dialog = []; signals = [] },
    refl,
    record { rows = refl; selected = refl; present = inl refl },
  ),
)
