-- ===== src/Gui/SortModel.antt =====
-- gui/src/models/dialogs-list/dialogsortmodel.cpp: the order in which the list of dialogs is shown. The
-- rows are those of the list, whose data are always a `DialogInfo`.
use secure_dialogues.Common.{ℕ, ◌==◌, ◌||◌, Bool, ltb, if◌then◌else◌}
use secure_dialogues.Common.Int.{ltb_ℤ}
use secure_dialogues.Dialog.{
  Status, new, create_request, wait_confirm, accepted_wait, wait_key_verification, active, closed,
  aborted, status_eq,
}
use secure_dialogues.Gui.DialogModel.{DialogInfo}

unfoldable pub get_rating : Status → ℕ
get_rating s =
    if status_eq s active
    then 1
    else if status_eq s new || status_eq s create_request
    then 2
    else if status_eq s wait_confirm
        || (status_eq s accepted_wait || status_eq s wait_key_verification)
    then 3
    else if status_eq s closed || status_eq s aborted
    then 4
    else 10

unfoldable pub less_than : DialogInfo → DialogInfo → Bool
less_than left right =
    if get_rating left.status == get_rating right.status
    then ltb_ℤ left.last_updated right.last_updated
    else ltb (get_rating right.status) (get_rating left.status)
