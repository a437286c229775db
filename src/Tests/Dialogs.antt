-- ===== src/Tests/Dialogs.antt =====
-- Runs of messages/src/primitives/dialog.cpp and dialogstatemachine.cpp.
use secure_dialogues.Common.{◌≡◌, ◌≤◌, ◌⊎◌, refl, [], ◌∷◌, codes}
use secure_dialogues.Dialog.{
  Dialog, make_dialog, new_dialog, create_request, wait_confirm, wait_key_verification, active,
  closed, aborted,
}
use secure_dialogues.Dialog.Lifecycle.{set_statuses, changes, changes_le, create_request_stuck}
use secure_dialogues.Dialog.Sequence.{accepted, Increasing, accepted-Increasing}

abbrev request_dialog : Dialog
request_dialog = make_dialog (codes "c") (codes "d") 4 9 create_request

abbrev fresh_dialog : Dialog
fresh_dialog = new_dialog (codes "c") (codes "d") 9

changes_le_example :
    changes fresh_dialog (wait_confirm ∷ wait_confirm ∷ active ∷ closed ∷ aborted ∷ []) ≤ 4
changes_le_example =
    changes_le fresh_dialog (wait_confirm ∷ wait_confirm ∷ active ∷ closed ∷ aborted ∷ [])

create_request_stuck_example :
    ((set_statuses request_dialog (wait_key_verification ∷ active ∷ [])).status ≡ create_request)
    ⊎ ((set_statuses request_dialog (wait_key_verification ∷ active ∷ [])).status ≡ aborted)
create_request_stuck_example =
    create_request_stuck request_dialog (wait_key_verification ∷ active ∷ []) refl
      (λ e. cc, (λ e. cc, tt))

accepted-Increasing_example : Increasing 4 (accepted request_dialog (5 ∷ 5 ∷ 3 ∷ 8 ∷ 7 ∷ []))
accepted-Increasing_example = accepted-Increasing request_dialog (5 ∷ 5 ∷ 3 ∷ 8 ∷ 7 ∷ [])
