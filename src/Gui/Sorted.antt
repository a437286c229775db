-- ===== src/Gui/Sorted.antt =====
-- The order in which the list of dialogs is shown.
use secure_dialogues.Common.{◌≡◌, refl, true, false, not, ◌&&◌, ltb, ◌==◌, arith, if◌then◌else◌}
use secure_dialogues.Dialog.{
  Status, active, new, create_request, wait_confirm, accepted_wait, wait_key_verification, closed,
  aborted, status_eq,
}
use secure_dialogues.Gui.DialogModel.{DialogInfo}
use secure_dialogues.Gui.SortModel.{less_than, get_rating}

get_rating_active :
    (s : Status) → (if status_eq s active then get_rating s == 1 else ltb 1 (get_rating s)) ≡ true
unfolding get_rating
get_rating_active new = refl
get_rating_active create_request = refl
get_rating_active wait_confirm = refl
get_rating_active accepted_wait = refl
get_rating_active wait_key_verification = refl
get_rating_active active = refl
get_rating_active closed = refl
get_rating_active aborted = refl

-- The comparison of rows is what sorting asks for: no row is less than itself, of two rows only one is
-- less than the other, and both to be less and not to be less are transitive. A row of a dialog that is
-- not active is less than every row of an active one.
pub less_than_lem :
    (a b c : DialogInfo)
    → (less_than a a ≡ false)
      × ((less_than a b && less_than b a) ≡ false)
      × ((if less_than a b && less_than b c then less_than a c else true) ≡ true)
      × ((less_than a c && (not (less_than a b) && not (less_than b c))) ≡ false)
      × ((if status_eq b.status active && not (status_eq a.status active)
            then less_than a b
            else true)
          ≡ true)
unfolding less_than
less_than_lem a b c = (
  ground arith,
  ground arith,
  ground arith,
  ground arith,
  ground (arith, get_rating_active a.status, get_rating_active b.status),
)
