-- ===== src/Tests/Lists.antt =====
-- Runs of the sorting of dialogs, of the saving of a discovered contact, and of a plugin's adapter.
use secure_dialogues.Common.{ℕ, ◌≡◌, refl, true, false, not, ◌&&◌, codes, if◌then◌else◌}
use secure_dialogues.Common.Int.{pos}
use secure_dialogues.Common.Result.{ok}
use secure_dialogues.Dialog.{make_dialog, Status, active, closed}
use secure_dialogues.Gui.DialogModel.{DialogInfo, make_dialog_info}
use secure_dialogues.Gui.SortModel.{less_than}
use secure_dialogues.Gui.Sorted.{less_than_lem}
use secure_dialogues.Gui.DiscoveredSaved.{save_to_contact}
use secure_dialogues.Gui.SavedOrKept.{save_to_contact_lem}
use secure_dialogues.Tests.Environments.{bob}

abbrev row : Status → ℕ → DialogInfo
row s n = make_dialog_info (make_dialog (codes "c") (codes "d") 0 1 s) bob (pos n)

less_than_lem_example :
    (less_than (row closed 3) (row closed 3) ≡ false)
    × ((less_than (row closed 3) (row active 1) && less_than (row active 1) (row closed 3)) ≡ false)
    × ((if less_than (row closed 3) (row active 1) && less_than (row active 1) (row active 2)
          then less_than (row closed 3) (row active 2)
          else true)
        ≡ true)
    × ((less_than (row closed 3) (row active 2)
          && (not (less_than (row closed 3) (row active 1))
              && not (less_than (row active 1) (row active 2))))
        ≡ false)
    × (less_than (row closed 3) (row active 1) ≡ true)
less_than_lem_example = less_than_lem (row closed 3) (row active 1) (row active 2)

-- The storages hold one thing or not; the discovered contact is gone already.
save_to_contact_lem_example :
    save_to_contact
      (λ c s. (ok true, true))
      (λ id s. (ok true, false))
      (λ id s. (ok false, s))
      bob
      (codes "d")
      (false, false)
    ≡ (ok false, (false, false))
save_to_contact_lem_example =
    save_to_contact_lem (λ c s. (ok true, true)) (λ id s. (ok true, false)) (λ id s. (ok false, s))
      bob (codes "d") false true false false true false refl refl (λ e. cc) (λ e. refl) (λ e. refl)
