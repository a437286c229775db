-- ===== src/Gui.antt =====
-- gui/src/models: the list models that the windows show, and what they tell Qt. The Qt classes are not
-- modelled: `beginInsertRows` with `endInsertRows` and the other pairs are entries of a list of
-- signals. Nothing that the models call back runs between the two calls of a pair, so a pair is one
-- entry; a reset holds the number of rows that the windows read at its end.
use secure_dialogues.Common.{ℕ, List, [], ◌∷◌, ◌++◌, Text, ◌+◌, ◌-◌, suc}
pub mod ActiveDialogModel
pub mod DialogModel
pub mod ChannelsModel
pub mod ChannelsRun
pub mod InSync
pub mod Following
pub mod Shown
pub mod Rows
pub mod ConnectionModels
pub mod RowsTold
pub mod Selection
pub mod DialogKept
pub mod DialogSteps
pub mod DialogRun
pub mod SortModel
pub mod Sorted
pub mod DiscoveredSaved
pub mod SavedOrKept
pub mod Commands

pub data Signal : Type 0 where
  insert_rows remove_rows : ℕ → ℕ → Signal
  reset_model : ℕ → Signal
  data_changed : ℕ → Signal
  new_dialog_was_selected not_valid_dialog_was_selected : Text → Signal

-- The number of rows that a window which follows the signals knows.
abbrev pub rows_told : ℕ → List Signal → ℕ
rows_told n [] = n
rows_told n (insert_rows first last ∷ rest) = rows_told (n + suc (last - first)) rest
rows_told n (remove_rows first last ∷ rest) = rows_told (n - suc (last - first)) rest
rows_told n (reset_model rows ∷ rest) = rows_told rows rest
rows_told n (data_changed row ∷ rest) = rows_told n rest
rows_told n (new_dialog_was_selected id ∷ rest) = rows_told n rest
rows_told n (not_valid_dialog_was_selected id ∷ rest) = rows_told n rest
