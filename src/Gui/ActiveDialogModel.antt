-- ===== src/Gui/ActiveDialogModel.antt =====
-- gui/src/models/active-dialog-messages/activedialogmessagemodel.cpp: the messages of the active
-- dialog. A message is the pointer that the container hands out.
use secure_dialogues.Common.{ℕ, List, [], ◌∷◌, ◌++◌, Text, text_eq, length, if◌then◌else◌}
use secure_dialogues.MessageContainer.{
  Event, active_dialog_changed, message_added, invalidate_data, peek_message,
}
use secure_dialogues.Gui.{Signal, insert_rows, reset_model}

pub record ActiveDialogMessageModel : Type 0 where
  pub rows : List ℕ
  pub active_dialog : Text
  pub signals : List Signal

abbrev pub make_active_dialog_message_model : ActiveDialogMessageModel
make_active_dialog_message_model = record { rows = []; active_dialog = []; signals = [] }

abbrev pub push_row : ℕ → ActiveDialogMessageModel → ActiveDialogMessageModel
push_row message m = record m {
  rows = m.rows ++ message ∷ [];
  signals = m.signals ++ insert_rows (length m.rows) (length m.rows) ∷ [];
}

abbrev pub message_added_to : Text → ℕ → ActiveDialogMessageModel → ActiveDialogMessageModel
message_added_to id message m = if text_eq m.active_dialog id then push_row message m else m

abbrev pub active_dialog_changed_to : Text → ActiveDialogMessageModel → ActiveDialogMessageModel
active_dialog_changed_to id m = record m {
  rows = [];
  signals = m.signals ++ reset_model 0 ∷ [];
  active_dialog = id;
}

abbrev pub peek_of : ℕ → ActiveDialogMessageModel → ActiveDialogMessageModel
peek_of message m = push_row message m

abbrev pub invalidate_data_of : Text → ActiveDialogMessageModel → ActiveDialogMessageModel
invalidate_data_of id m =
    if text_eq id m.active_dialog
    then record m { signals = m.signals ++ reset_model (length m.rows) ∷ [] }
    else m

-- The call of the model that an event is.
abbrev pub handle_event : Event → ActiveDialogMessageModel → ActiveDialogMessageModel
handle_event (active_dialog_changed id) m = active_dialog_changed_to id m
handle_event (message_added id message) m = message_added_to id message m
handle_event (invalidate_data id) m = invalidate_data_of id m
handle_event (peek_message message) m = peek_of message m
