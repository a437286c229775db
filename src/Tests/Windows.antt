-- ===== src/Tests/Windows.antt =====
-- Runs of gui/src/models.
use secure_dialogues.Common.{
  ℕ, ◌≡◌, refl, true, false, some, List, [], ◌∷◌, Text, codes, text_eq, inl, inr,
}
use secure_dialogues.Common.Int.{pos}
use secure_dialogues.Common.Result.{ok}
use secure_dialogues.Common.Maps.{find, insert, erase, text_lt}
use secure_dialogues.Dialog.{make_dialog, active, closed}
use secure_dialogues.Contacts.{ConnectionHolder, make_connection_holder}
use secure_dialogues.Core.{connected}
use secure_dialogues.MessageContainer.{
  MessageContainer, empty_container, message_of, active_dialog_changed, peek_message,
  set_active_dialog, add_message, add_shared_message, remove_dialog, add_message_to_activedialog,
  peek_found, activate_first,
}
use secure_dialogues.MessageContainer.Run.{
  Operation, run_operation, run_operations, set_active, add, add_active, remove,
}
use secure_dialogues.Gui.InSync.{InSync}
use secure_dialogues.Gui.Shown.{run_operations-InSync}
use secure_dialogues.Gui.DialogModel.{DialogUserModel, ContactStorage}
use secure_dialogues.Gui.Selection.{IsConsistent}
use secure_dialogues.Gui.DialogRun.{
  DialogOperation, run_dialog_operations, run_dialog_operations-IsConsistent,
}
use secure_dialogues.Gui.ChannelsModel.{ChannelsListModel}
use secure_dialogues.Gui.ChannelsRun.{
  ChannelOperation, run_channel_operations, run_channel_operations-names, names, names_after,
}
use secure_dialogues.Gui.RowsTold.{Told}
use secure_dialogues.Tests.Environments.{bob}

-- A container with one window, and what the user and a peer do.
abbrev watched : MessageContainer
watched = record empty_container { event_handlers = 7 ∷ [] }

abbrev chat : List Operation
chat =
    add (codes "d") (codes "hi") true
    ∷ set_active (codes "d")
    ∷ add_active (codes "yo") false
    ∷ add (codes "e") (codes "oh") true
    ∷ remove (codes "d")
    ∷ []

run_operations-InSync_example : InSync 7 (run_operations chat watched)
unfolding run_operation run_operations add_message add_shared_message set_active_dialog peek_found
    add_message_to_activedialog remove_dialog activate_first find insert erase text_eq text_lt
run_operations-InSync_example =
    run_operations-InSync 7 chat watched (tt, (refl, (tt, (tt, (inr refl, tt)))))
      (refl, (refl, refl))

abbrev showing : MessageContainer
showing = record {
  messages = (codes "d", 0 ∷ []) ∷ [];
  active_dialog = codes "d";
  event_handlers = 7 ∷ [];
  heap = message_of (codes "hi") true ∷ [];
  events = (7, active_dialog_changed (codes "d")) ∷ (7, peek_message 0) ∷ [];
}

abbrev all_bob : ContactStorage
all_bob id = ok bob

abbrev no_dialogs : DialogUserModel
no_dialogs = record { dialogs_info = []; active_dialog = []; signals = [] }

abbrev day : List DialogOperation
day =
    DialogOperation.add (make_dialog (codes "c") (codes "d") 0 1 active) (pos 5)
    ∷ DialogOperation.add (make_dialog (codes "c") (codes "e") 0 1 closed) (pos 6)
    ∷ DialogOperation.select (pos 1)
    ∷ DialogOperation.add_message (codes "d") (pos 7)
    ∷ DialogOperation.remove (make_dialog (codes "c") (codes "e") 0 1 closed) (pos 8)
    ∷ []

run_dialog_operations-IsConsistent_example :
    IsConsistent (run_dialog_operations all_bob day no_dialogs)
run_dialog_operations-IsConsistent_example =
    run_dialog_operations-IsConsistent all_bob day no_dialogs
      (record { rows = refl; selected = refl; present = inl refl })

abbrev plugged : Text → ConnectionHolder ℕ
plugged name = make_connection_holder name (some 5)

abbrev no_channels : ChannelsListModel ℕ
no_channels = record { rows = []; signals = [] }

abbrev busy : List (ChannelOperation ℕ)
busy =
    ChannelOperation.add (plugged (codes "mail"))
    ∷ ChannelOperation.add (plugged (codes "udp"))
    ∷ ChannelOperation.update connected (codes "udp") []
    ∷ ChannelOperation.remove (plugged (codes "mail"))
    ∷ []

run_channel_operations-names_example :
    (end : ChannelsListModel ℕ) × (run_channel_operations
        (λ s. s)
        (λ i. codes "smtp")
        (λ id. some 3)
        busy
        no_channels
      ≡ some end)
    × Told 0 end
    × (names end.rows ≡ names_after (λ s. s) busy [])
run_channel_operations-names_example =
    run_channel_operations-names (λ s. s) (λ i. codes "smtp") (λ id. some 3) 0 busy no_channels
      ((5, refl), ((5, refl), tt)) refl
