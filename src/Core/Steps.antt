-- ===== src/Core/Steps.antt =====
-- The steps of the program as the core sees them, and what explains the messages that a step puts into
-- the dialogs.
use secure_dialogues.Common.{◌≡◌, Bool, true, false, Option, some, ◌⊎◌, Text}
use secure_dialogues.Common.Int.{pos, ◌-ℤ◌, ltb_ℤ}
use secure_dialogues.Common.Result.{ok, state_after}
use secure_dialogues.DialogMessage.{DialogMessage, message, action_eq, max_timestamp_diff}
use secure_dialogues.MessageContainer.{income, outcome, system}
use secure_dialogues.MessageContainer.Grows.{Entry}
use secure_dialogues.Dialog.{Dialog, aborted as aborted_status, closed as closed_status}
use secure_dialogues.Listeners.Dialogs.{get_message}
use secure_dialogues.Core.{Environment, World, Contact}
use secure_dialogues.Core.Dispatch.{returned, dispatch, check_idle}
use secure_dialogues.Core.TextMessages.{send_text, set_active_dialog}
use secure_dialogues.Core.DialogActions.{create_dialog, close_dialog, abort_dialog, remove_dialog}
pub mod Ended
pub mod Received
pub mod Sent

module _ ⦃env : Environment⦄ where
  -- One step from a world to the next: a message is dispatched, the timer looks for messages that were
  -- not acknowledged, the user writes a text, chooses a dialog or gives a command, or another part of
  -- the program changes its state: any of the world but the dialogs' messages and the active dialog,
  -- which only the core changes.
  pub data Step (w v : World env) : Type 0 where
    received :
        (m : DialogMessage) (channel : Text) → dispatch m channel w ≡ returned tt v → Step w v
    idle : check_idle w ≡ returned tt v → Step w v
    sent : (text : Text) → v ≡ state_after (send_text text w) → Step w v
    chosen : (id : Text) → v ≡ state_after (set_active_dialog id w) → Step w v
    created : (c : Contact) (uiid : Text) → v ≡ state_after (create_dialog c uiid w) → Step w v
    closed : (id : Text) → v ≡ state_after (close_dialog id w) → Step w v
    aborted : (id : Text) → v ≡ state_after (abort_dialog id w) → Step w v
    removed : (id : Text) → v ≡ state_after (remove_dialog id w) → Step w v
    elsewhere :
        v.container.messages ≡ w.container.messages
        → v.container.heap ≡ w.container.heap
        → v.container.active_dialog ≡ w.container.active_dialog
        → Step w v

  pub data Run (w : World env) : World env → Type 0 where
    start : Run w w
    next : {u v : World env} → Run w u → Step u v → Run w v

  -- The message may be handled as a text: its action is MESSAGE, the crypto system accepts its
  -- signature, and it is not too old.
  abbrev pub IsAccepted : DialogMessage → World env → Type 0
  IsAccepted m w =
      (action_eq m.action message ≡ true)
      × (env.is_signature_ok m w.crypto ≡ ok true)
      × (ltb_ℤ (pos max_timestamp_diff) (w.timestamp -ℤ m.timestamp) ≡ false)

  -- What the peer wrote, or the note that the handling of the message failed.
  abbrev pub IsReceived : DialogMessage → World env → Text → Option Entry → Type 0
  IsReceived m w id e =
      (m.dialog_id ≡ id)
      × IsAccepted m w
      × (((text : Text) × (e ≡ some (income, text))
            × (env.decrypt_message_body m.dialog_id m.content w.crypto ≡ ok text))
          ⊎ ((text : Text) × (e ≡ some (system, text))))

  -- What the user wrote, or the note that it could not be sent.
  abbrev pub IsSent : Text → World env → Text → Option Entry → Type 0
  IsSent text w id e =
      (w.container.active_dialog ≡ id)
      × ((e ≡ some (outcome, text)) ⊎ ((note : Text) × (e ≡ some (system, note))))

  -- The second state of the storage of dialogs comes from the first by additions, savings and removals.
  pub data Reached (a : env.Dialogs) : env.Dialogs → Type 0 where
    unchanged : Reached a a
    with_added :
        {b c : env.Dialogs} → Reached a b → (d : Dialog) → c ≡ (env.add_dialog d b).1 → Reached a c
    with_saved :
        {b c : env.Dialogs} → Reached a b → (d : Dialog) → c ≡ (env.save_dialog d b).1 → Reached a c
    without :
        {b c : env.Dialogs}
        → Reached a b
        → (d : Dialog) → c ≡ (env.remove_dialog d b).1
        → Reached a c

  -- The note of the system about a dialog that the storage, as the step brings it about, saves as
  -- aborted or as closed.
  abbrev pub IsEnded : World env → Text → Option Entry → Type 0
  IsEnded w id e =
      (d : Dialog) × (dialogs : env.Dialogs) × Reached w.dialogs dialogs
      × ((env.save_dialog d dialogs).0 ≡ ok tt)
      × (d.dialog_id ≡ id)
      × ((d.status ≡ aborted_status) ⊎ (d.status ≡ closed_status))
      × (e ≡ some (system, get_message d.status))

  -- A new message of a dialog that the step explains; choosing a dialog and the other parts of the
  -- program explain none.
  abbrev pub IsExplained : {w v : World env} → Step w v → Text → Option Entry → Type 0
  IsExplained {w} (received m channel e) id entry = IsReceived m w id entry ⊎ IsEnded w id entry
  IsExplained {w} (sent text e) id entry = IsSent text w id entry ⊎ IsEnded w id entry
  IsExplained (chosen id e) j entry = ⊥
  IsExplained (elsewhere ms heap a) id entry = ⊥
  IsExplained {w} _ id entry = IsEnded w id entry

  abbrev pub IsExplainedIn : {w v : World env} → Run w v → Text → Option Entry → Type 0
  IsExplainedIn start id entry = ⊥
  IsExplainedIn (next r s) id entry = IsExplainedIn r id entry ⊎ IsExplained s id entry
