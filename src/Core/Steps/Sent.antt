-- ===== src/Core/Steps/Sent.antt =====
-- What the user's texts and commands and the timer put into the dialogs.
use secure_dialogues.Common.{
  ◌≡◌, refl, sym, Bool, true, false, inl, inr, ◌⊎◌, Text, Option, is_some, Bool-cases,
}
use secure_dialogues.Common.Maps.{find, text_key}
use secure_dialogues.Common.Result.{state_after, Result-cases}
use secure_dialogues.MessageContainer.{
  MessageContainer, make_user_message, error as status_error, system,
  add_to_active_dialog_with_wrapper, add_shared_message,
}
use secure_dialogues.MessageContainer.Valid.{IsValid}
use secure_dialogues.MessageContainer.Grows.{Entry, Grown, also_pushed, also_wrapped, also_status}
use secure_dialogues.Core.{Environment, World, Contact, save_wrapper}
use secure_dialogues.Dialog.{Dialog}
use secure_dialogues.Listeners.Dialogs.{generate_system_message, is_in_system_message_state}
use secure_dialogues.Core.Steps.Ended.{Told, Told-IsStable, told}
use secure_dialogues.Core.Dispatch.{returned, check_idle}
use secure_dialogues.Core.TextMessages.{send_text, add_error}
use secure_dialogues.Core.DialogActions.{create_dialog, close_dialog, abort_dialog, remove_dialog}
use secure_dialogues.Core.Steps.{IsSent, IsEnded}
use secure_dialogues.Core.Keeps.{IsStable}
use secure_dialogues.Core.Keeps.Actions.{
  create_dialog-Keeps, close_dialog-Keeps, abort_dialog-Keeps, remove_dialog-Keeps,
}
use secure_dialogues.Core.Keeps.Texts.{send_text-Keeps}
use secure_dialogues.Core.Keeps.Dispatching.{check_idle-Keeps}

active_wrapped :
    (text : Text) (c : MessageContainer)
    → (state_after (add_to_active_dialog_with_wrapper text false c)).active_dialog ≡ c.active_dialog
unfolding add_to_active_dialog_with_wrapper
active_wrapped text c = elim (Bool-cases (is_some (find c.active_dialog c.messages))) [
  | inl there ↦ rw (there, add_to_active_dialog_with_wrapper) refl
  | inr missing ↦ rw (missing, add_to_active_dialog_with_wrapper) refl
]

active_noted :
    (d : Dialog) (alive : Bool) (c : MessageContainer)
    → (generate_system_message alive d c).active_dialog ≡ c.active_dialog
unfolding generate_system_message add_shared_message
active_noted d alive c = elim (Bool-cases (is_in_system_message_state d.status)) [
  | inl over ↦ ended over alive
  | inr other ↦ rw other refl
]
  where
    ended :
        is_in_system_message_state d.status ≡ true
        → (b : Bool) → (generate_system_message b d c).active_dialog ≡ c.active_dialog
    ended over true = rw over refl
    ended over false = rw over refl

active_saved :
    ⦃env : Environment⦄
    → (d : Dialog) (w : World env)
    → (save_wrapper d w).1.container.active_dialog ≡ w.container.active_dialog
unfolding save_wrapper
active_saved ⦃env⦄ d w = elim (Result-cases (env.save_dialog d w.dialogs).0) [
  | inl (a, e) ↦ rw e (active_noted d w.container_alive w.container)
  | inr (x, e) ↦ rw e refl
]

module _ ⦃env : Environment⦄ (w : World env) (valid : IsValid w.container) where
  -- What holds of the new messages of these steps is any predicate that the notes about ended dialogs
  -- meet.
  module _ (P : Text → Option Entry → Type 0)
      (ended : (id : Text) (e : Option Entry) → IsEnded w id e → P id e) where
    abbrev Shows : World env → Type 0
    Shows v = Told P w ended v

    stable : IsStable Shows
    stable = Told-IsStable P w ended

    shown : Shows w
    shown = told P w ended valid

    abbrev Adds : World env → Type 0
    Adds v = Grown P w.container v.container

    pub check_idle-Grown : (v : World env) → check_idle w ≡ returned tt v → Adds v
    check_idle-Grown v h =
        (check_idle-Keeps Shows stable
          (λ u alive t c (r, g). (r, also_status P w.container u.container g alive t c)) w v h
          shown).1

    pub create_dialog-Grown :
        (c : Contact) (uiid : Text) → Adds (state_after (create_dialog c uiid w))
    create_dialog-Grown c uiid = (create_dialog-Keeps Shows stable c uiid w shown).1

    pub close_dialog-Grown : (id : Text) → Adds (state_after (close_dialog id w))
    close_dialog-Grown id = (close_dialog-Keeps Shows stable id w shown).1

    pub abort_dialog-Grown : (id : Text) → Adds (state_after (abort_dialog id w))
    abort_dialog-Grown id = (abort_dialog-Keeps Shows stable id w shown).1

    pub remove_dialog-Grown : (id : Text) → Adds (state_after (remove_dialog id w))
    remove_dialog-Grown id = (remove_dialog-Keeps Shows stable id (λ v x i. i) w shown).1

  module _ (text : Text) where
    abbrev IsSentOrEnded : Text → Option Entry → Type 0
    IsSentOrEnded id e = IsSent text w id e ⊎ IsEnded w id e

    ended : (id : Text) (e : Option Entry) → IsEnded w id e → IsSentOrEnded id e
    ended id e h = inr h

    -- The active dialog stays the one that the user writes to.
    abbrev ShowsActive : World env → Type 0
    ShowsActive v =
        (v.container.active_dialog ≡ w.container.active_dialog) × Told IsSentOrEnded w ended v

    ShowsActive-IsStable : IsStable ShowsActive
    ShowsActive-IsStable = record {
      added = λ v d (a, g). (a, (Told-IsStable IsSentOrEnded w ended).added v d g);
      removed = λ v d (a, g). (a, (Told-IsStable IsSentOrEnded w ended).removed v d g);
      network = λ v x i. i;
      repo = λ v x i. i;
      notices = λ v x i. i;
      event_queue = λ v x i. i;
      saved = λ v d (a, g).
          (rw (active_saved d v) a, (Told-IsStable IsSentOrEnded w ended).saved v d g);
    }

    failure_shows :
        (v : World env) (note : Text)
        → ShowsActive v
        → ShowsActive
            (record v { container = add_error w.container.active_dialog note v.container })
    unfolding add_shared_message
    failure_shows v note (a, (r, g)) = (
      a,
      (
        r,
        also_pushed IsSentOrEnded w.container v.container g w.container.active_dialog
            (make_user_message status_error system note) (inl (refl, inr (note, refl))),
      ),
    )

    wrapped_shows :
        (v : World env)
        → ShowsActive v
        → ShowsActive (record v {
          container = state_after (add_to_active_dialog_with_wrapper text false v.container);
        })
    wrapped_shows v (a, (r, g)) = (
      rw (active_wrapped text v.container) a,
      (r, also_wrapped IsSentOrEnded w.container v.container g text (inl (sym a, inl refl))),
    )

    pub send_text-Grown : Grown IsSentOrEnded w.container (state_after (send_text text w)).container
    send_text-Grown =
        (send_text-Keeps ShowsActive ShowsActive-IsStable text wrapped_shows w failure_shows
          (refl, told IsSentOrEnded w ended valid)).1.1
