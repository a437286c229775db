-- ===== src/Core/Steps/Ended.antt =====
-- The notes of the system about the ends of dialogs, which the saving of a dialog adds.
use secure_dialogues.Common.{
  ◌≡◌, refl, Bool, true, false, ◌&&◌, inl, inr, ◌⊎◌, Text, Option, Bool-cases, if◌then◌else◌,
}
use secure_dialogues.Common.Result.{ok, Result-cases}
use secure_dialogues.Dialog.{Dialog, Status, closed, aborted}
use secure_dialogues.Listeners.Dialogs.{
  is_in_system_message_state, generate_system_message, add_system_message, get_message,
}
use secure_dialogues.MessageContainer.{
  MessageContainer, add_shared_message, make_user_message, deliveried, system,
}
use secure_dialogues.MessageContainer.Grows.{Entry, Grown, Grown-same, also_pushed}
use secure_dialogues.Core.{Environment, World, save_wrapper}
use secure_dialogues.Core.Steps.{IsEnded, Reached, unchanged, with_added, with_saved, without}
use secure_dialogues.Core.Keeps.{IsStable}
use secure_dialogues.MessageContainer.Valid.{IsValid}

ended_status : (s : Status) → is_in_system_message_state s ≡ true → (s ≡ aborted) ⊎ (s ≡ closed)
ended_status aborted h = inl refl
ended_status closed h = inr refl
ended_status _ h = cc h

module _ ⦃env : Environment⦄ (P : Text → Option Entry → Type 0) (w0 : World env)
    (ended : (id : Text) (e : Option Entry) → IsEnded w0 id e → P id e) where
  -- The storage is brought about from the one at the start, and the dialogs have grown since.
  abbrev pub Told : World env → Type 0
  Told w = Reached w0.dialogs w.dialogs × Grown P w0.container w.container

  noted :
      (d : Dialog) (alive : Bool) (c : MessageContainer) (x : env.Dialogs)
      → Reached w0.dialogs x
      → (env.save_dialog d x).0 ≡ ok tt
      → Grown P w0.container c
      → Grown P w0.container (generate_system_message alive d c)
  unfolding generate_system_message add_shared_message
  noted d alive c x reached saved g = elim (Bool-cases (is_in_system_message_state d.status)) [
    | inl over ↦ added over alive
    | inr other ↦ rw other g
  ]
    where
      added :
          is_in_system_message_state d.status ≡ true
          → (b : Bool)
          → Grown P w0.container
              (if is_in_system_message_state d.status && b then add_system_message d c else c)
      added over true = rw over (
          also_pushed P w0.container c g d.dialog_id
            (make_user_message deliveried system (get_message d.status))
            (ended d.dialog_id _ (d, x, reached, saved, refl, ended_status d.status over, refl)))
      added over false = rw over g

  saved-Told : (w : World env) (d : Dialog) → Told w → Told (save_wrapper d w).1
  unfolding save_wrapper
  saved-Told w d (r, g) = elim (Result-cases (env.save_dialog d w.dialogs).0) [
    | inl (a, e) ↦ rw e (with_saved r d refl, noted d w.container_alive w.container w.dialogs r e g)
    | inr (x, e) ↦ rw e (with_saved r d refl, g)
  ]

  pub Told-IsStable : IsStable Told
  Told-IsStable = record {
    added = λ w d (r, g). (with_added r d refl, g);
    removed = λ w d (r, g). (without r d refl, g);
    network = λ w x i. i;
    repo = λ w x i. i;
    notices = λ w x i. i;
    event_queue = λ w x i. i;
    saved = saved-Told;
  }

  pub told : IsValid w0.container → Told w0
  told valid = (unchanged, Grown-same P w0.container w0.container valid (λ id. refl))
