-- ===== src/Gui/InSync.antt =====
-- The window of the active dialog shows what the container holds for it.
use mathlib.Core.List.{append_assoc, append-nil}
use secure_dialogues.Common.{
  ℕ, zero, suc, ◌==◌, ◌≡◌, refl, sym, ◌∙◌, List, [], ◌∷◌, ◌++◌, map, inl, inr, Bool-cases,
  if◌then◌else◌,
}
use secure_dialogues.Common.Maps.{find, text_key}
use secure_dialogues.MessageContainer.{MessageContainer, Event, peek_message, list_or_empty, peeks}
use secure_dialogues.Gui.ActiveDialogModel.{
  push_row, ActiveDialogMessageModel, handle_event, make_active_dialog_message_model,
}

-- The calls of one handler, in order.
abbrev pub handle_events :
    ℕ → List (ℕ × Event) → ActiveDialogMessageModel → ActiveDialogMessageModel
handle_events h [] m = m
handle_events h ((k, e) ∷ rest) m =
    if k == h then handle_events h rest (handle_event e m) else handle_events h rest m

abbrev pub count : ℕ → List ℕ → ℕ
count h [] = 0
count h (k ∷ hs) = if k == h then suc (count h hs) else count h hs

pub handle_events-append :
    (h : ℕ) (xs ys : List (ℕ × Event)) (m : ActiveDialogMessageModel)
    → handle_events h (xs ++ ys) m ≡ handle_events h ys (handle_events h xs m)
handle_events-append h [] ys m = refl
handle_events-append h ((k, e) ∷ xs) ys m = elim (Bool-cases (k == h)) [
  | inl own ↦ rw own (handle_events-append h xs ys (handle_event e m))
  | inr other ↦ rw other (handle_events-append h xs ys m)
]

abbrev pub iterate {ℓ} : {A : Type ℓ} → ℕ → (A → A) → A → A
iterate zero f a = a
iterate (suc n) f a = iterate n f (f a)

abbrev pub peek_all : List ℕ → ActiveDialogMessageModel → ActiveDialogMessageModel
peek_all [] m = m
peek_all (r ∷ refs) m = peek_all refs (push_row r m)

pub handle_events-to_handlers :
    (h : ℕ) (hs : List ℕ) (e : Event) (m : ActiveDialogMessageModel)
    → handle_events h (map (λ k. (k, e)) hs) m ≡ iterate (count h hs) (handle_event e) m
handle_events-to_handlers h [] e m = refl
handle_events-to_handlers h (k ∷ hs) e m = elim (Bool-cases (k == h)) [
  | inl own ↦ rw own (handle_events-to_handlers h hs e (handle_event e m))
  | inr other ↦ rw other (handle_events-to_handlers h hs e m)
]

pub handle_events-peek_message :
    (h k : ℕ) (refs : List ℕ) (m : ActiveDialogMessageModel)
    → handle_events h (map (λ r. (k, peek_message r)) refs) m
      ≡ (if k == h then peek_all refs m else m)
handle_events-peek_message h k [] m = elim (Bool-cases (k == h)) [
  | inl own ↦ rw own refl
  | inr other ↦ rw other refl
]
handle_events-peek_message h k (r ∷ refs) m = elim (Bool-cases (k == h)) [
  | inl own ↦ rw own (handle_events-peek_message h k refs (push_row r m) ∙ rw own refl)
  | inr other ↦ rw other (handle_events-peek_message h k refs m ∙ rw other refl)
]

pub handle_events-peeks :
    (h : ℕ) (hs refs : List ℕ) (m : ActiveDialogMessageModel)
    → handle_events h (peeks hs refs) m ≡ iterate (count h hs) (peek_all refs) m
handle_events-peeks h [] refs m = refl
handle_events-peeks h (k ∷ hs) refs m =
    handle_events-append h (map (λ r. (k, peek_message r)) refs) (peeks hs refs) m
    ∙ rw (handle_events-peek_message h k refs m) (elim (Bool-cases (k == h)) [
      | inl own ↦ rw own (handle_events-peeks h hs refs (peek_all refs m))
      | inr other ↦ rw other (handle_events-peeks h hs refs m)
    ])

pub peek_all_lem :
    (refs : List ℕ) (m : ActiveDialogMessageModel)
    → ((peek_all refs m).rows ≡ m.rows ++ refs)
      × ((peek_all refs m).active_dialog ≡ m.active_dialog)
peek_all_lem [] m = (sym (append-nil m.rows), refl)
peek_all_lem (r ∷ refs) m =
    let rest = peek_all_lem refs (push_row r m) in
    (rest.0 ∙ append_assoc m.rows (r ∷ []) refs, rest.1)

-- What the model is after all calls that the container made to its handler `h`.
abbrev pub model_of : ℕ → MessageContainer → ActiveDialogMessageModel
model_of h c = handle_events h c.events make_active_dialog_message_model

-- The model shows the messages of the active dialog, in their order.
abbrev pub Shows : ActiveDialogMessageModel → MessageContainer → Type 0
Shows m c =
    (m.active_dialog ≡ c.active_dialog) × (m.rows ≡ list_or_empty (find c.active_dialog c.messages))

abbrev pub InSync : ℕ → MessageContainer → Type 0
InSync h c = (count h c.event_handlers ≡ 1) × Shows (model_of h c) c
