-- ===== src/Gui/Following.antt =====
-- Every operation of the container keeps the window of the active dialog in step with it, but for those
-- that leave no active dialog, and those that change the handlers.
use secure_dialogues.Common.Result.{state_after}
use secure_dialogues.Common.Maps.{find, find-insert, find-erase, erase, text_key}
use secure_dialogues.Common.{
  ℕ, ◌++◌, [], List, Text, Bool-cases, text_eq, is_some, ◌≡◌, inl, map, some, arith, false,
  text_eq_iff, ◌∙◌, refl, ap, inr, ◌⊎◌, Option-cases, ◌∷◌, text_eq_refl, sym, suc, ◌==◌, ◌∷◌,
}
use secure_dialogues.MessageContainer.{
  MessageContainer, to_handlers, is_empty, set_active_dialog, add_shared_message, remove_dialog,
  message_changed, list, activate_first, peek_found, Event, push_back, message_added, peeks,
  list_or_empty, make_active, invalidate_data, active_dialog_changed, peek_message,
}
use secure_dialogues.MessageContainer.Active.{activate_first_lem}
use secure_dialogues.Gui.ActiveDialogModel.{
  ActiveDialogMessageModel, handle_event, message_added_to, invalidate_data_of,
  make_active_dialog_message_model,
}
use secure_dialogues.Gui.InSync.{
  handle_events, handle_events-append, handle_events-to_handlers, handle_events-peeks,
  handle_events-peek_message, peek_all, peek_all_lem, count, model_of, Shows, InSync,
}

model_of-to_handlers :
    (h : ℕ) (e : Event) (c : MessageContainer)
    → count h c.event_handlers ≡ 1
    → model_of h (to_handlers e c) ≡ handle_event e (model_of h c)
model_of-to_handlers h e c once =
    handle_events-append h c.events (map (λ k. (k, e)) c.event_handlers)
      make_active_dialog_message_model
    ∙ handle_events-to_handlers h c.event_handlers e (model_of h c)
    ∙ rw once refl

model_of-peek_found :
    (h : ℕ) (refs : List ℕ) (c : MessageContainer)
    → count h c.event_handlers ≡ 1
    → model_of h (peek_found (some refs) c) ≡ peek_all refs (model_of h c)
unfolding peek_found
model_of-peek_found h refs c once =
    handle_events-append h c.events (peeks c.event_handlers refs) make_active_dialog_message_model
    ∙ handle_events-peeks h c.event_handlers refs (model_of h c)
    ∙ rw once refl

text_eq_sym : (a b : Text) → text_eq a b ≡ text_eq b a
text_eq_sym a b = ground (arith, text_eq_iff a b, text_eq_iff b a)

-- A message pushed on a dialog and announced.
pushed-Shows :
    (id : Text) (ref : ℕ) (m : ActiveDialogMessageModel) (c : MessageContainer)
    → Shows m c
    → Shows (message_added_to id ref m) (push_back id ref c)
pushed-Shows id ref m c (same, rows) = elim (Bool-cases (text_eq id c.active_dialog)) [
  | inl own ↦
      rw
        (
          same,
          text_eq_sym c.active_dialog id,
          own,
          find-insert id c.active_dialog (list_or_empty (find id c.messages) ++ ref ∷ [])
              c.messages,
        )
        (refl, rw (own, rows, (text_eq_iff id c.active_dialog).0 own) refl)
  | inr other ↦
      rw
        (
          same,
          text_eq_sym c.active_dialog id,
          other,
          find-insert id c.active_dialog (list_or_empty (find id c.messages) ++ ref ∷ [])
              c.messages,
        )
        (refl, rw (other, rows) refl)
]

invalidated-Shows :
    (id : Text) (m : ActiveDialogMessageModel) (c : MessageContainer)
    → Shows m c
    → Shows (invalidate_data_of id m) c
invalidated-Shows id m c s = elim (Bool-cases (text_eq id m.active_dialog)) [
  | inl own ↦ rw own s
  | inr other ↦ rw other s
]

make_active_found :
    (id : Text) (c : MessageContainer)
    → find id (make_active id c).messages ≡ some (list_or_empty (find id c.messages))
make_active_found id c = elim (Option-cases (find id c.messages)) [
  | inl missing ↦ rw missing (rw (find-insert id id [] c.messages, text_eq_refl id) refl)
  | inr (refs, there) ↦ rw there (rw there refl)
]

module _ (h : ℕ) where
  pub add_shared_message-InSync :
      (id : Text) (ref : ℕ) (c : MessageContainer)
      → InSync h c
      → InSync h (add_shared_message id ref c)
  unfolding add_shared_message
  add_shared_message-InSync id ref c (once, s) = (
    once,
    rw (model_of-to_handlers h (message_added id ref) (push_back id ref c) once)
        (pushed-Shows id ref (model_of h c) c s),
  )

  pub changed-InSync :
      (id : Text) (c : MessageContainer) → InSync h c → InSync h (message_changed id c)
  unfolding message_changed
  changed-InSync id c (once, s) = elim (Bool-cases (is_some (find id c.messages))) [
    | inl there ↦ rw there (
      once,
      rw (model_of-to_handlers h (invalidate_data id) c once)
          (invalidated-Shows id (model_of h c) c s),
    )
    | inr missing ↦ rw missing (once, s)
  ]

  -- A dialog with an entry that is made the active one, announced, and shown.
  activated-InSync :
      (id : Text) (refs : List ℕ) (c : MessageContainer)
      → count h c.event_handlers ≡ 1
      → c.active_dialog ≡ id
      → find id c.messages ≡ some refs
      → InSync h (peek_found (some refs) (to_handlers (active_dialog_changed id) c))
  unfolding peek_found
  activated-InSync id refs c once active there =
      let c' = to_handlers (active_dialog_changed id) c in
      let shown = model_of-peek_found h refs c' once in
      let cleared = model_of-to_handlers h (active_dialog_changed id) c once in
      let peeked = peek_all_lem refs (model_of h c') in
      (
        once,
        rw (shown, active, there)
            (
              peeked.1 ∙ ap ActiveDialogMessageModel.active_dialog cleared,
              peeked.0 ∙ rw cleared refl,
            ),
      )

  pub set_active_dialog-InSync :
      (id : Text) (c : MessageContainer)
      → is_empty id ≡ false
      → InSync h c
      → InSync h (set_active_dialog id c)
  unfolding set_active_dialog
  set_active_dialog-InSync id c named (once, s) =
      rw (named, set_active_dialog)
        (elim (Bool-cases (text_eq id c.active_dialog)) [
          | inl same ↦ rw same (once, s)
          | inr other ↦
              rw (other, make_active_found id c)
                (activated-InSync id (list_or_empty (find id c.messages)) (make_active id c) once
                  refl (make_active_found id c))
        ])

  activate_first-InSync :
      (ms : List (Text × List ℕ)) (c : MessageContainer)
      → count h c.event_handlers ≡ 1
      → c.messages ≡ ms
      → is_empty ms ≡ false
      → InSync h (activate_first ms c)
  unfolding activate_first find
  activate_first-InSync [] c once e left = cc
  activate_first-InSync ((k, refs) ∷ rest) c once e left =
      let there : find k c.messages ≡ some refs = rw (e, text_eq_refl k) refl in
      rw there (activated-InSync k refs (record c { active_dialog = k }) once refl there)

  pub remove_dialog-InSync :
      (id : Text) (c : MessageContainer)
      → (text_eq id c.active_dialog ≡ false) ⊎ (is_empty (remove_dialog id c).messages ≡ false)
      → InSync h c
      → InSync h (remove_dialog id c)
  unfolding remove_dialog
  remove_dialog-InSync id c left (once, s) = elim (Bool-cases (text_eq id c.active_dialog)) [
    | inl same ↦
        let kept : is_empty (remove_dialog id c).messages ≡ false = elim left [
          | inl other ↦ absurd (ground (arith, same, other))
          | inr e ↦ e
        ] in
        elim (Bool-cases (is_some (find id c.messages))) [
          | inl there ↦
              let c' = record c { messages = erase id c.messages; active_dialog = [] } in
              let gone : (remove_dialog id c).messages ≡ erase id c.messages =
                rw (there, remove_dialog) (rw same (activate_first_lem c'.messages c').0) in
              rw (there, remove_dialog)
                (rw same
                  (activate_first-InSync c'.messages c' once refl (ap is_empty (sym gone) ∙ kept)))
          | inr missing ↦
              let c' = record c { active_dialog = [] } in
              let gone : (remove_dialog id c).messages ≡ c.messages =
                rw (missing, remove_dialog) (rw same (activate_first_lem c'.messages c').0) in
              rw (missing, remove_dialog)
                (rw same
                  (activate_first-InSync c'.messages c' once refl (ap is_empty (sym gone) ∙ kept)))
        ]
    | inr other ↦ elim (Bool-cases (is_some (find id c.messages))) [
      | inl there ↦
          rw (there, remove_dialog)
            (rw other (once, (s.0, rw (find-erase id c.active_dialog c.messages, other) s.1)))
      | inr missing ↦ rw (missing, remove_dialog) (rw other (once, s))
    ]
  ]

  pub count-register :
      (hs : List ℕ) (k : ℕ) → (k == h) ≡ false → count h (hs ++ k ∷ []) ≡ count h hs
  count-register [] k other = rw other refl
  count-register (j ∷ hs) k other = elim (Bool-cases (j == h)) [
    | inl own ↦ rw own (ap suc (count-register hs k other))
    | inr else ↦ rw else (count-register hs k other)
  ]

  pub list-InSync :
      (id : Text) (k : ℕ) (c : MessageContainer)
      → (k == h) ≡ false
      → InSync h c
      → InSync h (state_after (list id k c))
  unfolding list
  list-InSync id k c other (once, s) =
      elim (Bool-cases (is_some (find c.active_dialog c.messages))) [
        | inr missing ↦ rw (missing, list) (once, s)
        | inl there ↦ elim (Option-cases (find id c.messages)) [
          | inl none_there ↦ rw (there, list) (rw none_there (once, s))
          | inr (refs, found) ↦
              let unseen : handle_events h (c.events ++ map (λ r. (k, peek_message r)) refs)
                    make_active_dialog_message_model
                  ≡ model_of h c =
                handle_events-append h c.events (map (λ r. (k, peek_message r)) refs)
                  make_active_dialog_message_model
                ∙ handle_events-peek_message h k refs (model_of h c)
                ∙ rw other refl in
              rw (there, list) (rw found (once, rw unseen s))
        ]
      ]
