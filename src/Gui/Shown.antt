-- ===== src/Gui/Shown.antt =====
-- What the window of the active dialog shows after any sequence of operations of the container.
use secure_dialogues.Common.{
  ℕ, ◌≡◌, ◌==◌, Bool, true, false, List, [], ◌∷◌, Text, text_eq, ◌⊎◌, inl, inr, Bool-cases, ◌∙◌,
  is_some, length,
}
use secure_dialogues.Common.Maps.{find, text_key}
use secure_dialogues.Common.Result.{state_after}
use secure_dialogues.MessageContainer.{
  MessageContainer, Wrapper, is_empty, add_message, add_shared_message, make_shared, message_of,
  remove_dialog, add_to_active_dialog_with_wrapper, add_message_to_activedialog, register_handler,
  update_message, save,
}
use secure_dialogues.MessageContainer.Run.{
  Operation, run_operation, run_operations, set_active, add, add_shared, add_wrapped, add_active,
  register, clear, peek, remove, update, save_wrapper,
}
use secure_dialogues.Gui.InSync.{InSync}
use secure_dialogues.Gui.Following.{
  add_shared_message-InSync, changed-InSync, set_active_dialog-InSync, remove_dialog-InSync,
  count-register, list-InSync,
}

-- The operations that keep handler `h` informed: not those that leave no dialog active, which nobody is
-- told, nor those that take `h` away, add it again or show it another dialog.
abbrev pub Tells : ℕ → Operation → MessageContainer → Type 0
Tells h (set_active id) c = is_empty id ≡ false
Tells h (register k) c = (k == h) ≡ false
Tells h clear c = ⊥
Tells h (peek id k) c = (k == h) ≡ false
Tells h (remove id) c =
    (text_eq id c.active_dialog ≡ false) ⊎ (is_empty (remove_dialog id c).messages ≡ false)
Tells h _ c = Unit

abbrev pub AllTell : ℕ → List Operation → MessageContainer → Type 0
AllTell h [] c = Unit
AllTell h (o ∷ os) c = Tells h o c × AllTell h os (run_operation o c)

module _ (h : ℕ) where
  wrapped-InSync :
      (text : Text) (inc : Bool) (c : MessageContainer)
      → InSync h c
      → InSync h (state_after (add_to_active_dialog_with_wrapper text inc c))
  unfolding add_to_active_dialog_with_wrapper add_shared_message
  wrapped-InSync text inc c s = elim (Bool-cases (is_some (find c.active_dialog c.messages))) [
    | inl there ↦
        rw (there, add_to_active_dialog_with_wrapper)
          (add_shared_message-InSync h c.active_dialog (length c.heap)
            (make_shared (message_of text inc) c).1 s)
    | inr missing ↦ rw (missing, add_to_active_dialog_with_wrapper) s
  ]

  to_active-InSync :
      (text : Text) (inc : Bool) (c : MessageContainer)
      → InSync h c
      → InSync h (state_after (add_message_to_activedialog text inc c))
  unfolding add_message_to_activedialog add_message
  to_active-InSync text inc c s = elim (Bool-cases (is_some (find c.active_dialog c.messages))) [
    | inl there ↦
        rw (there, add_message_to_activedialog)
          (add_shared_message-InSync h c.active_dialog (length c.heap)
            (make_shared (message_of text inc) c).1 s)
    | inr missing ↦ rw (missing, add_message_to_activedialog) s
  ]

  save-InSync :
      (alive : Bool) (w : Wrapper) (c : MessageContainer) → InSync h c → InSync h (save alive w c).1
  unfolding save
  save-InSync true w c s = changed-InSync h w.dialog_id c s
  save-InSync false w c s = s

  run_operation-InSync :
      (o : Operation) (c : MessageContainer)
      → Tells h o c
      → InSync h c
      → InSync h (run_operation o c)
  unfolding run_operation register_handler add_message update_message
  run_operation-InSync (set_active id) c t s = set_active_dialog-InSync h id c t s
  run_operation-InSync (add id text inc) c t s =
      add_shared_message-InSync h id (length c.heap) (make_shared (message_of text inc) c).1 s
  run_operation-InSync (add_shared id m) c t s =
      add_shared_message-InSync h id (length c.heap) (make_shared m c).1 s
  run_operation-InSync (add_wrapped text inc) c t s = wrapped-InSync text inc c s
  run_operation-InSync (add_active text inc) c t s = to_active-InSync text inc c s
  run_operation-InSync (register k) c t s = (count-register h c.event_handlers k t ∙ s.0, s.1)
  run_operation-InSync clear c t s = absurd t
  run_operation-InSync (peek id k) c t s = list-InSync h id k c t s
  run_operation-InSync (remove id) c t s = remove_dialog-InSync h id c t s
  run_operation-InSync (update st w) c t s = s
  run_operation-InSync (save_wrapper alive w) c t s = save-InSync alive w c s

  -- A window that shows the messages of the active dialog in their order, registered once, still does
  -- after any sequence of operations of the container in which no dialog is activated by the empty name,
  -- the removal of the active dialog leaves another one, and the window is neither registered again,
  -- nor cleared, nor given to `list`.
  pub run_operations-InSync :
      (os : List Operation) (c : MessageContainer)
      → AllTell h os c
      → InSync h c
      → InSync h (run_operations os c)
  unfolding run_operations
  run_operations-InSync [] c t s = s
  run_operations-InSync (o ∷ os) c t s =
      run_operations-InSync os (run_operation o c) t.1 (run_operation-InSync o c t.0 s)
