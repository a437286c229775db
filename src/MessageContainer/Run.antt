-- ===== src/MessageContainer/Run.antt =====
-- Sequences of the container's operations.
use secure_dialogues.Common.{
  ℕ, ◌≡◌, refl, Bool, true, false, List, [], ◌∷◌, inl, inr, Text, text_eq, is_some, length,
  length-modify, Bool-cases, Option-cases, sym,
}
use secure_dialogues.Common.Maps.{find, erase, find-erase, text_key}
use secure_dialogues.Common.Result.{state_after}
use secure_dialogues.MessageContainer.{
  MessageContainer, MessageStatus, UserMessage, Wrapper, set_active_dialog, add_shared_message,
  add_message, make_shared, add_to_active_dialog_with_wrapper, add_message_to_activedialog,
  register_handler, cleare_handlers, message_changed, list, activate_first, remove_dialog,
  update_message, update_status, save,
}
use secure_dialogues.MessageContainer.Valid.{
  IsValid, RefsBelow, set_active_dialog-IsValid, push-IsValid, peek_found-IsValid,
  add_message-IsValid, wrapper-IsValid, to_active-IsValid, erase-RefsBelow,
}

-- What the other parts of the program do to the container; `Operation.add_shared` makes the message
-- that it adds.
pub data Operation : Type 0 where
  set_active : Text → Operation
  add : Text → Text → Bool → Operation
  add_shared : Text → UserMessage → Operation
  add_wrapped add_active : Text → Bool → Operation
  register : ℕ → Operation
  clear : Operation
  peek : Text → ℕ → Operation
  remove : Text → Operation
  update : MessageStatus → Wrapper → Operation
  save_wrapper : Bool → Wrapper → Operation

unfoldable pub run_operation : Operation → MessageContainer → MessageContainer
run_operation (set_active id) c = set_active_dialog id c
run_operation (add id text inc) c = add_message id text inc c
run_operation (add_shared id m) c = add_shared_message id (length c.heap) (make_shared m c).1
run_operation (add_wrapped text inc) c = state_after (add_to_active_dialog_with_wrapper text inc c)
run_operation (add_active text inc) c = state_after (add_message_to_activedialog text inc c)
run_operation (register h) c = register_handler h c
run_operation clear c = cleare_handlers c
run_operation (peek id h) c = state_after (list id h c)
run_operation (remove id) c = remove_dialog id c
run_operation (update s w) c = update_message s w c
run_operation (save_wrapper alive w) c = (save alive w c).1

unfoldable pub run_operations : List Operation → MessageContainer → MessageContainer
unfolding run_operation
run_operations [] c = c
run_operations (o ∷ os) c = run_operations os (run_operation o c)

changed-IsValid : (id : Text) (c : MessageContainer) → IsValid c → IsValid (message_changed id c)
unfolding message_changed
changed-IsValid id c v = elim (Bool-cases (is_some (find id c.messages))) [
  | inl there ↦ rw (there, message_changed) v
  | inr missing ↦ rw (missing, message_changed) v
]

pub save-IsValid :
    (alive : Bool) (w : Wrapper) (c : MessageContainer) → IsValid c → IsValid (save alive w c).1
unfolding save
save-IsValid true w c v = changed-IsValid w.dialog_id c v
save-IsValid false w c v = v

list-IsValid :
    (id : Text) (h : ℕ) (c : MessageContainer) → IsValid c → IsValid (state_after (list id h c))
unfolding list
list-IsValid id h c v = elim (Bool-cases (is_some (find c.active_dialog c.messages))) [
  | inl there ↦
      rw (there, list)
        (elim (Option-cases (find id c.messages)) [ inl e ↦ rw e v | inr (refs, e) ↦ rw e v ])
  | inr missing ↦ rw (missing, list) v
]

pub update-IsValid :
    (s : MessageStatus) (w : Wrapper) (c : MessageContainer)
    → IsValid c
    → IsValid (update_message s w c)
unfolding update_message
update-IsValid s w c v = rw (length-modify (update_status s) c.heap w.message) v

activate_first-IsValid :
    (m : List (Text × List ℕ)) (c : MessageContainer)
    → m ≡ c.messages
    → RefsBelow (length c.heap) c.messages
    → IsValid (activate_first m (record c { active_dialog = [] }))
unfolding activate_first find
activate_first-IsValid [] c e h = (h, inl refl)
activate_first-IsValid ((id, refs) ∷ rest) c e h =
    peek_found-IsValid _ _ (h, inr (rw (sym e, (text_key.eq_iff id id).1 refl)))

remove_dialog-IsValid :
    (id : Text) (c : MessageContainer) → IsValid c → IsValid (remove_dialog id c)
unfolding remove_dialog
remove_dialog-IsValid id c (h, p) = elim (Bool-cases (is_some (find id c.messages))) [
  | inl there ↦
      rw (there, remove_dialog)
        (elim (Bool-cases (text_eq id c.active_dialog)) [
          | inl same ↦ rw same (
              activate_first-IsValid (erase id c.messages)
                (record c { messages = erase id c.messages }) refl
                (erase-RefsBelow (length c.heap) id c.messages h))
          | inr other ↦ rw other (
            erase-RefsBelow (length c.heap) id c.messages h,
            elim p [
              | inl e ↦ inl e
              | inr q ↦ inr (rw (find-erase id c.active_dialog c.messages, other) q)
            ],
          )
        ])
  | inr missing ↦
      rw (missing, remove_dialog)
        (elim (Bool-cases (text_eq id c.active_dialog)) [
          | inl same ↦ rw same (activate_first-IsValid c.messages c refl h)
          | inr other ↦ rw other (h, p)
        ])
]

run_operation-IsValid :
    (o : Operation) (c : MessageContainer) → IsValid c → IsValid (run_operation o c)
unfolding run_operation register_handler cleare_handlers
run_operation-IsValid (set_active id) c v = set_active_dialog-IsValid id c v
run_operation-IsValid (add id text inc) c v = add_message-IsValid id text inc c v
run_operation-IsValid (add_shared id m) c v = push-IsValid id m c v
run_operation-IsValid (add_wrapped text inc) c v = wrapper-IsValid text inc c v
run_operation-IsValid (add_active text inc) c v = to_active-IsValid text inc c v
run_operation-IsValid (register h) c v = v
run_operation-IsValid clear c v = v
run_operation-IsValid (peek id h) c v = list-IsValid id h c v
run_operation-IsValid (remove id) c v = remove_dialog-IsValid id c v
run_operation-IsValid (update s w) c v = update-IsValid s w c v
run_operation-IsValid (save_wrapper alive w) c v = save-IsValid alive w c v

-- Every sequence of operations keeps the container valid: each pointer of a dialog reaches a message,
-- and the active dialog is empty or has an entry in the map.
pub run_operations-IsValid :
    (os : List Operation) (c : MessageContainer) → IsValid c → IsValid (run_operations os c)
unfolding run_operations
run_operations-IsValid [] c v = v
run_operations-IsValid (o ∷ os) c v =
    run_operations-IsValid os (run_operation o c) (run_operation-IsValid o c v)
