-- ===== src/Tests/Containers.antt =====
-- Runs of messages/src/containers/messagecontainer.cpp: two handlers, two dialogs.
use secure_dialogues.Common.{refl, true, [], ◌∷◌, codes, text_eq, List, inl, arith, inr}
use secure_dialogues.Common.Maps.{find, text_key}
use secure_dialogues.MessageContainer.{MessageContainer, empty_container, message_of}
use secure_dialogues.MessageContainer.Valid.{IsValid}
use secure_dialogues.MessageContainer.Run.{
  run_operations, run_operations-IsValid, set_active, add, register, Operation,
}

abbrev steps : List Operation
steps = register 7 ∷ register 8 ∷ set_active (codes "a") ∷ add (codes "b") (codes "hi") true ∷ []

run_operations-IsValid_example : IsValid (run_operations steps empty_container)
run_operations-IsValid_example = run_operations-IsValid steps empty_container (tt, inl refl)

-- The state that those steps reach.
abbrev two_dialogs : MessageContainer
two_dialogs = record {
  messages = (codes "a", []) ∷ (codes "b", 0 ∷ []) ∷ [];
  active_dialog = codes "a";
  event_handlers = 7 ∷ 8 ∷ [];
  heap = message_of (codes "hi") true ∷ [];
  events = [];
}

two_dialogs-IsValid : IsValid two_dialogs
unfolding find text_eq
two_dialogs-IsValid = ((tt, ((omega arith, tt), tt)), inr refl)
