-- ===== src/MessageContainer.antt =====
-- messages/src/containers/messagecontainer.cpp and usermessage.cpp: the messages of each dialog, in
-- memory. A `std::shared_ptr<UserMessage>` is a place in a heap of messages, so a wrapper and a dialog
-- share a message; the heap keeps what no pointer reaches any more, which no operation can see. The
-- event handlers are the views: a handler is a number, and a call of one is an event with that
-- number. They do not call back into the container, whose lock all its operations hold.
use secure_dialogues.Common.{
  ℕ, ◌+◌, Bool, true, false, Option, none, some, List, [], ◌∷◌, ◌++◌, map, if◌then◌else◌, Text,
  text_eq, is_some, length, modify,
}
use secure_dialogues.Common.Maps.{find, insert, erase, text_key}
use secure_dialogues.Common.Result.{Prog, ok, throw, return, raise, runtime_error, out_of_range}
pub mod Views
pub mod Shared
pub mod Valid
pub mod Grows
pub mod Run
pub mod Active

-- `UserMessage::Status`.
pub data MessageStatus : Type 0 where
  wait_delivery deliveried not_deliveried error : MessageStatus

-- `UserMessage::Type`.
pub data MessageType : Type 0 where
  income outcome system : MessageType

pub record UserMessage : Type 0 where
  pub status : MessageStatus
  pub type : MessageType
  pub content : Text

abbrev pub make_user_message : MessageStatus → MessageType → Text → UserMessage
make_user_message s t c = record { status = s; type = t; content = c }

abbrev pub update_status : MessageStatus → UserMessage → UserMessage
update_status s m = record m { status = s }

-- The calls of `MessageContainerEventHandler`.
pub data Event : Type 0 where
  active_dialog_changed : Text → Event
  message_added : Text → ℕ → Event
  invalidate_data : Text → Event
  peek_message : ℕ → Event

pub record MessageContainer : Type 0 where
  pub messages : List (Text × List ℕ)
  pub active_dialog : Text
  pub event_handlers : List ℕ
  pub heap : List UserMessage
  pub events : List (ℕ × Event)

abbrev pub empty_container : MessageContainer
empty_container = record {
  messages = [];
  active_dialog = [];
  event_handlers = [];
  heap = [];
  events = [];
}

abbrev pub list_or_empty : Option (List ℕ) → List ℕ
list_or_empty none = []
list_or_empty (some refs) = refs

abbrev pub is_empty {ℓ} : {A : Type ℓ} → List A → Bool
is_empty [] = true
is_empty (x ∷ xs) = false

-- `for (handler : mEventHandlers) handler->...`.
abbrev pub to_handlers : Event → MessageContainer → MessageContainer
to_handlers e c = record c { events = c.events ++ map (λ h. (h, e)) c.event_handlers }

abbrev pub notifym_about_dialog_id_changed : Text → MessageContainer → MessageContainer
notifym_about_dialog_id_changed id c = to_handlers (active_dialog_changed id) c

abbrev pub notify_about_new_message : Text → ℕ → MessageContainer → MessageContainer
notify_about_new_message id ref c = to_handlers (message_added id ref) c

abbrev pub peeks : List ℕ → List ℕ → List (ℕ × Event)
peeks [] refs = []
peeks (h ∷ hs) refs = map (λ r. (h, peek_message r)) refs ++ peeks hs refs

unfoldable pub peek_found : Option (List ℕ) → MessageContainer → MessageContainer
peek_found none c = c
peek_found (some refs) c = record c { events = c.events ++ peeks c.event_handlers refs }

abbrev pub notify_peek_all_messages_from_active : MessageContainer → MessageContainer
notify_peek_all_messages_from_active c = peek_found (find c.active_dialog c.messages) c

abbrev pub make_active : Text → MessageContainer → MessageContainer
make_active id c = record c {
  active_dialog = id;
  messages = if is_some (find id c.messages) then c.messages else insert id [] c.messages;
}

unfoldable pub set_active_dialog : Text → MessageContainer → MessageContainer
set_active_dialog id c =
    if is_empty id
    then record c { active_dialog = [] }
    else if text_eq id c.active_dialog
    then c
    else notify_peek_all_messages_from_active
        (notifym_about_dialog_id_changed id (make_active id c))

abbrev pub push_back : Text → ℕ → MessageContainer → MessageContainer
push_back id ref c = record c {
  messages = insert id (list_or_empty (find id c.messages) ++ ref ∷ []) c.messages;
}

-- `addMessage` of a message that exists.
unfoldable pub add_shared_message : Text → ℕ → MessageContainer → MessageContainer
add_shared_message id ref c = notify_about_new_message id ref (push_back id ref c)

-- `std::make_shared<UserMessage>`.
abbrev pub make_shared : UserMessage → MessageContainer → ℕ × MessageContainer
make_shared m c = (length c.heap, record c { heap = c.heap ++ m ∷ [] })

abbrev pub message_of : Text → Bool → UserMessage
message_of text true = make_user_message deliveried income text
message_of text false = make_user_message wait_delivery outcome text

unfoldable pub add_message : Text → Text → Bool → MessageContainer → MessageContainer
unfolding add_shared_message
add_message id text is_income c =
    let (ref, c') = make_shared (message_of text is_income) c in add_shared_message id ref c'

-- The pointer to the container that a wrapper keeps is weak.
pub record Wrapper : Type 0 where
  pub message : ℕ
  pub dialog_id : Text

unfoldable pub add_to_active_dialog_with_wrapper : Text → Bool → Prog MessageContainer Wrapper
unfolding add_shared_message
add_to_active_dialog_with_wrapper text is_income c =
    if is_some (find c.active_dialog c.messages)
    then (
      ok (record { message = length c.heap; dialog_id = c.active_dialog }),
      let (ref, c') = make_shared (message_of text is_income) c in
          notify_about_new_message c.active_dialog ref (push_back c.active_dialog ref c'),
    )
    else raise runtime_error c

unfoldable pub add_message_to_activedialog : Text → Bool → Prog MessageContainer (Unit {0})
unfolding add_message
add_message_to_activedialog text is_income c =
    if is_some (find c.active_dialog c.messages)
    then return tt (add_message c.active_dialog text is_income c)
    else raise runtime_error c

unfoldable pub register_handler : ℕ → MessageContainer → MessageContainer
register_handler h c = record c { event_handlers = c.event_handlers ++ h ∷ [] }

unfoldable pub cleare_handlers : MessageContainer → MessageContainer
cleare_handlers c = record c { event_handlers = [] }

unfoldable pub message_changed : Text → MessageContainer → MessageContainer
message_changed id c =
    if is_some (find id c.messages) then to_handlers (invalidate_data id) c else c

-- `messages.at(dialogId)`.
abbrev pub list_found : ℕ → Option (List ℕ) → Prog MessageContainer (Unit {0})
list_found h none c = raise out_of_range c
list_found h (some refs) c =
    return tt (record c { events = c.events ++ map (λ r. (h, peek_message r)) refs })

unfoldable pub list : Text → ℕ → Prog MessageContainer (Unit {0})
list id h c =
    if is_some (find c.active_dialog c.messages)
    then list_found h (find id c.messages) c
    else raise runtime_error c

unfoldable pub activate_first : List (Text × List ℕ) → MessageContainer → MessageContainer
activate_first [] c = c
activate_first ((id, refs) ∷ rest) c =
    notify_peek_all_messages_from_active
      (notifym_about_dialog_id_changed id (record c { active_dialog = id }))

unfoldable pub remove_dialog : Text → MessageContainer → MessageContainer
unfolding activate_first
remove_dialog id c =
    let c' =
      if is_some (find id c.messages) then record c { messages = erase id c.messages } else c in
    if text_eq id c'.active_dialog
    then activate_first c'.messages (record c' { active_dialog = [] })
    else c'

-- `wrapper->get()->updateStatus(status)`.
unfoldable pub update_message : MessageStatus → Wrapper → MessageContainer → MessageContainer
update_message s w c = record c { heap = modify (update_status s) c.heap w.message }

-- `alive`: the container still exists, so its weak pointer can be locked.
unfoldable pub save : Bool → Wrapper → MessageContainer → Bool × MessageContainer
unfolding message_changed
save alive w c = (true, if alive then message_changed w.dialog_id c else c)
