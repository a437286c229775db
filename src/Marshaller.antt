-- ===== src/Marshaller.antt =====
-- messages/src/utils/messagemarshaller.cpp: a message as text, and back. Text is bytes; the streams
-- are in the "C" locale. Two fields of `MessageFields` start uninitialised: what they hold is an
-- argument, `junk`.
pub mod Lines
pub mod RoundTrip
pub mod Written
pub mod Signing
pub mod Truncated
use secure_dialogues.Common.{
  ℕ, zero, suc, ◌+◌, ◌-◌, ◌==◌, Bool, true, false, ◌&&◌, ◌||◌, Option, none, some, List, [], ◌∷◌,
  ◌++◌, leb, if◌then◌else◌, Text, codes, text_eq, length, take, drop,
}
use secure_dialogues.Common.Int.{ℤ}
use secure_dialogues.Common.Result.{Result, ok, throw, runtime_error, Exception}
use secure_dialogues.Decimal.{show_nat, show_int, stoul, stol, is_space}
use secure_dialogues.DialogMessage.{
  Action, message, create_dialog, accept_dialog, close_dialog, ack, abort, verify_key,
  key_verification, contact_discover, DialogMessage, make_dialog_message,
}

abbrev pub field_action : Text
field_action = codes "ACTION"

abbrev pub field_dialog_id : Text
field_dialog_id = codes "DIALOG"

abbrev pub field_version : Text
field_version = codes "VERSION"

abbrev pub field_sequental_number : Text
field_sequental_number = codes "SEQUENTAL_NUMBER"

abbrev pub field_sign : Text
field_sign = codes "SIGNATURE"

abbrev pub field_timestamp : Text
field_timestamp = codes "TIMESTAMP"

abbrev pub header : Text
header = codes "SECURE DIALOG MESSAGE"

abbrev pub version : Text
version = codes "1.0"

abbrev pub body_delimiter : Text
body_delimiter = codes "--------------------------------------------------------------"

-- `convertAction`, to text and back.
unfoldable pub action_to_text : Action → Text
action_to_text accept_dialog = codes "ACCEPT_DIALOG"
action_to_text close_dialog = codes "CLOSE_DIALOG"
action_to_text create_dialog = codes "CREATE_DIALOG"
action_to_text message = codes "MESSAGE"
action_to_text ack = codes "ACK"
action_to_text abort = codes "ABORT"
action_to_text key_verification = codes "KEY_VERIFICATION"
action_to_text verify_key = codes "VERIFY_KEY"
action_to_text contact_discover = codes "CONTACT_DISCOVER"

unfoldable pub text_to_action : Text → Option Action
text_to_action s =
    if text_eq s (codes "ACCEPT_DIALOG")
    then some accept_dialog
    else if text_eq s (codes "CLOSE_DIALOG")
    then some close_dialog
    else if text_eq s (codes "CREATE_DIALOG")
    then some create_dialog
    else if text_eq s (codes "MESSAGE")
    then some message
    else if text_eq s (codes "ACK")
    then some ack
    else if text_eq s (codes "ABORT")
    then some abort
    else if text_eq s (codes "KEY_VERIFICATION")
    then some key_verification
    else if text_eq s (codes "VERIFY_KEY")
    then some verify_key
    else if text_eq s (codes "CONTACT_DISCOVER")
    then some contact_discover
    else none

-- The loop that overwrites white space at the end with zeros, and `c_str()`.
abbrev pub all_space : Text → Bool
all_space [] = true
all_space (c ∷ s) = is_space c && all_space s

unfoldable pub zero_trailing : Text → Text
zero_trailing [] = []
zero_trailing (c ∷ s) = (if is_space c && all_space s then 0 else c) ∷ zero_trailing s

unfoldable pub c_str : Text → Text
c_str [] = []
c_str (c ∷ s) = let rest = c ∷ c_str s in if c == 0 then [] else rest

unfoldable pub trim : Text → Text
trim s = c_str (zero_trailing s)

-- `key << ':' << value << '\n'`, before the text that follows.
abbrev pub write_field : Text → Text → Text → Text
write_field key value rest = key ++ b':' ∷ (value ++ 10 ∷ rest)

unfoldable pub marshall : DialogMessage → Text
marshall m =
    header
    ++ 10
      ∷ write_field field_version version (
          write_field field_action (action_to_text m.action) (
            write_field field_sequental_number (show_nat m.sequential) (
              write_field field_dialog_id m.dialog_id (
                write_field field_timestamp (show_int m.timestamp)
                  (write_field field_sign m.sign (body_delimiter ++ 10 ∷ trim m.content))))))

unfoldable pub marshall_except_signature : DialogMessage → Text
marshall_except_signature m =
    header
    ++ 10
      ∷ write_field field_version version (
          write_field field_action (action_to_text m.action) (
            write_field field_sequental_number (show_nat m.sequential) (
              write_field field_dialog_id m.dialog_id (
                write_field field_timestamp (show_int m.timestamp)
                  (field_sign ++ b':' ∷ 10 ∷ (body_delimiter ++ 10 ∷ trim m.content))))))

pub data State : Type 0 where
  in_header in_signature in_body : State

pub record MessageFields : Type 0 where
  pub action : Action
  pub content : Text
  pub dialog_id : Text
  pub seq_number : ℕ
  pub signature : Text
  pub state : State
  pub timestamp : ℤ

-- What the two fields hold that no initialiser sets.
pub record Junk : Type 0 where
  pub action : Action
  pub timestamp : ℤ

-- `source.find(ch)`.
unfoldable pub find_char : ℕ → Text → Option ℕ
find_char ch [] = none
find_char ch (c ∷ s) =
    if c == ch then some 0 else elim (find_char ch s) [ none ↦ none | some i ↦ some (suc i) ]

abbrev pub split_found : Text → Option ℕ → Option (Text × Text)
split_found source none = none
split_found source (some pos) =
    if (length source - 1 == pos) || (0 == pos)
    then none
    else some (take pos source, drop (pos + 1) source)

unfoldable pub split_key_val : Text → Option (Text × Text)
split_key_val source = split_found source (find_char b':' source)

abbrev pub value_of : Text → Option (Text × Text) → Option Text
value_of key none = none
value_of key (some (k, val)) = if text_eq k key then some val else none

-- `splitKeyVal(line, key, val) && key == field`, with the value.
unfoldable pub keyed : Text → Text → Option Text
keyed field line = value_of field (split_key_val line)

abbrev pub field_at : ℕ → Text → ℕ → Text → Option Text
field_at n field line_number line = if line_number == n then keyed field line else none

abbrev pub or_try {ℓ} : {A : Type ℓ} → Option Text → (Text → A) → A → A
or_try none f other = other
or_try (some val) f other = f val

abbrev pub or_throw {ℓ κ} : {A : Type ℓ} {B : Type κ} → Option A → (A → B) → Result (Option B)
or_throw none f = throw runtime_error
or_throw (some a) f = ok (some (f a))

-- The last two branches of `prepareLine`.
abbrev pub prepare_state_line : Text → State → MessageFields → Result (Option MessageFields)
prepare_state_line line in_header fields = ok none
prepare_state_line line in_signature fields =
    ok (some (record fields { signature = fields.signature ++ 10 ∷ line }))
prepare_state_line line in_body fields =
    ok (some (record fields { content = fields.content ++ (line ++ 10 ∷ []) }))

abbrev pub prepare_body_line : Text → ℕ → MessageFields → Result (Option MessageFields)
prepare_body_line line line_number fields =
    if leb 8 line_number && text_eq line body_delimiter
    then ok (some (record fields { state = in_body }))
    else prepare_state_line line fields.state fields

-- `ok none` is the result false; the fields are those that the call leaves.
unfoldable pub prepare_line : Text → ℕ → MessageFields → Result (Option MessageFields)
prepare_line line line_number fields =
    if (line_number == 1) && text_eq line header
    then ok (some fields)
    else or_try (field_at 2 field_version line_number line)
        (λ val.
          if text_eq val version
          then ok (some fields)
          else prepare_body_line line line_number fields)
        (or_try (field_at 3 field_action line_number line)
          (λ val. or_throw (text_to_action val) (λ a. record fields { action = a }))
          (or_try (field_at 4 field_sequental_number line_number line)
            (λ val. or_throw (stoul val) (λ n. record fields { seq_number = n }))
            (or_try (field_at 5 field_dialog_id line_number line)
              (λ val. ok (some (record fields { dialog_id = val })))
              (or_try (field_at 6 field_timestamp line_number line)
                (λ val. or_throw (stol val) (λ t. record fields { timestamp = t }))
                (or_try (field_at 7 field_sign line_number line)
                  (λ val. ok (some (record fields { signature = val; state = in_signature })))
                  (prepare_body_line line line_number fields))))))

-- `std::getline` until the end of the text.
abbrev pub cons_head : ℕ → List Text → List Text
cons_head c [] = (c ∷ []) ∷ []
cons_head c (l ∷ ls) = (c ∷ l) ∷ ls

unfoldable pub get_lines : Text → List Text
get_lines [] = []
get_lines (c ∷ s) = if c == 10 then [] ∷ get_lines s else cons_head c (get_lines s)

abbrev pub next_line :
    Result (Option MessageFields) → (MessageFields → Option MessageFields) → Option MessageFields
next_line (ok (some fields)) next = next fields
next_line (ok none) next = none
next_line (throw e) next = none

unfoldable pub prepare_lines : List Text → ℕ → MessageFields → Option MessageFields
prepare_lines [] line_number fields = some fields
prepare_lines (line ∷ ls) line_number fields =
    next_line (prepare_line line line_number fields) (prepare_lines ls (line_number + 1))

abbrev pub initial_fields : Junk → MessageFields
initial_fields junk = record {
  action = junk.action;
  content = [];
  dialog_id = [];
  seq_number = 0;
  signature = [];
  state = in_header;
  timestamp = junk.timestamp;
}

abbrev pub message_of : Text → Option MessageFields → Option DialogMessage
message_of address none = none
message_of address (some f) = some (
    make_dialog_message f.action (trim f.content) f.dialog_id address f.seq_number f.signature
      f.timestamp)

unfoldable pub unmarshall : Junk → Text → Text → Option DialogMessage
unmarshall junk text address =
    message_of address (prepare_lines (get_lines text) 1 (initial_fields junk))
