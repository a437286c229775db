-- ===== src/DialogMessage.antt =====
-- messages/src/primitives/dialogmessage.h and dialogmessage.cpp, messages/src/constants.h: the
-- message that the core sends and receives. Times are seconds; a time is an argument of the
-- functions for which the source asks the clock.
use secure_dialogues.Common.{ℕ, ◌==◌, Bool, Text, codes}
use secure_dialogues.Common.Int.{ℤ}

pub data Action : Type 0 where
  message create_dialog accept_dialog close_dialog ack abort verify_key key_verification : Action
  contact_discover : Action

-- `static_cast<int>(action)`.
abbrev pub action_code : Action → ℕ
action_code message = 0
action_code create_dialog = 1
action_code accept_dialog = 2
action_code close_dialog = 3
action_code ack = 4
action_code abort = 5
action_code verify_key = 6
action_code key_verification = 7
action_code contact_discover = 8

abbrev pub action_eq : Action → Action → Bool
action_eq a b = action_code a == action_code b

pub record DialogMessage : Type 0 where
  pub action : Action
  pub content : Text
  pub dialog_id : Text
  pub adress : Text
  pub sequential : ℕ
  pub sign : Text
  pub timestamp : ℤ

-- The constructor with all fields but the time, which is the clock's.
abbrev pub make_dialog_message : Action → Text → Text → Text → ℕ → Text → ℤ → DialogMessage
make_dialog_message action content dialog_id adress number sign now = record {
  action = action;
  content = content;
  dialog_id = dialog_id;
  adress = adress;
  sequential = number;
  sign = sign;
  timestamp = now;
}

abbrev pub set_signature : DialogMessage → Text → DialogMessage
set_signature m signature = record m { sign = signature }

abbrev pub set_content : DialogMessage → Text → DialogMessage
set_content m content = record m { content = content }

unfoldable pub make_abort : Text → Text → ℕ → ℤ → DialogMessage
make_abort dialog_id contact number now =
    make_dialog_message abort (codes "") dialog_id contact number (codes "") now

unfoldable pub make_ack : DialogMessage → ℤ → DialogMessage
make_ack mess now =
    make_dialog_message ack (codes "") mess.dialog_id mess.adress mess.sequential (codes " ") now

-- constants.h, in seconds but for the last, which is in milliseconds.
abbrev pub max_timestamp_diff : ℕ
max_timestamp_diff = 140

abbrev pub wait_ack : ℕ
wait_ack = 100

abbrev pub check_idle_ack : ℕ
check_idle_ack = 120
