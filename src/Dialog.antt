-- ===== src/Dialog.antt =====
-- messages/src/primitives/dialog.h, dialog.cpp, dialogstatemachine.cpp: a dialog, its statuses and
-- its two counters. `unsigned long` has 64 bits, and `++` wraps.
pub mod Lifecycle
pub mod Sequence
use secure_dialogues.Common.{
  ℕ, ◌+◌, ◌%◌, ◌==◌, Bool, true, false, ◌||◌, Option, none, some, ltb, if◌then◌else◌, Text,
}
use secure_dialogues.DialogMessage.{
  Action, message, create_dialog, accept_dialog, close_dialog, abort, verify_key, key_verification,
  action_eq,
}

pub data Status : Type 0 where
  new create_request wait_confirm accepted_wait wait_key_verification active closed aborted : Status

-- `static_cast<int>(status)`.
abbrev pub status_code : Status → ℕ
status_code new = 0
status_code create_request = 1
status_code wait_confirm = 2
status_code accepted_wait = 3
status_code wait_key_verification = 4
status_code active = 5
status_code closed = 6
status_code aborted = 7

abbrev pub status_eq : Status → Status → Bool
status_eq s t = status_code s == status_code t

abbrev pub ulong_mod : ℕ
ulong_mod = 18446744073709551616

-- `std::numeric_limits<unsigned long>::max()`.
abbrev pub ulong_max : ℕ
ulong_max = 18446744073709551615

pub record Dialog : Type 0 where
  pub dialog_id : Text
  pub contact_id : Text
  pub status : Status
  pub peer_sequental : ℕ
  pub this_sequental : ℕ

unfoldable pub is_state_transition_allowed : Status → Status → Bool
is_state_transition_allowed new s = status_eq s wait_confirm || status_eq s aborted
is_state_transition_allowed create_request s = status_eq s accepted_wait || status_eq s aborted
is_state_transition_allowed wait_confirm s =
    status_eq s active || (status_eq s aborted || status_eq s wait_confirm)
is_state_transition_allowed accepted_wait s =
    status_eq s wait_key_verification || status_eq s aborted
is_state_transition_allowed wait_key_verification s =
    status_eq s active || (status_eq s closed || status_eq s aborted)
is_state_transition_allowed active s = status_eq s closed || status_eq s aborted
is_state_transition_allowed closed s = false
is_state_transition_allowed aborted s = false

unfoldable pub is_message_action_allowed_in : Status → Action → Bool
is_message_action_allowed_in new a = action_eq a create_dialog || action_eq a abort
is_message_action_allowed_in create_request a = action_eq a abort || action_eq a verify_key
is_message_action_allowed_in wait_confirm a = action_eq a abort || action_eq a key_verification
is_message_action_allowed_in accepted_wait a = action_eq a abort
is_message_action_allowed_in wait_key_verification a =
    action_eq a abort || (action_eq a accept_dialog || action_eq a close_dialog)
is_message_action_allowed_in active a =
    action_eq a abort || (action_eq a close_dialog || action_eq a message)
is_message_action_allowed_in closed a = false
is_message_action_allowed_in aborted a = false

-- The constructor with all fields.
abbrev pub make_dialog : Text → Text → ℕ → ℕ → Status → Dialog
make_dialog contact_id dialog_id peer_sequental this_sequental status = record {
  dialog_id = dialog_id;
  contact_id = contact_id;
  status = status;
  peer_sequental = peer_sequental;
  this_sequental = this_sequental;
}

-- The constructor of a dialog of this side's own: the id and the first number are drawn outside.
abbrev pub new_dialog : Text → Text → ℕ → Dialog
new_dialog contact_id uiid init_sequental = make_dialog contact_id uiid 0 init_sequental new

-- `none` is the thrown `std::runtime_error`; the dialog is then as it was.
unfoldable pub set_status : Dialog → Status → Option Dialog
unfolding is_state_transition_allowed
set_status d s =
    if is_state_transition_allowed d.status s then some (record d { status = s }) else none

unfoldable pub is_sequental_ok : Dialog → ℕ → Dialog × Bool
is_sequental_ok d sequental =
    if ltb d.peer_sequental sequental
    then (record d { peer_sequental = sequental }, true)
    else (d, false)

unfoldable pub is_message_action_allowed : Dialog → Action → Bool
unfolding is_message_action_allowed_in
is_message_action_allowed d a = is_message_action_allowed_in d.status a

unfoldable pub make_next_sequental : Dialog → Dialog × ℕ
make_next_sequental d =
    let next = (d.this_sequental + 1) % ulong_mod in (record d { this_sequental = next }, next)
