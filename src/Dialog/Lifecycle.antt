-- ===== src/Dialog/Lifecycle.antt =====
-- The statuses that a dialog can take, over every sequence of `setStatus` calls.
use secure_dialogues.Common.{
  ℕ, ◌+◌, ◌≤◌, ◌≡◌, ◌≢◌, Bool, true, false, Option, none, some, List, [], ◌∷◌, ◌⊎◌, arith, All,
  if◌then◌else◌,
}
use secure_dialogues.Dialog.{
  Status, new, create_request, wait_confirm, accepted_wait, wait_key_verification, active, closed,
  aborted, status_eq, Dialog, set_status,
}

-- A refused call throws and leaves the dialog as it was.
abbrev pub status_or : Dialog → Option Dialog → Dialog
status_or d none = d
status_or d (some d') = d'

-- The dialog after `setStatus` has been called with each status in turn.
pub set_statuses : Dialog → List Status → Dialog
set_statuses d [] = d
set_statuses d (s ∷ ss) = set_statuses (status_or d (set_status d s)) ss

abbrev pub is_terminal : Status → Bool
is_terminal closed = true
is_terminal aborted = true
is_terminal _ = false

-- A live dialog accepts `ABORTED`, and a closed or aborted one throws on it.
pub set_status_aborted :
    (d : Dialog)
    → set_status d aborted
      ≡ (if is_terminal d.status then none else some (record d { status = aborted }))
unfolding set_status
set_status_aborted d = ground arith

-- The height of a status in the diagram.
abbrev rank : Status → ℕ
rank new = 0
rank create_request = 0
rank wait_confirm = 1
rank accepted_wait = 1
rank wait_key_verification = 2
rank active = 3
rank closed = 4
rank aborted = 4

-- How often the status changes while the calls are made.
pub changes : Dialog → List Status → ℕ
changes d [] = 0
changes d (s ∷ ss) =
    let d' = status_or d (set_status d s) in
    (if status_eq d'.status d.status then 0 else 1) + changes d' ss

rank-step :
    (d : Dialog) (s : Status)
    → let d' = status_or d (set_status d s) in
      rank d.status + (if status_eq d'.status d.status then 0 else 1) ≤ rank d'.status
unfolding set_status
rank-step d s = ground arith

changes-rank :
    (d : Dialog) (ss : List Status) → rank d.status + changes d ss ≤ rank (set_statuses d ss).status
unfolding changes set_statuses
changes-rank d [] = omega arith
changes-rank d (s ∷ ss) =
    omega (arith, rank-step d s, changes-rank (status_or d (set_status d s)) ss)

rank_le : (s : Status) → rank s ≤ 4
rank_le new = omega arith
rank_le _ = omega arith

-- The status of a dialog changes at most four times in its life, whatever calls are made.
pub changes_le : (d : Dialog) (ss : List Status) → changes d ss ≤ 4
changes_le d ss = omega (arith, changes-rank d ss, rank_le (set_statuses d ss).status)

-- Where a dialog can be that was created by a request of the peer.
abbrev is_request_side : Status → Bool
is_request_side create_request = true
is_request_side aborted = true
is_request_side _ = false

request_step :
    (d : Dialog) (s : Status)
    → s ≢ accepted_wait
    → is_request_side d.status ≡ true
    → is_request_side (status_or d (set_status d s)).status ≡ true
unfolding set_status
request_step d s n h = ground arith

request_steps :
    (d : Dialog) (ss : List Status)
    → All (λ s. s ≢ accepted_wait) ss
    → is_request_side d.status ≡ true
    → is_request_side (set_statuses d ss).status ≡ true
unfolding set_statuses
request_steps d [] n h = h
request_steps d (s ∷ ss) n h =
    request_steps (status_or d (set_status d s)) ss n.1 (request_step d s n.0 h)

-- A dialog in `CREATE_REQUEST` stays there or becomes `ABORTED` under every sequence of
-- `setStatus` calls that never asks for `ACCEPTED_WAIT`: in particular it never becomes `ACTIVE`.
pub create_request_stuck :
    (d : Dialog) (ss : List Status)
    → d.status ≡ create_request
    → All (λ s. s ≢ accepted_wait) ss
    → ((set_statuses d ss).status ≡ create_request) ⊎ ((set_statuses d ss).status ≡ aborted)
create_request_stuck d ss e n = ground (arith, request_steps d ss n)

-- Where a dialog of this side's own can be before the peer has answered.
abbrev is_unconfirmed : Status → Bool
is_unconfirmed new = true
is_unconfirmed aborted = true
is_unconfirmed _ = false

unconfirmed_step :
    (d : Dialog) (s : Status)
    → s ≢ wait_confirm
    → is_unconfirmed d.status ≡ true
    → is_unconfirmed (status_or d (set_status d s)).status ≡ true
unfolding set_status
unconfirmed_step d s n h = ground arith

unconfirmed_steps :
    (d : Dialog) (ss : List Status)
    → All (λ s. s ≢ wait_confirm) ss
    → is_unconfirmed d.status ≡ true
    → is_unconfirmed (set_statuses d ss).status ≡ true
unfolding set_statuses
unconfirmed_steps d [] n h = h
unconfirmed_steps d (s ∷ ss) n h =
    unconfirmed_steps (status_or d (set_status d s)) ss n.1 (unconfirmed_step d s n.0 h)

-- A new dialog becomes `ACTIVE` only if `setStatus` was called with `WAIT_CONFIRM`: without such a
-- call it is still `NEW`, or `ABORTED`.
pub new_needs_wait_confirm :
    (d : Dialog) (ss : List Status)
    → d.status ≡ new
    → All (λ s. s ≢ wait_confirm) ss
    → ((set_statuses d ss).status ≡ new) ⊎ ((set_statuses d ss).status ≡ aborted)
new_needs_wait_confirm d ss e n = ground (arith, unconfirmed_steps d ss n)
