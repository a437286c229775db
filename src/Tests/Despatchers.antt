-- ===== src/Tests/Despatchers.antt =====
-- Runs of messages/src/communication in a small world.
use secure_dialogues.Common.{
  ◌++◌, inl, inr, ◌≡◌, refl, Bool, true, false, some, [], ◌∷◌, Text, codes, ℕ, List, arith, text_eq,
}
use secure_dialogues.Common.Int.{pos}
use secure_dialogues.Common.Maps.{find, insert, pair_key, text_key}
use secure_dialogues.Common.Result.{ok, disconnected, state_after, ◌>>◌}
use secure_dialogues.DialogMessage.{
  DialogMessage, make_dialog_message, message, ack, Action, set_signature, make_abort,
}
use secure_dialogues.Dialog.{
  Dialog, Status, make_dialog, create_request, active, closed, wait_key_verification,
  is_state_transition_allowed, set_status, make_next_sequental, is_message_action_allowed,
  is_sequental_ok,
}
use secure_dialogues.MessageContainer.{
  set_active_dialog as container_set_active_dialog, peek_found, add_to_active_dialog_with_wrapper,
  empty_container, add_message, update_status, deliveried, message_of, income, outcome, system,
}
use secure_dialogues.Repository.{Repository, StoredElement, make_stored}
use secure_dialogues.Core.{
  World, save_wrapper, DeliveryHandler, dialog_action_delivery, DiscoveredContact,
  make_discovered_contact,
}
use secure_dialogues.Core.Despatcher.{send_message, send_ack, send_and_forget, channel_send_message}
use secure_dialogues.Core.Dispatch.{
  dispatch, dispatch_body, handle_each, returned, terminated, check_idle,
}
use secure_dialogues.Core.TextMessages.{handle}
use secure_dialogues.Core.Sending.{OnlySends}
use secure_dialogues.Core.Rejected.{dispatch_bad_signature}
use secure_dialogues.Core.Terminations.{
  dispatch-failed_ack, dispatch-refused_status, check_idle-refused_status,
}
use secure_dialogues.Core.Texts.{handle_replayed}
use secure_dialogues.Core.Discovered.{dispatch-discover_message}
use secure_dialogues.Discovery.{discover_message}
use secure_dialogues.Core.Sent.{text_message, dispatch-send_text}
use secure_dialogues.Core.TextMessages.{send_text, set_active_dialog, is_it_you_action as is_text}
use secure_dialogues.Core.DialogRequests.{is_it_you_action as is_request}
use secure_dialogues.Core.DialogActions.{make_message, abort_dialog}
use secure_dialogues.Listeners.Dialogs.{generate_system_message}
use secure_dialogues.Core.Steps.{
  Run, start, next, received, chosen, sent, aborted as user_aborts, IsExplainedIn,
}
use secure_dialogues.Core.History.{history}
use secure_dialogues.MessageContainer.Grows.{Grown, entries}
use secure_dialogues.MessageContainer.Views.{dialog_messages, shown}
use secure_dialogues.Marshaller.{marshall}
use secure_dialogues.Tests.Environments.{small, world, bob}

abbrev pub mail : Text
mail = codes "mail"

abbrev text_of : Action → ℕ → Text → DialogMessage
text_of action number sign =
    make_dialog_message action (0 ∷ codes "hi") (codes "d") (codes "bob") number sign (pos 990)

abbrev pub repo_of :
    List ((Text × ℕ) × StoredElement DeliveryHandler) → Repository DeliveryHandler (Text × ℕ)
repo_of values = record { default_timeout = 100; check_period = 120; values = values }

abbrev pub dialog_in : Status → Dialog
dialog_in s = make_dialog (codes "c") (codes "d") 4 9 s

abbrev talking : Bool → World small
talking cut = world ((codes "d", dialog_in active) ∷ []) empty_container (repo_of []) cut

-- The world after the ACK of a message.
abbrev acked : DialogMessage → World small
acked m = state_after (send_ack m mail (talking false))

dispatch_bad_signature_example :
    (dispatch (text_of message 7 (codes "x")) mail (talking false)
      ≡ returned tt (acked (text_of message 7 (codes "x"))))
    × OnlySends (talking false) (acked (text_of message 7 (codes "x")))
unfolding send_ack send_and_forget channel_send_message find text_eq
dispatch_bad_signature_example =
    dispatch_bad_signature (text_of message 7 (codes "x")) mail (talking false)
      (acked (text_of message 7 (codes "x"))) refl refl refl (λ e. ground arith)

dispatch-failed_ack_example :
    dispatch (text_of message 7 (codes "x")) mail (talking true) ≡ terminated
unfolding find text_eq
dispatch-failed_ack_example =
    dispatch-failed_ack (text_of message 7 (codes "x")) mail (record { wait_ack_interval = 60 })
      (codes "s") disconnected (talking true) refl refl refl refl refl refl

-- The responder of a dialog: its VERIFY_KEY waits for the ACK, and the dialog is a CREATE_REQUEST.
abbrev responder : World small
responder =
    world ((codes "d", dialog_in create_request) ∷ []) empty_container
      (repo_of (
        (
          (codes "d", 10),
          make_stored
              (dialog_action_delivery (dialog_in create_request) wait_key_verification true
                (codes "bob") mail)
              90,
        )
        ∷ []))
      false

dispatch-refused_status_example : dispatch (text_of ack 10 (codes " ")) mail responder ≡ terminated
unfolding find text_eq is_state_transition_allowed
dispatch-refused_status_example =
    dispatch-refused_status (text_of ack 10 (codes " ")) mail (dialog_in create_request)
      (dialog_in create_request) wait_key_verification true (codes "bob") mail 90 responder refl
      refl refl refl

-- A dialog that its peer closed while the CLOSE_DIALOG of this side was not acknowledged.
abbrev closing : World small
closing =
    world ((codes "d", dialog_in closed) ∷ []) empty_container
      (repo_of (
        (
          (codes "d", 10),
          make_stored (dialog_action_delivery (dialog_in active) closed false (codes "bob") mail)
              40,
        )
        ∷ []))
      false

check_idle-refused_status_example : check_idle closing ≡ terminated
unfolding find text_eq is_state_transition_allowed
check_idle-refused_status_example =
    check_idle-refused_status (dialog_in active) (dialog_in closed) closed (codes "bob") mail
      (codes "d", 10) 40 [] closing refl refl refl refl

handle_replayed_example :
    (handle (text_of message 7 (codes "s")) mail >> handle (text_of message 7 (codes "s")) mail)
      (talking false)
    ≡ (
      ok tt,
      record (talking false) {
        container =
            add_message
              (codes "d")
              (codes "hi")
              true
              (add_message (codes "d") (codes "hi") true empty_container);
      },
    )
unfolding find text_eq
handle_replayed_example =
    handle_replayed (text_of message 7 (codes "s")) mail (dialog_in active) (codes "hi")
      (talking false) refl refl refl refl

-- The active dialog is `d`, and nothing waits.
abbrev composing : World small
composing =
    world ((codes "d", dialog_in active) ∷ [])
      (record empty_container {
        messages = (codes "d", []) ∷ [];
        active_dialog = codes "d";
        event_handlers = 7 ∷ [];
      })
      (repo_of []) false

dispatch-send_text_example :
    ((send_text (codes "hi") composing).0 ≡ ok tt)
    × ((end : World small) × (dispatch
            (text_of ack 10 (codes " "))
            mail
            (state_after (send_text (codes "hi") composing))
          ≡ returned tt end)
        × (dialog_messages (codes "d") end.container
            ≡ some (
                shown (dialog_messages (codes "d") composing.container)
                ++ some (update_status deliveried (message_of (codes "hi") false)) ∷ [])))
unfolding find text_eq make_next_sequental is_message_action_allowed insert
dispatch-send_text_example =
    dispatch-send_text (codes "hi") (0 ∷ codes "hi") (codes "s") mail (dialog_in active) bob
      (record { wait_ack_interval = 60 }) composing
      ((codes "d", (make_next_sequental (dialog_in active)).0) ∷ [])
      (
        false,
        (marshall (
              set_signature (text_message (dialog_in active) bob (0 ∷ codes "hi") (pos 1000))
                (codes "s")))
            ∷ [],
      )
      (text_of ack 10 (codes " ")) ((tt, tt), inr refl) refl refl refl refl refl refl refl refl refl
      refl refl refl refl refl refl

abbrev hello : DialogMessage
hello =
    record (discover_message (codes "Ann") (codes "KEY") (codes "id") 5 (codes "me") (pos 990)) {
      adress = codes "ann";
    }

abbrev discovered_ann : DiscoveredContact
discovered_ann =
    make_discovered_contact (pos 77) mail (codes "ann") (codes "KEY") (codes "Ann") (codes "id")

dispatch-discover_message_example :
    dispatch hello mail (talking false)
    ≡ returned tt (record (acked hello) { discovered = discovered_ann ∷ [] })
unfolding send_ack send_and_forget channel_send_message find text_eq discover_message
dispatch-discover_message_example =
    dispatch-discover_message hello (codes "Ann") (codes "KEY") (codes "id") (codes "me") mail 5
      (pos 990) (talking false) (acked hello) (discovered_ann ∷ []) (refl, (refl, (refl, tt))) refl
      refl refl refl refl refl

-- A text comes, the user chooses its dialog, answers, and aborts the dialog.
abbrev heard : World small
heard = state_after (dispatch_body (text_of message 7 (codes "s")) mail (talking false))

abbrev answered : World small
answered = state_after (send_text (codes "yes") (state_after (set_active_dialog (codes "d") heard)))

dispatch-text_of : dispatch (text_of message 7 (codes "s")) mail (talking false) ≡ returned tt heard
unfolding dispatch find text_eq handle_each is_text handle is_sequental_ok is_request
dispatch-text_of = refl

abbrev over : World small
over = state_after (abort_dialog (codes "d") answered)

abbrev talk : Run (talking false) over
talk =
    next
      (next
        (next (next start (received (text_of message 7 (codes "s")) mail dispatch-text_of))
          (chosen (codes "d") refl))
        (sent (codes "yes") refl))
      (user_aborts (codes "d") refl)

history_example : Grown (IsExplainedIn talk) (talking false).container over.container
history_example = history (talking false) over talk (tt, inl refl)

explained_texts :
    entries (codes "d") over.container
    ≡ some (income, codes "hi")
      ∷ some (outcome, codes "yes")
      ∷ some (system, codes "Dialog was aborted")
      ∷ []
unfolding find text_eq send_text set_active_dialog container_set_active_dialog dispatch_body
    handle_each is_text handle is_sequental_ok is_request add_message peek_found insert make_message
    is_message_action_allowed add_to_active_dialog_with_wrapper send_message save_wrapper
    generate_system_message make_next_sequental abort_dialog send_and_forget set_status make_abort
explained_texts = refl
