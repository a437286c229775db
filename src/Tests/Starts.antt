-- ===== src/Tests/Starts.antt =====
-- Runs of the receiving thread, of the listeners to the storages, and of the start of the core.
use secure_dialogues.Common.{
  ℕ, ◌≡◌, refl, Bool, true, false, some, [], ◌∷◌, ◌++◌, codes, text_eq, arith, inl,
}
use secure_dialogues.Common.Int.{pos}
use secure_dialogues.Common.Maps.{find, text_key}
use secure_dialogues.Common.Result.{ok, throw, runtime_error, range_error, state_after}
use secure_dialogues.DialogMessage.{DialogMessage, set_signature}
use secure_dialogues.Dialog.{active, make_next_sequental}
use secure_dialogues.Contacts.{ConnectionHolder, make_connection_holder}
use secure_dialogues.Marshaller.{
  marshall, marshall_except_signature, trim, zero_trailing, c_str, get_lines,
}
use secure_dialogues.Marshaller.RoundTrip.{IsSendable}
use secure_dialogues.Marshaller.Lines.{first_piece, other_pieces}
use secure_dialogues.Decimal.{is_space}
use secure_dialogues.MessageContainer.{empty_container, message_of}
use secure_dialogues.MessageContainer.Views.{dialog_messages, shown}
use secure_dialogues.Core.{World, failed_connect}
use secure_dialogues.Core.Despatcher.{send_ack, send_and_forget, channel_send_message}
use secure_dialogues.Core.Dispatch.{returned}
use secure_dialogues.Core.Sent.{text_message}
use secure_dialogues.Core.Cycle.{cycle_turn, messsage_cycle}
use secure_dialogues.Core.Receiving.{cycle_turn-text_message}
use secure_dialogues.Core.Reconnecting.{messsage_cycle-flaps, alone, flaps}
use secure_dialogues.CryptoSystem.{is_signature_ok}
use secure_dialogues.Startup.{CoreState, start_core, initialize}
use secure_dialogues.Startup.Informed.{start_core_forgets, told}
use secure_dialogues.Tests.Environments.{small, world, bob}
use secure_dialogues.Tests.Crypto.{tiny}
use secure_dialogues.Tests.Despatchers.{mail, dialog_in, repo_of}

-- The text that one side sends, and the other side that receives it.
abbrev greeting : DialogMessage
greeting = set_signature (text_message (dialog_in active) bob (codes "xhi") (pos 990)) (codes "s")

greeting-CanBeSent : IsSendable greeting
unfolding first_piece other_pieces get_lines trim zero_trailing c_str is_space text_eq
    make_next_sequental
greeting-CanBeSent = record {
  sequential_fits = omega arith;
  timestamp_fits = omega arith;
  dialog_id_line = (refl, tt);
  dialog_id_ne = λ e. cc;
  sign_starts = λ e. cc;
  sign_plain = tt;
  content_plain = (refl, tt);
}

body_trimmed : trim (codes "xhi") ≡ codes "xhi"
unfolding trim zero_trailing c_str is_space
body_trimmed = refl

abbrev listening : World small
listening = record (world ((codes "d", dialog_in active) ∷ []) empty_container (repo_of []) false) {
  network = (false, marshall greeting ∷ []);
}

abbrev answered : World small
answered = state_after (
    send_ack (record greeting { adress = codes "bob" }) mail
      (record listening { network = (false, []) }))

cycle_turn-text_message_example :
    (end : World small) × (cycle_turn mail false listening ≡ returned false end)
    × (dialog_messages (codes "d") end.container
        ≡ some (
            shown (dialog_messages (codes "d") listening.container)
            ++ some (message_of (codes "hi") true) ∷ []))
unfolding send_ack send_and_forget channel_send_message find text_eq make_next_sequental
cycle_turn-text_message_example =
    cycle_turn-text_message (dialog_in active) (dialog_in active) bob (codes "xhi") (codes "s")
      (codes "bob") mail (codes "hi") (pos 990) listening answered (false, []) greeting-CanBeSent
      body_trimmed (tt, inl refl) refl refl refl refl refl refl refl refl refl refl

abbrev cut_off : World small
cut_off = world [] empty_container (repo_of []) true

messsage_cycle-flaps_example :
    messsage_cycle (alone 3) mail true cut_off
    ≡ returned true (record cut_off { event_queue = cut_off.event_queue ++ flaps mail 3 })
messsage_cycle-flaps_example = messsage_cycle-flaps 3 mail cut_off refl refl

abbrev noticed : World small
noticed = record cut_off { event_queue = (failed_connect, mail) ∷ [] }

abbrev renewed : ConnectionHolder ℕ
renewed = make_connection_holder mail (some 5)

abbrev fresh : CoreState tiny
fresh = initialize (bob ∷ []) (2, 3)

abbrev none_alive : ℕ → CoreState tiny → Bool
none_alive l s = false

start_core_forgets_example :
    ((is_signature_ok greeting fresh.crypto).0 ≡ throw range_error)
    × ((is_signature_ok greeting (told none_alive bob fresh).crypto).0
        ≡ tiny.is_valid 2 (marshall_except_signature greeting) greeting.sign)
unfolding start_core
start_core_forgets_example =
    start_core_forgets none_alive (bob ∷ []) (ok (2, 3)) (throw runtime_error) fresh bob 2 greeting
      refl refl refl
