-- ===== src/Tests/Marshalling.antt =====
-- Runs of messages/src/utils/messagemarshaller.cpp.
use secure_dialogues.Common.{
  ℕ, ◌≡◌, ◌↔◌, refl, some, [], ◌∷◌, ◌++◌, List, take, arith, codes, text_eq,
}
use secure_dialogues.Common.Int.{pos, negsuc}
use secure_dialogues.DialogMessage.{
  message, abort, ack, DialogMessage, make_dialog_message, set_signature,
}
use secure_dialogues.Decimal.{is_space, show_nat, show_int}
use secure_dialogues.Marshaller.{
  action_to_text, marshall, marshall_except_signature, unmarshall, Junk, trim, zero_trailing, c_str,
  get_lines, header,
}
use secure_dialogues.Marshaller.Lines.{first_piece, other_pieces}
use secure_dialogues.Marshaller.RoundTrip.{IsSendable, unmarshall-marshall}
use secure_dialogues.Marshaller.Signing.{marshall-except_signature}
use secure_dialogues.Marshaller.Truncated.{unmarshall_truncated}

abbrev pub junk : Junk
junk = record { action = abort; timestamp = pos 77 }

abbrev other_junk : Junk
other_junk = record { action = ack; timestamp = negsuc 3 }

abbrev pub greeting : DialogMessage
greeting =
    make_dialog_message message (codes "hi" ++ 10 ∷ codes "there") (codes "id0") (codes "bob") 12 []
      (negsuc 4)

abbrev pub signature : List ℕ
signature = codes "ab" ++ 10 ∷ codes "cd"

pub greeting_trimmed : trim greeting.content ≡ greeting.content
unfolding trim zero_trailing c_str is_space
greeting_trimmed = refl

pub greeting-IsSendable : IsSendable (set_signature greeting signature)
unfolding first_piece other_pieces get_lines trim zero_trailing c_str is_space text_eq
greeting-IsSendable = record {
  sequential_fits = omega arith;
  timestamp_fits = omega arith;
  dialog_id_line = (refl, (refl, (refl, tt)));
  dialog_id_ne = λ e. cc;
  sign_starts = λ e. cc;
  sign_plain = (refl, tt);
  content_plain = (refl, (refl, tt));
}

unmarshall-marshall_example :
    unmarshall junk (marshall (set_signature greeting signature)) (codes "eve")
    ≡ some (record (set_signature greeting signature) { adress = codes "eve" })
unmarshall-marshall_example =
    unmarshall-marshall junk (set_signature greeting signature) (codes "eve") greeting-IsSendable
      greeting_trimmed

marshall-except_signature_example :
    (marshall greeting ≡ marshall_except_signature greeting) ↔ (greeting.sign ≡ [])
marshall-except_signature_example = marshall-except_signature greeting

-- The first four lines of a message.
abbrev cut_text : List ℕ
cut_text =
    header
    ++ 10
      ∷ (codes "VERSION:1.0" ++ 10 ∷ (codes "ACTION:MESSAGE" ++ 10 ∷ codes "SEQUENTAL_NUMBER:12"))

cut_text_lines :
    get_lines cut_text ≡ take 4 (get_lines (marshall (set_signature greeting signature)))
unfolding get_lines marshall action_to_text show_nat show_int trim zero_trailing c_str is_space
cut_text_lines = refl

unmarshall_truncated_example :
    unmarshall junk cut_text (codes "eve")
    ≡ some (make_dialog_message message [] [] (codes "eve") 12 [] (pos 77))
unmarshall_truncated_example =
    unmarshall_truncated junk (set_signature greeting signature) greeting-IsSendable 4 cut_text
      (codes "eve") (omega arith) cut_text_lines
