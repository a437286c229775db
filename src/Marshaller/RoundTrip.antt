-- ===== src/Marshaller/RoundTrip.antt =====
-- A message that is written out and read again.
use secure_dialogues.Common.{
  ℕ, ◌+◌, ◌≤◌, ◌<◌, ◌≡◌, ◌≢◌, refl, ap, ◌∙◌, some, List, [], ◌∷◌, ◌++◌, arith, Text, All, length,
}
use secure_dialogues.Dialog.{ulong_mod}
use secure_dialogues.Decimal.{show_nat, show_int}
use secure_dialogues.Decimal.RoundTrip.{show_nat-IsDigit, IsLong}
use secure_dialogues.DialogMessage.{DialogMessage}
use secure_dialogues.Marshaller.{
  field_action, field_dialog_id, field_version, field_sequental_number, field_sign, field_timestamp,
  header, version, body_delimiter, action_to_text, trim, marshall, in_signature, in_body,
  MessageFields, Junk, get_lines, prepare_lines, initial_fields, unmarshall,
}
use secure_dialogues.Marshaller.Lines.{
  IsNot, first_piece, other_pieces, glue, glue_pieces, unlines, get_lines-append,
  get_lines-write_field, get_lines-write_field_line, trim-unlines, lacks_sound,
}
use secure_dialogues.Marshaller.Written.{
  action_to_text_line, digits_line, show_int_line, IsNoDelimiter, line_1, line_2, line_3, line_4,
  line_5, line_6, line_7, line_delimiter, signature_lines, body_lines,
}

-- The messages that pass: numbers in their types' ranges, an identifier that is one line and not
-- empty, a signature whose first line is not empty, and no line that reads as the delimiter.
pub record IsSendable (m : DialogMessage) : Type 0 where
  pub sequential_fits : m.sequential < ulong_mod
  pub timestamp_fits : IsLong m.timestamp
  pub dialog_id_line : All (IsNot 10) m.dialog_id
  pub dialog_id_ne : m.dialog_id ≢ []
  pub sign_starts : first_piece m.sign ≢ []
  pub sign_plain : All IsNoDelimiter (other_pieces m.sign)
  pub content_plain : All IsNoDelimiter (get_lines (trim m.content))

-- The lines of a written message.
unfoldable pub written_lines : DialogMessage → List Text
written_lines m =
    header
    ∷ (field_version ++ b':' ∷ version)
    ∷ (field_action ++ b':' ∷ action_to_text m.action)
    ∷ (field_sequental_number ++ b':' ∷ show_nat m.sequential)
    ∷ (field_dialog_id ++ b':' ∷ m.dialog_id)
    ∷ (field_timestamp ++ b':' ∷ show_int m.timestamp)
    ∷ (field_sign ++ b':' ∷ first_piece m.sign)
    ∷ (other_pieces m.sign ++ body_delimiter ∷ get_lines (trim m.content))

pub get_lines-marshall :
    (m : DialogMessage) → IsSendable m → get_lines (marshall m) ≡ written_lines m
unfolding marshall written_lines
get_lines-marshall m s =
    get_lines-append header _ (lacks_sound 10 header refl)
    ∙ rw
        (
          get_lines-write_field_line field_version version _ (lacks_sound 10 field_version refl)
              (lacks_sound 10 version refl),
          get_lines-write_field_line field_action (action_to_text m.action) _
              (lacks_sound 10 field_action refl) (action_to_text_line m.action).0,
          get_lines-write_field_line field_sequental_number (show_nat m.sequential) _
              (lacks_sound 10 field_sequental_number refl)
              (digits_line (show_nat m.sequential) (show_nat-IsDigit m.sequential)),
          get_lines-write_field_line field_dialog_id m.dialog_id _
              (lacks_sound 10 field_dialog_id refl) s.dialog_id_line,
          get_lines-write_field_line field_timestamp (show_int m.timestamp) _
              (lacks_sound 10 field_timestamp refl) (show_int_line m.timestamp).0,
          get_lines-write_field field_sign m.sign _ (lacks_sound 10 field_sign refl),
          get_lines-append body_delimiter (trim m.content) (lacks_sound 10 body_delimiter refl),
        )
        refl

-- The fields after the first seven lines, and after the last.
header_fields : Junk → DialogMessage → MessageFields
header_fields junk m = record {
  action = m.action;
  content = [];
  dialog_id = m.dialog_id;
  seq_number = m.sequential;
  signature = first_piece m.sign;
  state = in_signature;
  timestamp = m.timestamp;
}

last_fields : DialogMessage → MessageFields
last_fields m = record {
  action = m.action;
  content = unlines (get_lines (trim m.content));
  dialog_id = m.dialog_id;
  seq_number = m.sequential;
  signature = m.sign;
  state = in_body;
  timestamp = m.timestamp;
}

first_seven :
    (junk : Junk) (m : DialogMessage)
    → IsSendable m
    → prepare_lines (written_lines m) 1 (initial_fields junk)
      ≡ prepare_lines
          (other_pieces m.sign ++ body_delimiter ∷ get_lines (trim m.content))
          8
          (header_fields junk m)
unfolding prepare_lines written_lines header_fields
first_seven junk m s =
    rw
      (
        line_1 (initial_fields junk),
        line_2 (initial_fields junk),
        line_3 (initial_fields junk) m.action,
        line_4 (record (initial_fields junk) { action = m.action }) m.sequential s.sequential_fits,
        line_5 (record (initial_fields junk) { action = m.action; seq_number = m.sequential })
            m.dialog_id s.dialog_id_ne,
        line_6
            (record (initial_fields junk) {
              action = m.action;
              seq_number = m.sequential;
              dialog_id = m.dialog_id;
            })
            m.timestamp s.timestamp_fits,
        line_7
            (record (initial_fields junk) {
              action = m.action;
              seq_number = m.sequential;
              dialog_id = m.dialog_id;
              timestamp = m.timestamp;
            })
            (first_piece m.sign) s.sign_starts,
      )
      refl

from_delimiter :
    (m : DialogMessage) (n : ℕ) (f : MessageFields)
    → IsSendable m
    → 8 ≤ n
    → prepare_lines (body_delimiter ∷ get_lines (trim m.content)) n f
      ≡ some (record f {
        content = f.content ++ unlines (get_lines (trim m.content));
        state = in_body;
      })
unfolding prepare_lines
from_delimiter m n f s h = rw (line_delimiter f n h) (
    body_lines (get_lines (trim m.content)) (n + 1) (record f { state = in_body }) (omega arith)
      refl s.content_plain)

prepare_lines-marshall :
    (junk : Junk) (m : DialogMessage)
    → IsSendable m
    → prepare_lines (get_lines (marshall m)) 1 (initial_fields junk) ≡ some (last_fields m)
unfolding header_fields last_fields
prepare_lines-marshall junk m s =
    let n = 8 + length (other_pieces m.sign) in
    let f = record (header_fields junk m) {
      signature = first_piece m.sign ++ glue (other_pieces m.sign);
    } in
    rw (get_lines-marshall m s) (
      first_seven junk m s
      ∙ signature_lines (other_pieces m.sign) (body_delimiter ∷ get_lines (trim m.content)) 8
          (header_fields junk m) (omega arith) refl s.sign_plain
      ∙ from_delimiter m n f s (omega arith)
      ∙ ap (λ (t : Text). some (record (last_fields m) { signature = t })) (glue_pieces m.sign))

-- A sendable message without white space at its end comes back from its text as it was, with the
-- address that the receiver puts in, whatever the uninitialised fields held.
pub unmarshall-marshall :
    (junk : Junk) (m : DialogMessage) (address : Text)
    → IsSendable m
    → trim m.content ≡ m.content
    → unmarshall junk (marshall m) address ≡ some (record m { adress = address })
unfolding unmarshall last_fields
unmarshall-marshall junk m address s e = rw (prepare_lines-marshall junk m s) (
    ap (λ (t : Text). some (record m { adress = address; content = t }))
      (trim-unlines (trim m.content) ∙ ap trim e ∙ e))
