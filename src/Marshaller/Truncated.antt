-- ===== src/Marshaller/Truncated.antt =====
-- Texts that end before all fields of a message were read.
use secure_dialogues.DialogMessage.{DialogMessage, make_dialog_message}
use secure_dialogues.Decimal.{show_nat, show_int}
use secure_dialogues.Common.{
  ◌≡◌, refl, some, List, [], ◌∷◌, ◌++◌, arith, Text, ap, ℕ, zero, suc, ◌≤◌, ◌∙◌, take, leb,
  if◌then◌else◌,
}
use secure_dialogues.Marshaller.{
  Junk, MessageFields, prepare_line, prepare_lines, initial_fields, get_lines, marshall, unmarshall,
  field_action, field_sequental_number, field_dialog_id, field_timestamp, action_to_text,
  message_of, trim, zero_trailing, c_str,
}
use secure_dialogues.Marshaller.Written.{line_1, line_2, line_3, line_4, line_5, line_6}
use secure_dialogues.Marshaller.RoundTrip.{IsSendable, written_lines, get_lines-marshall}

six_lines :
    (j k : Junk) (l1 l2 l3 l4 l5 l6 : Text) (rest : List Text)
    → prepare_lines (l1 ∷ l2 ∷ l3 ∷ l4 ∷ l5 ∷ l6 ∷ rest) 1 (initial_fields j)
      ≡ prepare_lines (l1 ∷ l2 ∷ l3 ∷ l4 ∷ l5 ∷ l6 ∷ rest) 1 (initial_fields k)
unfolding prepare_lines prepare_line
six_lines j k l1 l2 l3 l4 l5 l6 rest = ground arith

-- A text of at least six lines is read without looking at what the uninitialised fields hold.
pub unmarshall_six_lines :
    (j k : Junk) (text address l1 l2 l3 l4 l5 l6 : Text) (rest : List Text)
    → get_lines text ≡ l1 ∷ l2 ∷ l3 ∷ l4 ∷ l5 ∷ l6 ∷ rest
    → unmarshall j text address ≡ unmarshall k text address
unfolding unmarshall
unmarshall_six_lines j k text address l1 l2 l3 l4 l5 l6 rest e =
    rw e (ap (message_of address) (six_lines j k l1 l2 l3 l4 l5 l6 rest))

-- The message as far as its first lines tell it: from the third on, one field each.
abbrev pub message_cut : ℕ → Junk → DialogMessage → Text → DialogMessage
message_cut n junk m address =
    make_dialog_message (if leb 3 n then m.action else junk.action) []
      (if leb 5 n then m.dialog_id else []) address (if leb 4 n then m.sequential else 0) []
      (if leb 6 n then m.timestamp else junk.timestamp)

module _ (junk : Junk) (m : DialogMessage) (s : IsSendable m) where
  abbrev start : MessageFields
  start = initial_fields junk

  abbrev after_3 : MessageFields
  after_3 = record start { action = m.action }

  abbrev after_4 : MessageFields
  after_4 = record after_3 { seq_number = m.sequential }

  abbrev after_5 : MessageFields
  after_5 = record after_4 { dialog_id = m.dialog_id }

  abbrev after_6 : MessageFields
  after_6 = record after_5 { timestamp = m.timestamp }

  abbrev Reads : List Text → ℕ → MessageFields → List Text → Type 0
  Reads ls n f rest = prepare_lines (ls ++ rest) 1 start ≡ prepare_lines rest n f

  read_1 : (rest : List Text) → Reads (take 1 (written_lines m)) 2 start rest
  unfolding prepare_lines written_lines
  read_1 rest = rw (line_1 start) refl

  read_2 : (rest : List Text) → Reads (take 2 (written_lines m)) 3 start rest
  unfolding prepare_lines written_lines
  read_2 rest = rw (line_1 start, line_2 start) refl

  read_3 : (rest : List Text) → Reads (take 3 (written_lines m)) 4 after_3 rest
  unfolding prepare_lines written_lines
  read_3 rest =
      read_2 ((field_action ++ b':' ∷ action_to_text m.action) ∷ rest)
      ∙ rw (line_3 start m.action) refl

  read_4 : (rest : List Text) → Reads (take 4 (written_lines m)) 5 after_4 rest
  unfolding prepare_lines written_lines
  read_4 rest =
      read_3 ((field_sequental_number ++ b':' ∷ show_nat m.sequential) ∷ rest)
      ∙ rw (line_4 after_3 m.sequential s.sequential_fits) refl

  read_5 : (rest : List Text) → Reads (take 5 (written_lines m)) 6 after_5 rest
  unfolding prepare_lines written_lines
  read_5 rest =
      read_4 ((field_dialog_id ++ b':' ∷ m.dialog_id) ∷ rest)
      ∙ rw (line_5 after_4 m.dialog_id s.dialog_id_ne) refl

  read_6 : (rest : List Text) → Reads (take 6 (written_lines m)) 7 after_6 rest
  unfolding prepare_lines written_lines
  read_6 rest =
      read_5 ((field_timestamp ++ b':' ∷ show_int m.timestamp) ∷ rest)
      ∙ rw (line_6 after_5 m.timestamp s.timestamp_fits) refl

  cut_read :
      (n : ℕ) (address : Text)
      → n ≤ 6
      → message_of address (prepare_lines (take n (written_lines m)) 1 start)
        ≡ some (message_cut n junk m address)
  unfolding prepare_lines written_lines trim zero_trailing c_str
  cut_read zero address h = refl
  cut_read (suc zero) address h = ap (message_of address) (read_1 [])
  cut_read (suc (suc zero)) address h = ap (message_of address) (read_2 [])
  cut_read (suc (suc (suc zero))) address h = ap (message_of address) (read_3 [])
  cut_read (suc (suc (suc (suc zero)))) address h = ap (message_of address) (read_4 [])
  cut_read (suc (suc (suc (suc (suc zero))))) address h = ap (message_of address) (read_5 [])
  cut_read (suc (suc (suc (suc (suc (suc zero)))))) address h = ap (message_of address) (read_6 [])
  cut_read (suc (suc (suc (suc (suc (suc (suc n))))))) address h = absurd (omega arith)

  -- Of the text of a sendable message only the first lines arrive, six at most: the text is accepted all
  -- the same. The fields whose lines are there are read, and the others are empty or 0, but for the
  -- action and the time, which are what the uninitialised memory held. There is no signature.
  pub unmarshall_truncated :
      (n : ℕ) (text address : Text)
      → n ≤ 6
      → get_lines text ≡ take n (get_lines (marshall m))
      → unmarshall junk text address ≡ some (message_cut n junk m address)
  unfolding unmarshall
  unmarshall_truncated n text address few cut =
      rw (cut, get_lines-marshall m s) (cut_read n address few)
