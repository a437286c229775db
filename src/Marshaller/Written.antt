-- ===== src/Marshaller/Written.antt =====
-- Each line of a written message, as it is read again.
use mathlib.Core.List.{append_assoc, append-nil}
use secure_dialogues.Common.{
  ℕ, suc, ◌+◌, ◌≤◌, ◌<◌, ◌≡◌, ◌≢◌, refl, sym, ap, ◌∙◌, true, false, some, List, [], ◌∷◌, ◌++◌,
  arith, Text, text_eq, text_eq_refl, All, length, ap₂,
}
use secure_dialogues.Common.Int.{ℤ, pos, negsuc}
use secure_dialogues.Common.Result.{ok}
use secure_dialogues.Dialog.{ulong_mod}
use secure_dialogues.Decimal.{show_nat, show_int, is_digit}
use secure_dialogues.Decimal.RoundTrip.{
  show_nat-IsDigit, show_nat_ne_nil, IsDigit, IsLong, stoul-show_nat, stol-show_int,
}
use secure_dialogues.DialogMessage.{Action, message}
use secure_dialogues.Marshaller.{
  field_action, field_dialog_id, field_version, field_sequental_number, field_sign, field_timestamp,
  header, version, body_delimiter, action_to_text, text_to_action, in_signature, in_body,
  MessageFields, prepare_line, prepare_lines,
}
use secure_dialogues.Marshaller.Lines.{IsNot, glue, unlines, keyed-line, lacks_sound, lacks}

text_to_action-action_to_text : (a : Action) → text_to_action (action_to_text a) ≡ some a
unfolding text_to_action action_to_text text_eq
text_to_action-action_to_text message = refl
text_to_action-action_to_text _ = refl

pub action_to_text_line : (a : Action) → All (IsNot 10) (action_to_text a) × (action_to_text a ≢ [])
unfolding action_to_text
action_to_text_line a = (lacks_sound 10 (action_to_text a) (no_line_end a), ne a)
  where
    no_line_end : (a : Action) → lacks 10 (action_to_text a) ≡ true
    no_line_end message = refl
    no_line_end _ = refl

    ne : (a : Action) → action_to_text a ≢ []
    ne message = λ h. cc
    ne _ = λ h. cc

pub digits_line : (s : Text) → All IsDigit s → All (IsNot 10) s
unfolding is_digit
digits_line [] h = tt
digits_line (c ∷ s) h = (ground arith, digits_line s h.1)

pub show_int_line : (k : ℤ) → All (IsNot 10) (show_int k) × (show_int k ≢ [])
unfolding show_int
show_int_line (pos n) = (digits_line (show_nat n) (show_nat-IsDigit n), show_nat_ne_nil n)
show_int_line (negsuc n) =
    ((refl, digits_line (show_nat (suc n)) (show_nat-IsDigit (suc n))), λ h. cc)

abbrev pub IsNoDelimiter : Text → Type 0
IsNoDelimiter l = text_eq l body_delimiter ≡ false

-- The first seven lines.
pub line_1 : (f : MessageFields) → prepare_line header 1 f ≡ ok (some f)
unfolding prepare_line text_eq
line_1 f = refl

pub line_2 : (f : MessageFields) → prepare_line (field_version ++ b':' ∷ version) 2 f ≡ ok (some f)
unfolding prepare_line text_eq
line_2 f =
    rw (keyed-line field_version version (lacks_sound b':' field_version refl) (λ h. cc) (λ h. cc))
      refl

pub line_3 :
    (f : MessageFields) (a : Action)
    → prepare_line (field_action ++ b':' ∷ action_to_text a) 3 f
      ≡ ok (some (record f { action = a }))
unfolding prepare_line
line_3 f a =
    rw
      (
        keyed-line field_action (action_to_text a) (lacks_sound b':' field_action refl) (λ h. cc)
            (action_to_text_line a).1,
        text_to_action-action_to_text a,
      )
      refl

pub line_4 :
    (f : MessageFields) (n : ℕ)
    → n < ulong_mod
    → prepare_line (field_sequental_number ++ b':' ∷ show_nat n) 4 f
      ≡ ok (some (record f { seq_number = n }))
unfolding prepare_line
line_4 f n h =
    rw
      (
        keyed-line field_sequental_number (show_nat n)
            (lacks_sound b':' field_sequental_number refl) (λ h. cc) (show_nat_ne_nil n),
        stoul-show_nat n h,
      )
      refl

pub line_5 :
    (f : MessageFields) (id : Text)
    → id ≢ []
    → prepare_line (field_dialog_id ++ b':' ∷ id) 5 f ≡ ok (some (record f { dialog_id = id }))
unfolding prepare_line
line_5 f id h =
    rw (keyed-line field_dialog_id id (lacks_sound b':' field_dialog_id refl) (λ h. cc) h) refl

pub line_6 :
    (f : MessageFields) (k : ℤ)
    → IsLong k
    → prepare_line (field_timestamp ++ b':' ∷ show_int k) 6 f
      ≡ ok (some (record f { timestamp = k }))
unfolding prepare_line
line_6 f k h =
    rw
      (
        keyed-line field_timestamp (show_int k) (lacks_sound b':' field_timestamp refl) (λ h. cc)
            (show_int_line k).1,
        stol-show_int k h,
      )
      refl

pub line_7 :
    (f : MessageFields) (sign : Text)
    → sign ≢ []
    → prepare_line (field_sign ++ b':' ∷ sign) 7 f
      ≡ ok (some (record f { signature = sign; state = in_signature }))
unfolding prepare_line
line_7 f sign h =
    rw (keyed-line field_sign sign (lacks_sound b':' field_sign refl) (λ h. cc) h) refl

-- The lines behind them.
pub line_delimiter :
    (f : MessageFields) (n : ℕ)
    → 8 ≤ n
    → prepare_line body_delimiter n f ≡ ok (some (record f { state = in_body }))
unfolding prepare_line
line_delimiter f n h = ground (arith, text_eq_refl body_delimiter)

line_signature :
    (f : MessageFields) (n : ℕ) (l : Text)
    → 8 ≤ n
    → f.state ≡ in_signature
    → IsNoDelimiter l
    → prepare_line l n f ≡ ok (some (record f { signature = f.signature ++ 10 ∷ l }))
unfolding prepare_line
line_signature f n l h s d = ground arith

line_body :
    (f : MessageFields) (n : ℕ) (l : Text)
    → 8 ≤ n
    → f.state ≡ in_body
    → IsNoDelimiter l
    → prepare_line l n f ≡ ok (some (record f { content = f.content ++ (l ++ 10 ∷ []) }))
unfolding prepare_line
line_body f n l h s d = ground arith

pub signature_lines :
    (ls rest : List Text) (n : ℕ) (f : MessageFields)
    → 8 ≤ n
    → f.state ≡ in_signature
    → All IsNoDelimiter ls
    → prepare_lines (ls ++ rest) n f
      ≡ prepare_lines rest (n + length ls) (record f { signature = f.signature ++ glue ls })
unfolding prepare_lines glue
signature_lines [] rest n f h s d =
    ap₂ (λ (k : ℕ) (t : Text). prepare_lines rest k (record f { signature = t })) (omega arith)
      (sym (append-nil f.signature))
signature_lines (l ∷ ls) rest n f h s d = rw (line_signature f n l h s d.0) (
    signature_lines ls rest (n + 1) (record f { signature = f.signature ++ 10 ∷ l }) (omega arith) s
      d.1
    ∙ ap₂ (λ (k : ℕ) (t : Text). prepare_lines rest k (record f { signature = t })) (omega arith)
        (append_assoc f.signature (10 ∷ l) (glue ls)))

pub body_lines :
    (ls : List Text) (n : ℕ) (f : MessageFields)
    → 8 ≤ n
    → f.state ≡ in_body
    → All IsNoDelimiter ls
    → prepare_lines ls n f ≡ some (record f { content = f.content ++ unlines ls })
unfolding prepare_lines unlines
body_lines [] n f h s d =
    ap (λ (t : Text). some (record f { content = t })) (sym (append-nil f.content))
body_lines (l ∷ ls) n f h s d = rw (line_body f n l h s d.0) (
    body_lines ls (n + 1) (record f { content = f.content ++ (l ++ 10 ∷ []) }) (omega arith) s d.1
    ∙ ap (λ (t : Text). some (record f { content = t }))
        (append_assoc f.content (l ++ 10 ∷ []) (unlines ls)
          ∙ ap (◌++◌ f.content) (append_assoc l (10 ∷ []) (unlines ls))))
