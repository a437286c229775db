-- ===== src/Gui/DialogKept.antt =====
-- What each operation keeps of the list of dialogs.
use secure_dialogues.Common.{
  ℕ, ◌==◌, ◌≡◌, refl, ap, sym, ◌∙◌, true, Option, none, some, List, [], ◌∷◌, ◌++◌, map, Text,
  text_eq, text_eq_refl, text_eq_iff, length, length-modify, modify, get_elem?, ◌⊎◌, inl, inr,
  Bool-cases, arith, if◌then◌else◌,
}
use secure_dialogues.Common.Int.{ℤ}
use secure_dialogues.Common.Result.{Result, ok, throw}
use secure_dialogues.Dialog.{Dialog}
use secure_dialogues.Contacts.{Contact}
use secure_dialogues.Gui.{reset_model, not_valid_dialog_was_selected, rows_told}
use secure_dialogues.Gui.Rows.{find_if}
use secure_dialogues.Gui.RowsTold.{rows_told-append, find_if_holds}
use secure_dialogues.Gui.DialogModel.{
  erase_info, DialogInfo, DialogUserModel, messages_readed, assign_contact, assign_dialog,
  add_unread_message, make_dialog_info, has_dialog_id, update_active_dialog, add_found,
  change_found, select_changed, remove_found_info, select_first, changed_contact, add_unread_at,
  select_row,
}
use secure_dialogues.Gui.Selection.{
  IsConsistent, last_selected-append, ids, listed, ids-append, ids-modify, ids-map,
  ids-assign_dialog, listed-erase_info, listed-get_elem?, some_inj,
}
use secure_dialogues.Gui.DialogSteps.{
  appended, selected-IsConsistent, same_ids-IsConsistent, read-IsConsistent, told-IsConsistent,
  appended-IsConsistent,
}

abbrev pub after : Result DialogUserModel → DialogUserModel → DialogUserModel
after (ok m') m = m'
after (throw e) m = m

listed-last : (j : Text) (js : List Text) → listed j (js ++ j ∷ []) ≡ true
listed-last j [] = rw (text_eq_refl j) refl
listed-last j (k ∷ ks) = ground (arith, listed-last j ks)

pub add_found-IsConsistent :
    (d : Dialog) (now : ℤ) (r : Result Contact) (m : DialogUserModel)
    → IsConsistent m
    → IsConsistent (after (add_found d now r m) m)
add_found-IsConsistent d now (throw e) m c = c
add_found-IsConsistent d now (ok contact) m c =
    let i = make_dialog_info d contact now in
    let grown = appended-IsConsistent i m c in
    elim (Bool-cases (length (m.dialogs_info ++ i ∷ []) == 1)) [
      | inl one ↦ rw one (
          selected-IsConsistent i (appended i m) grown.rows
            (rw (ids-append m.dialogs_info i) (listed-last i.dialog_id (ids m.dialogs_info))))
      | inr more ↦ rw more grown
    ]

select_changed-IsConsistent :
    (d : Dialog) (n : ℕ) (o : Option DialogInfo) (m : DialogUserModel)
    → get_elem? m.dialogs_info n ≡ o
    → IsConsistent m
    → IsConsistent (select_changed d n o m)
select_changed-IsConsistent d n none m e c = c
select_changed-IsConsistent d n (some i) m e c =
    read-IsConsistent n (update_active_dialog i m)
      (selected-IsConsistent i m c.rows (listed-get_elem? m.dialogs_info n i e))

pub change_found-IsConsistent :
    (d : Dialog) (now : ℤ) (o : Option ℕ) (m : DialogUserModel)
    → find_if (has_dialog_id d.dialog_id) m.dialogs_info ≡ o
    → IsConsistent m
    → IsConsistent (change_found d now o m)
change_found-IsConsistent d now none m e c = c
change_found-IsConsistent d now (some n) m e c =
    let changed = modify (assign_dialog d now) m.dialogs_info n in
    let m' : DialogUserModel = record m { dialogs_info = changed } in
    let kept = told-IsConsistent n m' (
      same_ids-IsConsistent changed m (length-modify (assign_dialog d now) m.dialogs_info n)
        (ids-assign_dialog d now m.dialogs_info n e) c) in
    elim (Bool-cases (text_eq m.active_dialog d.dialog_id)) [
      | inl own ↦ rw own (select_changed-IsConsistent d n (get_elem? changed n) _ refl kept)
      | inr other ↦ rw other kept
    ]

-- The rows that are left after the reset that tells their number.
abbrev shrunk : List DialogInfo → DialogUserModel → DialogUserModel
shrunk left m = record m {
  dialogs_info = left;
  signals = m.signals ++ reset_model (length left) ∷ [];
}

shrunk-IsConsistent :
    (left : List DialogInfo) (m : DialogUserModel)
    → (m.active_dialog ≡ []) ⊎ (listed m.active_dialog (ids left) ≡ true)
    → IsConsistent m
    → IsConsistent (shrunk left m)
shrunk-IsConsistent left m present c = record {
  rows = rows_told-append 0 m.signals (reset_model (length left) ∷ []);
  selected = last_selected-append [] m.signals (reset_model (length left) ∷ []) ∙ c.selected;
  present = present;
}

select_first-IsConsistent :
    (left : List DialogInfo) (m : DialogUserModel)
    → m.dialogs_info ≡ left
    → rows_told 0 m.signals ≡ length left
    → IsConsistent (select_first m left)
select_first-IsConsistent [] m e rows = record {
  rows = rows_told-append 0 m.signals (not_valid_dialog_was_selected [] ∷ []) ∙ rows ∙ rw e refl;
  selected = last_selected-append [] m.signals (not_valid_dialog_was_selected [] ∷ []);
  present = inl refl;
}
select_first-IsConsistent (i ∷ is) m e rows =
    let m' : DialogUserModel = record m { dialogs_info = i ∷ is } in
    read-IsConsistent 0 (update_active_dialog i m')
      (selected-IsConsistent i m' rows (rw (text_eq_refl i.dialog_id) refl))

pub remove_found_info-IsConsistent :
    (d : Dialog) (now : ℤ) (o : Option ℕ) (m : DialogUserModel)
    → find_if (has_dialog_id d.dialog_id) m.dialogs_info ≡ o
    → IsConsistent m
    → IsConsistent (remove_found_info d now o m)
remove_found_info-IsConsistent d now none m e c = c
remove_found_info-IsConsistent d now (some n) m e c =
    let left = erase_info now m.dialogs_info n in
    let (x, there, same) = find_if_holds (has_dialog_id d.dialog_id) m.dialogs_info n e in
    elim (Bool-cases (text_eq m.active_dialog d.dialog_id)) [
      | inl own ↦ rw own (
          select_first-IsConsistent left (shrunk left m) refl
            (rows_told-append 0 m.signals (reset_model (length left) ∷ [])))
      | inr other ↦ rw other (
          shrunk-IsConsistent left m
            (elim c.present [
              | inl none_active ↦ inl none_active
              | inr found ↦ inr (
                  listed-erase_info now m.active_dialog m.dialogs_info n (λ y h.
                    let same_id : y.dialog_id ≡ d.dialog_id =
                      ap DialogInfo.dialog_id (some_inj (sym h ∙ there))
                      ∙ sym ((text_eq_iff d.dialog_id x.dialog_id).0 same) in
                    rw same_id other)
                  ∙ found)
            ])
            c)
    ]

length-map : (f : DialogInfo → DialogInfo) (xs : List DialogInfo) → length (map f xs) ≡ length xs
length-map f [] = refl
length-map f (x ∷ xs) = rw (length-map f xs) refl

renewed_id :
    (c : Contact) (i : DialogInfo)
    → (if text_eq i.contact_id c.contact_id then assign_contact c i else i).dialog_id ≡ i.dialog_id
renewed_id c i = elim (Bool-cases (text_eq i.contact_id c.contact_id)) [
  | inl own ↦ rw own refl
  | inr other ↦ rw other refl
]

pub changed_contact-IsConsistent :
    (contact : Contact) (m : DialogUserModel)
    → IsConsistent m
    → IsConsistent (changed_contact contact m)
unfolding changed_contact
changed_contact-IsConsistent contact m c =
    let renewed : DialogInfo → DialogInfo =
      λ i. if text_eq i.contact_id contact.contact_id then assign_contact contact i else i in
    let lengths = length-map renewed m.dialogs_info in
    let s = reset_model (length m.dialogs_info) ∷ [] in
    record {
      rows = rows_told-append 0 m.signals s ∙ sym lengths;
      selected = last_selected-append [] m.signals s ∙ c.selected;
      present = rw (ids-map renewed m.dialogs_info (renewed_id contact)) c.present;
    }

pub add_unread_at-IsConsistent :
    (now : ℤ) (o : Option ℕ) (m : DialogUserModel)
    → IsConsistent m
    → IsConsistent (add_unread_at now o m)
add_unread_at-IsConsistent now none m c = c
add_unread_at-IsConsistent now (some n) m c =
    let changed = modify (add_unread_message now) m.dialogs_info n in
    told-IsConsistent n (record m { dialogs_info = changed })
      (same_ids-IsConsistent changed m (length-modify (add_unread_message now) m.dialogs_info n)
        (ids-modify (add_unread_message now) m.dialogs_info n (λ x e. refl)) c)

pub select_row-IsConsistent :
    (n : ℕ) (o : Option DialogInfo) (m : DialogUserModel)
    → get_elem? m.dialogs_info n ≡ o
    → IsConsistent m
    → IsConsistent (select_row n o m)
select_row-IsConsistent n none m e c = c
select_row-IsConsistent n (some i) m e c =
    let read = read-IsConsistent n m c in
    selected-IsConsistent (messages_readed i)
      (record m { dialogs_info = modify messages_readed m.dialogs_info n }) read.rows
      (rw (ids-modify messages_readed m.dialogs_info n (λ x h. refl))
        (listed-get_elem? m.dialogs_info n i e))
