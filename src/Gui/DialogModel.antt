-- ===== src/Gui/DialogModel.antt =====
-- gui/src/models/dialogs-list/dialogusermodel.cpp and dialoginfo.cpp: the list of dialogs, and which of
-- them the user has selected. The clock is an argument. The storage of contacts is a pointer to its
-- `get`, null or not, which may throw.
use secure_dialogues.Common.{
  ℕ, suc, ◌+◌, ◌==◌, ◌%◌, Bool, Option, none, some, List, [], ◌∷◌, ◌++◌, map, Text, text_eq, length,
  modify, get_elem?, if◌then◌else◌, zero,
}
use secure_dialogues.Common.Int.{ℤ, pos, negsuc}
use secure_dialogues.Common.Result.{Result, ok, throw}
use secure_dialogues.Dialog.{Dialog, Status, active, status_eq, ulong_mod}
use secure_dialogues.Contacts.{Contact}
use secure_dialogues.Gui.{
  Signal, insert_rows, reset_model, data_changed, new_dialog_was_selected,
  not_valid_dialog_was_selected,
}
use secure_dialogues.Gui.Rows.{find_if}

pub record DialogInfo : Type 0 where
  pub name : Text
  pub address : Text
  pub moniker : Text
  pub dialog_id : Text
  pub contact_id : Text
  pub status : Status
  pub unread_messages : ℕ
  pub last_updated : ℤ

abbrev pub make_dialog_info : Dialog → Contact → ℤ → DialogInfo
make_dialog_info d c now = record {
  name = c.name;
  address = c.adress;
  moniker = c.channel_moniker;
  dialog_id = d.dialog_id;
  contact_id = c.contact_id;
  status = d.status;
  unread_messages = 0;
  last_updated = now;
}

abbrev pub assign_dialog : Dialog → ℤ → DialogInfo → DialogInfo
assign_dialog d now i = record i {
  status = d.status;
  dialog_id = d.dialog_id;
  contact_id = d.contact_id;
  last_updated = now;
}

abbrev pub assign_contact : Contact → DialogInfo → DialogInfo
assign_contact c i = record i {
  address = c.adress;
  moniker = c.channel_moniker;
  name = c.name;
  contact_id = c.contact_id;
}

abbrev pub messages_readed : DialogInfo → DialogInfo
messages_readed i = record i { unread_messages = 0 }

-- `std::size_t` has 64 bits.
abbrev pub add_unread_message : ℤ → DialogInfo → DialogInfo
add_unread_message now i = record i {
  unread_messages = (i.unread_messages + 1) % ulong_mod;
  last_updated = now;
}

pub record DialogUserModel : Type 0 where
  pub dialogs_info : List DialogInfo
  pub active_dialog : Text
  pub signals : List Signal

abbrev pub emit_signal : Signal → DialogUserModel → DialogUserModel
emit_signal s m = record m { signals = m.signals ++ s ∷ [] }

-- The constructor. The member takes the pointer away from the parameter, from which the function that
-- reads the contacts takes it afterwards; to follow a null pointer is `none`.
abbrev pub ContactStorage : Type 0
ContactStorage = Text → Result Contact

abbrev pub moved {ℓ} : {A : Type ℓ} → Option A → Option A × Option A
moved pointer = (pointer, none)

abbrev pub cons_info :
    Dialog
    → ℤ
    → Result Contact
    → Option (Result (List DialogInfo))
    → Option (Result (List DialogInfo))
cons_info d now (throw e) rest = some (throw e)
cons_info d now (ok c) none = none
cons_info d now (ok c) (some (throw e)) = some (throw e)
cons_info d now (ok c) (some (ok infos)) = some (ok (make_dialog_info d c now ∷ infos))

abbrev pub infos_of : Option ContactStorage → ℤ → List Dialog → Option (Result (List DialogInfo))
infos_of contacts now [] = some (ok [])
infos_of none now (d ∷ ds) = none
infos_of (some get) now (d ∷ ds) = cons_info d now (get d.contact_id) (infos_of (some get) now ds)

abbrev pub model_with : Option (Result (List DialogInfo)) → Option (Result DialogUserModel)
model_with none = none
model_with (some (throw e)) = some (throw e)
model_with (some (ok infos)) =
    some (ok (record { dialogs_info = infos; active_dialog = []; signals = [] }))

unfoldable pub make_dialog_user_model :
    Option ContactStorage → ℤ → List Dialog → Option (Result DialogUserModel)
make_dialog_user_model contacts now dialogs =
    let (member, parameter) = moved contacts in model_with (infos_of parameter now dialogs)

abbrev pub update_active_dialog : DialogInfo → DialogUserModel → DialogUserModel
update_active_dialog i m =
    emit_signal
      (if status_eq active i.status
        then new_dialog_was_selected i.dialog_id
        else not_valid_dialog_was_selected i.dialog_id)
      (record m { active_dialog = i.dialog_id })

abbrev pub has_dialog_id : Text → DialogInfo → Bool
has_dialog_id id i = text_eq id i.dialog_id

-- `added`, with the contact that the storage found; it may throw before the model changes.
abbrev pub add_found : Dialog → ℤ → Result Contact → DialogUserModel → Result DialogUserModel
add_found d now (throw e) m = throw e
add_found d now (ok c) m =
    let i = make_dialog_info d c now in
    let rows = length m.dialogs_info in
    let m' : DialogUserModel = record m {
      dialogs_info = m.dialogs_info ++ i ∷ [];
      signals = m.signals ++ insert_rows rows rows ∷ [];
    } in
    ok (if length m'.dialogs_info == 1 then update_active_dialog i m' else m')

unfoldable pub added_dialog : ContactStorage → Dialog → ℤ → DialogUserModel → Result DialogUserModel
added_dialog contacts d now m = add_found d now (contacts d.contact_id) m

-- `changed`, at the place that was found.
abbrev pub select_changed : Dialog → ℕ → Option DialogInfo → DialogUserModel → DialogUserModel
select_changed d i none m = m
select_changed d i (some info) m =
    let m' = update_active_dialog info m in
    record m' { dialogs_info = modify messages_readed m'.dialogs_info i }

abbrev pub change_found : Dialog → ℤ → Option ℕ → DialogUserModel → DialogUserModel
change_found d now none m = m
change_found d now (some i) m =
    let m' : DialogUserModel = record m {
      dialogs_info = modify (assign_dialog d now) m.dialogs_info i;
      signals = m.signals ++ data_changed i ∷ [];
    } in
    if text_eq m'.active_dialog d.dialog_id
    then select_changed d i (get_elem? m'.dialogs_info i) m'
    else m'

unfoldable pub changed_dialog : Dialog → ℤ → DialogUserModel → DialogUserModel
changed_dialog d now m = change_found d now (find_if (has_dialog_id d.dialog_id) m.dialogs_info) m

abbrev pub select_first : DialogUserModel → List DialogInfo → DialogUserModel
select_first m [] = emit_signal (not_valid_dialog_was_selected []) (record m { active_dialog = [] })
select_first m (i ∷ is) =
    let m' = update_active_dialog i m in record m' { dialogs_info = messages_readed i ∷ is }

-- `erase` assigns each later row to the place before it, and the assignment renews its time.
abbrev pub assign_info : ℤ → DialogInfo → DialogInfo
assign_info now i = record i { last_updated = now }

unfoldable pub erase_info : ℤ → List DialogInfo → ℕ → List DialogInfo
erase_info now [] n = []
erase_info now (x ∷ xs) zero = map (assign_info now) xs
erase_info now (x ∷ xs) (suc n) = x ∷ erase_info now xs n

abbrev pub remove_found_info : Dialog → ℤ → Option ℕ → DialogUserModel → DialogUserModel
remove_found_info d now none m = m
remove_found_info d now (some i) m =
    let left = erase_info now m.dialogs_info i in
    let m' : DialogUserModel = record m {
      dialogs_info = left;
      signals = m.signals ++ reset_model (length left) ∷ [];
    } in
    if text_eq m'.active_dialog d.dialog_id then select_first m' left else m'

unfoldable pub removed_dialog : Dialog → ℤ → DialogUserModel → DialogUserModel
unfolding erase_info
removed_dialog d now m =
    remove_found_info d now (find_if (has_dialog_id d.dialog_id) m.dialogs_info) m

unfoldable pub changed_contact : Contact → DialogUserModel → DialogUserModel
changed_contact c m = record m {
  dialogs_info =
      map (λ i. if text_eq i.contact_id c.contact_id then assign_contact c i else i) m.dialogs_info;
  signals = m.signals ++ reset_model (length m.dialogs_info) ∷ [];
}

abbrev pub add_unread_at : ℤ → Option ℕ → DialogUserModel → DialogUserModel
add_unread_at now none m = m
add_unread_at now (some i) m = record m {
  dialogs_info = modify (add_unread_message now) m.dialogs_info i;
  signals = m.signals ++ data_changed i ∷ [];
}

-- `messageAdded`.
unfoldable pub unread_added : Text → ℤ → DialogUserModel → DialogUserModel
unread_added id now m =
    if text_eq m.active_dialog id
    then m
    else add_unread_at now (find_if (has_dialog_id id) m.dialogs_info) m

-- `rowWasSelected`; the row of an index is an `int`.
abbrev pub select_row : ℕ → Option DialogInfo → DialogUserModel → DialogUserModel
select_row i none m = m
select_row i (some info) m =
    update_active_dialog (messages_readed info)
      (record m { dialogs_info = modify messages_readed m.dialogs_info i })

unfoldable pub row_was_selected : ℤ → DialogUserModel → DialogUserModel
row_was_selected (pos i) m = select_row i (get_elem? m.dialogs_info i) m
row_was_selected (negsuc i) m = m
