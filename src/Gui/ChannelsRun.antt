-- ===== src/Gui/ChannelsRun.antt =====
-- Sequences of what happens to the list of channels.
use secure_dialogues.Common.{
  ℕ, zero, suc, ◌≡◌, refl, ap, ◌∙◌, Option, none, some, List, [], ◌∷◌, ◌++◌, map, Text, text_eq,
  modify, inl, inr, Bool-cases, Option-cases, if◌then◌else◌, subst,
}
use secure_dialogues.Common.Options.{◌>>=◌}
use secure_dialogues.Contacts.{ConnectionHolder}
use secure_dialogues.Core.{ChannelStatus}
use secure_dialogues.Gui.Rows.{Rows, find_if, erase_at, remove_row, change_row, append_row}
use secure_dialogues.Gui.RowsTold.{Told, append_row-Told, remove_row-Told, change_row-Told}
use secure_dialogues.Gui.ChannelsModel.{
  ListItem, ChannelsListModel, make_qstring, is_named, set_channel_status, list_item, channel_added,
  channel_changed, channel_removed, update_channel_status,
}

pub data ChannelOperation (Info : Type 0) : Type 0 where
  add change remove : ConnectionHolder Info → ChannelOperation Info
  update : ChannelStatus → Text → Text → ChannelOperation Info

abbrev pub erase_name : Text → List Text → List Text
erase_name name [] = []
erase_name name (x ∷ xs) = if text_eq x name then xs else x ∷ erase_name name xs

abbrev pub names : {Validator : Type 0} → List (ListItem Validator) → List Text
names items = map ListItem.name items

module _ (from_utf8 : Text → Text) {Info Validator : Type 0} (get_plugin_id : Info → Text)
    (get_address_validator : Text → Option Validator) where
  unfoldable pub run_channel_operation :
      ChannelOperation Info → ChannelsListModel Validator → Option (ChannelsListModel Validator)
  run_channel_operation (add h) m = channel_added from_utf8 get_plugin_id get_address_validator h m
  run_channel_operation (change h) m = some (channel_changed from_utf8 h m)
  run_channel_operation (remove h) m = some (channel_removed from_utf8 h m)
  run_channel_operation (update status name message) m =
      some (update_channel_status from_utf8 status name message m)

  unfoldable pub run_channel_operations :
      List (ChannelOperation Info)
      → ChannelsListModel Validator
      → Option (ChannelsListModel Validator)
  unfolding run_channel_operation
  run_channel_operations [] m = some m
  run_channel_operations (o ∷ os) m = do
    m' ← run_channel_operation o m
    run_channel_operations os m'

-- The names that should be left, in their order, and the operations that do not crash.
module _ (from_utf8 : Text → Text) {Info : Type 0} where
  abbrev pub names_after : List (ChannelOperation Info) → List Text → List Text
  names_after [] ns = ns
  names_after (add h ∷ os) ns = names_after os (ns ++ make_qstring from_utf8 h.conn_name ∷ [])
  names_after (remove h ∷ os) ns =
      names_after os (erase_name (make_qstring from_utf8 h.conn_name) ns)
  names_after (change h ∷ os) ns = names_after os ns
  names_after (update status name message ∷ os) ns = names_after os ns

abbrev pub HaveInfo : {Info : Type 0} → List (ChannelOperation Info) → Type 0
HaveInfo [] = Unit
HaveInfo {Info} (add h ∷ os) = ((i : Info) × (h.plugin_conn_info ≡ some i)) × HaveInfo os
HaveInfo (_ ∷ os) = HaveInfo os

names-append :
    {V : Type 0} (xs : List (ListItem V)) (i : ListItem V)
    → names (xs ++ i ∷ []) ≡ names xs ++ i.name ∷ []
names-append [] i = refl
names-append (x ∷ xs) i = rw (names-append xs i) refl

names-modify :
    {V : Type 0} (f : ListItem V → ListItem V) (xs : List (ListItem V)) (n : ℕ)
    → ((i : ListItem V) → (f i).name ≡ i.name)
    → names (modify f xs n) ≡ names xs
names-modify f [] n same = refl
names-modify f (x ∷ xs) zero same = rw (same x) refl
names-modify f (x ∷ xs) (suc n) same = rw (names-modify f xs n same) refl

abbrev erase_found : {V : Type 0} → Option ℕ → List V → List V
erase_found none xs = xs
erase_found (some i) xs = erase_at xs i

names-erase_found :
    {V : Type 0} (from_utf8 : Text → Text) (name : Text) (xs : List (ListItem V))
    → names (erase_found (find_if (is_named from_utf8 name) xs) xs)
      ≡ erase_name (make_qstring from_utf8 name) (names xs)
unfolding find_if erase_at
names-erase_found from_utf8 name [] = refl
names-erase_found from_utf8 name (x ∷ xs) =
    elim (Bool-cases (text_eq x.name (make_qstring from_utf8 name))) [
      | inl own ↦ rw own refl
      | inr other ↦ elim (Option-cases (find_if (is_named from_utf8 name) xs)) [
        | inl missing ↦
            rw (other, missing)
              (ap (λ (ns : List Text). x.name ∷ ns)
                (subst
                  (λ (o : Option ℕ).
                    names (erase_found o xs) ≡ erase_name (make_qstring from_utf8 name) (names xs))
                  missing (names-erase_found from_utf8 name xs)))
        | inr (j, there) ↦
            rw (other, there)
              (ap (λ (ns : List Text). x.name ∷ ns)
                (subst
                  (λ (o : Option ℕ).
                    names (erase_found o xs) ≡ erase_name (make_qstring from_utf8 name) (names xs))
                  there (names-erase_found from_utf8 name xs)))
      ]
    ]

rows-remove_row :
    {V : Type 0} (o : Option ℕ) (m : Rows V) → (remove_row o m).rows ≡ erase_found o m.rows
rows-remove_row none m = refl
rows-remove_row (some i) m = refl

names-change_row :
    {V : Type 0} (f : ListItem V → ListItem V) (o : Option ℕ) (m : ChannelsListModel V)
    → ((i : ListItem V) → (f i).name ≡ i.name)
    → names (change_row f o m).rows ≡ names m.rows
names-change_row f none m same = refl
names-change_row f (some n) m same = names-modify f m.rows n same

module _ (from_utf8 : Text → Text) {Info Validator : Type 0} (get_plugin_id : Info → Text)
    (get_address_validator : Text → Option Validator) (first : ℕ) where
  added_lem :
      (c : ConnectionHolder Info) (i : Info) (m : ChannelsListModel Validator)
      → c.plugin_conn_info ≡ some i
      → channel_added from_utf8 get_plugin_id get_address_validator c m
        ≡ some (append_row (list_item from_utf8 get_plugin_id get_address_validator c) m)
  unfolding channel_added
  added_lem c i m there = rw there refl

  -- Any sequence of additions, changes, removals and updates of channels in which each added connection
  -- has its data is carried out; a window that knew the number of the rows still does, and the names are
  -- those that were there, without the first of each removed name and with the added ones at the end.
  pub run_channel_operations-names :
      (os : List (ChannelOperation Info)) (m : ChannelsListModel Validator)
      → HaveInfo os
      → Told first m
      → (end : ChannelsListModel Validator) × (run_channel_operations from_utf8 get_plugin_id
            get_address_validator os m
          ≡ some end)
        × Told first end
        × (names end.rows ≡ names_after from_utf8 os (names m.rows))
  unfolding run_channel_operations run_channel_operation channel_added channel_changed
      channel_removed update_channel_status
  run_channel_operations-names [] m h told = (m, refl, told, refl)
  run_channel_operations-names (add c ∷ os) m ((i, there), h) told =
      let item = list_item from_utf8 get_plugin_id get_address_validator c in
      let (end, runs, kept, same) =
        run_channel_operations-names os (append_row item m) h (append_row-Told first m told item) in
      (
        end,
        ap
              (λ (o : Option (ChannelsListModel Validator)).
                o >>= run_channel_operations from_utf8 get_plugin_id get_address_validator os)
              (added_lem c i m there)
            ∙ runs,
        kept,
        same ∙ ap (names_after from_utf8 os) (names-append m.rows item),
      )
  run_channel_operations-names (change c ∷ os) m h told =
      let o = find_if (is_named from_utf8 c.conn_name) m.rows in
      let (end, runs, kept, same) =
        run_channel_operations-names os (change_row (λ item. item) o m) h
          (change_row-Told first m told (λ item. item) o) in
      (
        end,
        runs,
        kept,
        same ∙ ap (names_after from_utf8 os) (names-change_row (λ item. item) o m (λ i. refl)),
      )
  run_channel_operations-names (remove c ∷ os) m h told =
      let p = is_named from_utf8 c.conn_name in
      let o = find_if p m.rows in
      let (end, runs, kept, same) =
        run_channel_operations-names os (remove_row o m) h (remove_row-Told first m told p) in
      (
        end,
        runs,
        kept,
        same
            ∙ ap (names_after from_utf8 os)
                (ap names (rows-remove_row o m) ∙ names-erase_found from_utf8 c.conn_name m.rows),
      )
  run_channel_operations-names (update s name message ∷ os) m h told =
      let o = find_if (is_named from_utf8 name) m.rows in
      let (end, runs, kept, same) =
        run_channel_operations-names os (change_row (set_channel_status from_utf8 s message) o m) h
          (change_row-Told first m told (set_channel_status from_utf8 s message) o) in
      (
        end,
        runs,
        kept,
        same
            ∙ ap (names_after from_utf8 os)
                (names-change_row (set_channel_status from_utf8 s message) o m (λ i. refl)),
      )
