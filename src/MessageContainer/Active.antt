-- ===== src/MessageContainer/Active.antt =====
-- The choice of the active dialog, the removal of a dialog, and `list`.
use secure_dialogues.Common.{
  ℕ, ◌≡◌, refl, false, Option, none, some, List, [], ◌∷◌, ◌++◌, inl, inr, Text, text_eq,
  text_eq_iff, map, if◌then◌else◌, Bool-cases, Option-cases, arith,
}
use secure_dialogues.Common.Maps.{find, insert, erase, find-insert, find-erase, text_key}
use secure_dialogues.MessageContainer.{
  MessageContainer, active_dialog_changed, list_or_empty, is_empty, peeks, peek_found,
  set_active_dialog, activate_first, remove_dialog,
}

pub peek_found-kept :
    (o : Option (List ℕ)) (c : MessageContainer)
    → ((peek_found o c).active_dialog ≡ c.active_dialog)
      × (((peek_found o c).messages ≡ c.messages) × ((peek_found o c).heap ≡ c.heap))
unfolding peek_found
peek_found-kept none c = (refl, (refl, refl))
peek_found-kept (some refs) c = (refl, (refl, refl))

eq_empty : (id : Text) → is_empty id ≡ false → text_eq id [] ≡ false
unfolding text_eq
eq_empty [] e = ground arith
eq_empty (x ∷ xs) e = refl

other_of : (id j a : Text) → a ≡ j → text_eq j id ≡ false → text_eq id a ≡ false
other_of id j a e h = ground (arith, e, h, text_eq_iff j id, text_eq_iff id a)

found_inserted :
    (id : Text) (refs : List ℕ) (m : List (Text × List ℕ)) → find id (insert id refs m) ≡ some refs
found_inserted id refs m = rw (find-insert id id refs m, (text_key.eq_iff id id).1 refl)

find_missing :
    (id j : Text) (m : List (Text × List ℕ))
    → find id m ≡ none
    → find j m ≡ (if text_eq id j then none else find j m)
find_missing id j m e = elim (Bool-cases (text_eq id j)) [
  | inl same ↦ rw same (rw (← (text_eq_iff id j).0 same, e))
  | inr other ↦ rw other
]

-- A new active dialog that is not empty is announced to every handler before the messages that it
-- had are shown to every handler, in their order; it is then the active dialog, and it has an entry.
pub set_active_dialog_lem :
    (id : Text) (c : MessageContainer)
    → is_empty id ≡ false
    → text_eq id c.active_dialog ≡ false
    → ((set_active_dialog id c).events
        ≡ c.events
          ++ map (λ h. (h, active_dialog_changed id)) c.event_handlers
          ++ peeks c.event_handlers (list_or_empty (find id c.messages)))
      × (((set_active_dialog id c).active_dialog ≡ id)
          × (find id (set_active_dialog id c).messages ≡ some (list_or_empty (find id c.messages))))
unfolding set_active_dialog peek_found
set_active_dialog_lem id c e d =
    rw (e, set_active_dialog)
      (rw d (elim (Option-cases (find id c.messages)) [
        | inl missing ↦
            rw missing
              (rw (found_inserted id [] c.messages) (refl, (refl, found_inserted id [] c.messages)))
        | inr (refs, there) ↦ rw there (rw there (refl, (refl, there)))
      ]))

-- `erase` leaves no entry with the key.
activate_first-erase :
    (id : Text) (m : List (Text × List ℕ)) (c : MessageContainer)
    → is_empty id ≡ false
    → text_eq id (activate_first (erase id m) (record c { active_dialog = [] })).active_dialog
      ≡ false
unfolding erase activate_first text_eq
activate_first-erase id [] c e = eq_empty id e
activate_first-erase id ((j, w) ∷ m) c e = elim (Bool-cases (text_eq j id)) [
  | inl same ↦ rw (same, erase) (activate_first-erase id m c e)
  | inr other ↦
      rw (other, erase) (other_of id j _ ((peek_found-kept (find j c.messages) _).0) other)
]

activate_first-missing :
    (id : Text) (m : List (Text × List ℕ)) (c : MessageContainer)
    → is_empty id ≡ false
    → find id m ≡ none
    → text_eq id (activate_first m (record c { active_dialog = [] })).active_dialog ≡ false
unfolding find activate_first
activate_first-missing id [] c e h = eq_empty id e
activate_first-missing id ((j, w) ∷ m) c e h = elim (Bool-cases (text_eq j id)) [
  | inl same ↦ ground (arith, h, same)
  | inr other ↦ other_of id j _ ((peek_found-kept (find j c.messages) _).0) other
]

pub activate_first_lem :
    (m : List (Text × List ℕ)) (c : MessageContainer)
    → ((activate_first m c).messages ≡ c.messages) × ((activate_first m c).heap ≡ c.heap)
unfolding activate_first
activate_first_lem [] c = (refl, refl)
activate_first_lem ((k, refs) ∷ rest) c =
    let h = peek_found-kept (find k c.messages) _ in (h.1.0, h.1.1)

-- `removeDialog` takes exactly the entry of the dialog out of the map, keeps every message, and the
-- dialog, if its name is not empty, is not the active one afterwards.
pub remove_dialog_lem :
    (id j : Text) (c : MessageContainer)
    → is_empty id ≡ false
    → (find j (remove_dialog id c).messages ≡ (if text_eq id j then none else find j c.messages))
      × (((remove_dialog id c).heap ≡ c.heap)
          × (text_eq id (remove_dialog id c).active_dialog ≡ false))
unfolding remove_dialog
remove_dialog_lem id j c e = elim (Option-cases (find id c.messages)) [
  | inr (refs, there) ↦
      rw (there, remove_dialog)
        (elim (Bool-cases (text_eq id c.active_dialog)) [
          | inl same ↦
              let c' = record c { messages = erase id c.messages; active_dialog = [] } in
              let kept = activate_first_lem (erase id c.messages) c' in
              rw same (
                rw kept.0 (find-erase id j c.messages),
                (kept.1, activate_first-erase id c.messages c' e),
              )
          | inr other ↦ rw other (find-erase id j c.messages, (refl, other))
        ])
  | inl missing ↦
      rw (missing, remove_dialog)
        (elim (Bool-cases (text_eq id c.active_dialog)) [
          | inl same ↦
              let c' = record c { active_dialog = [] } in
              let kept = activate_first_lem c.messages c' in
              rw same (
                rw kept.0 (find_missing id j c.messages missing),
                (kept.1, activate_first-missing id c.messages c' e missing),
              )
          | inr other ↦ rw other (find_missing id j c.messages missing, (refl, other))
        ])
]
