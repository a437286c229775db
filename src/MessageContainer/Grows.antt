-- ===== src/MessageContainer/Grows.antt =====
-- What an operation puts into the dialogs of the container, apart from the statuses of the messages.
use mathlib.Core.List.{append_assoc}
use mathlib.Core.Option.{map as option_map}
use secure_dialogues.Common.{
  ℕ, zero, suc, ◌≡◌, refl, Bool, true, false, Option, none, some, List, [], ◌∷◌, ◌++◌, inl, inr,
  All, All-append, All-map, Text, text_eq, text_eq_iff, is_some, length, get_elem?, modify, map,
  if◌then◌else◌, Bool-cases, Option-cases,
}
use secure_dialogues.Common.Maps.{find, insert, find-insert, text_key}
use secure_dialogues.Common.Result.{state_after}
use secure_dialogues.MessageContainer.{
  MessageContainer, MessageStatus, MessageType, UserMessage, Wrapper, income, outcome,
  set_active_dialog, notify_peek_all_messages_from_active, notifym_about_dialog_id_changed,
  make_active, add_shared_message, add_message, message_of, make_shared,
  add_to_active_dialog_with_wrapper, message_changed, update_message, update_status, save,
  peek_found,
}
use secure_dialogues.MessageContainer.Valid.{IsValid, set_active_dialog-IsValid, push-IsValid}
use secure_dialogues.MessageContainer.Views.{dialog_messages, shown, contents, contents-insert}
use secure_dialogues.MessageContainer.Active.{peek_found-kept}
use secure_dialogues.MessageContainer.Run.{update-IsValid, save-IsValid}

abbrev pub Entry : Type 0
Entry = MessageType × Text

abbrev pub entry_of : UserMessage → Entry
entry_of m = (m.type, m.content)

abbrev pub all_entries : List (Option UserMessage) → List (Option Entry)
all_entries ms = map (option_map entry_of) ms

-- The messages that a dialog shows, without their statuses.
abbrev pub entries : Text → MessageContainer → List (Option Entry)
entries id c = all_entries (shown (dialog_messages id c))

-- The container is valid, and a dialog shows what it showed in the first container and after that
-- entries that the predicate holds of.
abbrev pub Grown : (Text → Option Entry → Type 0) → MessageContainer → MessageContainer → Type 0
Grown P c0 c =
    IsValid c
    × ((id : Text)
        → (added : List (Option Entry)) × (entries id c ≡ entries id c0 ++ added)
          × All (P id) added)

append_nil {ℓ} : {A : Type ℓ} → (xs : List A) → xs ++ [] ≡ xs
append_nil [] = refl
append_nil (x ∷ xs) = rw (append_nil xs)

all_entries-append :
    (xs : List (Option UserMessage)) (m : UserMessage)
    → all_entries (xs ++ some m ∷ []) ≡ all_entries xs ++ some (entry_of m) ∷ []
all_entries-append [] m = refl
all_entries-append (x ∷ xs) m = rw (all_entries-append xs m)

entry-modify :
    (s : MessageStatus) (heap : List UserMessage) (i r : ℕ)
    → option_map entry_of (get_elem? (modify (update_status s) heap i) r)
      ≡ option_map entry_of (get_elem? heap r)
entry-modify s [] i r = refl
entry-modify s (m ∷ heap) zero zero = refl
entry-modify s (m ∷ heap) zero (suc r) = refl
entry-modify s (m ∷ heap) (suc i) zero = refl
entry-modify s (m ∷ heap) (suc i) (suc r) = entry-modify s heap i r

entries-modify :
    (s : MessageStatus) (heap : List UserMessage) (i : ℕ) (refs : List ℕ)
    → all_entries (map (get_elem? (modify (update_status s) heap i)) refs)
      ≡ all_entries (map (get_elem? heap) refs)
entries-modify s heap i [] = refl
entries-modify s heap i (r ∷ refs) = rw (entry-modify s heap i r, entries-modify s heap i refs)

entries-pushed :
    (id j : Text) (m : UserMessage) (c : MessageContainer)
    → IsValid c
    → entries j (add_shared_message id (length c.heap) (make_shared m c).1)
      ≡ (if text_eq id j then entries id c ++ some (entry_of m) ∷ [] else entries j c)
unfolding add_shared_message
entries-pushed id j m c (h, p) =
    rw (contents-insert id j m c.heap c.messages h) (elim (Bool-cases (text_eq id j)) [
      | inl same ↦ rw same (all_entries-append (shown (dialog_messages id c)) m)
      | inr other ↦ rw other refl
    ])

pub entries_by :
    (id : Text) (c d : MessageContainer)
    → d.messages ≡ c.messages
    → d.heap ≡ c.heap
    → entries id d ≡ entries id c
entries_by id c d same heap = rw (same, heap) refl

entries-save :
    (alive : Bool) (w : Wrapper) (c : MessageContainer) (id : Text)
    → entries id (save alive w c).1 ≡ entries id c
unfolding save message_changed
entries-save false w c id = refl
entries-save true w c id = elim (Bool-cases (is_some (find w.dialog_id c.messages))) [
  | inl there ↦ rw (there, save, message_changed) refl
  | inr missing ↦ rw (missing, save, message_changed) refl
]

entries-status :
    (alive : Bool) (s : MessageStatus) (w : Wrapper) (c : MessageContainer) (id : Text)
    → entries id (save alive w (update_message s w c)).1 ≡ entries id c
unfolding update_message
entries-status alive s w c id =
    rw (entries-save alive w (update_message s w c) id) (elim (Option-cases (find id c.messages)) [
      | inl missing ↦ rw missing refl
      | inr (refs, there) ↦ rw there (entries-modify s c.heap w.message refs)
    ])

-- An entry without messages shows nothing, as no entry does.
entries-inserted :
    (id j : Text) (heap : List UserMessage) (ms : List (Text × List ℕ))
    → find id ms ≡ none
    → shown (contents heap (find j (insert id [] ms))) ≡ shown (contents heap (find j ms))
entries-inserted id j heap ms missing =
    rw (find-insert id j [] ms) (elim (Bool-cases (text_eq id j)) [
      | inl same ↦ rw same (rw (← (text_eq_iff id j).0 same, missing) refl)
      | inr other ↦ rw other refl
    ])

entries-activated :
    (id j : Text) (c : MessageContainer)
    → entries j (
        notify_peek_all_messages_from_active
          (notifym_about_dialog_id_changed id (make_active id c)))
      ≡ entries j c
entries-activated id j c =
    let d = notifym_about_dialog_id_changed id (make_active id c) in
    let kept = peek_found-kept (find id d.messages) d in
    rw (entries_by j d (peek_found (find id d.messages) d) kept.1.0 kept.1.1)
      (elim (Option-cases (find id c.messages)) [
        | inl missing ↦ rw missing (rw (entries-inserted id j c.heap c.messages missing) refl)
        | inr (refs, there) ↦ rw there refl
      ])

entries-set_active_dialog :
    (id j : Text) (c : MessageContainer) → entries j (set_active_dialog id c) ≡ entries j c
unfolding set_active_dialog
entries-set_active_dialog [] j c = refl
entries-set_active_dialog (x ∷ xs) j c = elim (Bool-cases (text_eq (x ∷ xs) c.active_dialog)) [
  | inl same ↦ rw (same, set_active_dialog) refl
  | inr other ↦ rw (other, set_active_dialog) (entries-activated (x ∷ xs) j c)
]

module _ (P : Text → Option Entry → Type 0) where
  pub Grown-same :
      (c0 c : MessageContainer)
      → IsValid c
      → ((id : Text) → entries id c ≡ entries id c0)
      → Grown P c0 c
  Grown-same c0 c v same = (v, λ id. ([], rw (append_nil (entries id c0)) (same id), tt))

  pub Grown-then : (c0 c1 c2 : MessageContainer) → Grown P c0 c1 → Grown P c1 c2 → Grown P c0 c2
  Grown-then c0 c1 c2 (v1, g) (v2, h) = (
    v2,
    λ id.
        let (xs, e, p) = g id in
        let (ys, f, q) = h id in
        (xs ++ ys, rw (f, e) (append_assoc (entries id c0) xs ys), All-append (P id) xs ys p q),
  )

  pub Grown-by :
      (Q : Text → Option Entry → Type 0) (c0 c : MessageContainer)
      → ((id : Text) (e : Option Entry) → P id e → Q id e)
      → Grown P c0 c
      → Grown Q c0 c
  Grown-by Q c0 c f (v, g) =
      (v, λ id. let (xs, e, p) = g id in (xs, e, All-map (P id) (Q id) (f id) xs p))

  Grown-pushed :
      (id : Text) (m : UserMessage) (c : MessageContainer)
      → IsValid c
      → P id (some (entry_of m))
      → Grown P c (add_shared_message id (length c.heap) (make_shared m c).1)
  Grown-pushed id m c v p = (
    push-IsValid id m c v,
    λ j. elim (Bool-cases (text_eq id j)) [
      | inl same ↦ (
        some (entry_of m) ∷ [],
        rw (← (text_eq_iff id j).0 same)
            (rw (entries-pushed id id m c v, (text_key.eq_iff id id).1 refl) refl),
        (rw (← (text_eq_iff id j).0 same) p, tt),
      )
      | inr other ↦ ([], rw (append_nil (entries j c), entries-pushed id j m c v, other) refl, tt)
    ],
  )

  Grown-added :
      (id text : Text) (c : MessageContainer)
      → IsValid c
      → P id (some (income, text))
      → Grown P c (add_message id text true c)
  unfolding add_message
  Grown-added id text c v p = Grown-pushed id (message_of text true) c v p

  Grown-wrapped :
      (text : Text) (c : MessageContainer)
      → IsValid c
      → P c.active_dialog (some (outcome, text))
      → Grown P c (state_after (add_to_active_dialog_with_wrapper text false c))
  unfolding add_to_active_dialog_with_wrapper
  Grown-wrapped text c v p = elim (Bool-cases (is_some (find c.active_dialog c.messages))) [
    | inl there ↦
        rw (there, add_to_active_dialog_with_wrapper)
          (Grown-pushed c.active_dialog (message_of text false) c v p)
    | inr missing ↦ rw (missing, add_to_active_dialog_with_wrapper) (Grown-same c c v (λ id. refl))
  ]

  Grown-status :
      (alive : Bool) (s : MessageStatus) (w : Wrapper) (c : MessageContainer)
      → IsValid c
      → Grown P c (save alive w (update_message s w c)).1
  Grown-status alive s w c v =
      Grown-same c (save alive w (update_message s w c)).1
        (save-IsValid alive w (update_message s w c) (update-IsValid s w c v))
        (entries-status alive s w c)

  pub Grown-activated :
      (id : Text) (c : MessageContainer) → IsValid c → Grown P c (set_active_dialog id c)
  Grown-activated id c v =
      Grown-same c (set_active_dialog id c) (set_active_dialog-IsValid id c v)
        (λ j. entries-set_active_dialog id j c)

  module _ (c0 c : MessageContainer) (g : Grown P c0 c) where
    pub also_pushed :
        (id : Text) (m : UserMessage)
        → P id (some (entry_of m))
        → Grown P c0 (add_shared_message id (length c.heap) (make_shared m c).1)
    also_pushed id m p =
        Grown-then c0 c (add_shared_message id (length c.heap) (make_shared m c).1) g
          (Grown-pushed id m c g.0 p)

    pub also_added :
        (id text : Text) → P id (some (income, text)) → Grown P c0 (add_message id text true c)
    also_added id text p =
        Grown-then c0 c (add_message id text true c) g (Grown-added id text c g.0 p)

    pub also_wrapped :
        (text : Text)
        → P c.active_dialog (some (outcome, text))
        → Grown P c0 (state_after (add_to_active_dialog_with_wrapper text false c))
    also_wrapped text p =
        Grown-then c0 c (state_after (add_to_active_dialog_with_wrapper text false c)) g
          (Grown-wrapped text c g.0 p)

    pub also_status :
        (alive : Bool) (s : MessageStatus) (w : Wrapper)
        → Grown P c0 (save alive w (update_message s w c)).1
    also_status alive s w =
        Grown-then c0 c (save alive w (update_message s w c)).1 g (Grown-status alive s w c g.0)
