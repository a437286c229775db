-- ===== src/MessageContainer/Valid.antt =====
-- What holds of the container after every sequence of its operations.
use secure_dialogues.Common.{
  ℕ, ◌≤◌, ◌<◌, ◌≡◌, refl, Bool, true, Option, none, some, List, [], ◌∷◌, ◌++◌, ◌⊎◌, inl, inr, arith,
  All, All-append, All-map, Text, text_eq, is_some, length, length-append, Bool-cases,
}
use secure_dialogues.Common.Maps.{find, insert, erase, find-insert, text_key}
use secure_dialogues.Common.Result.{state_after}
use secure_dialogues.MessageContainer.{
  MessageContainer, UserMessage, list_or_empty, peek_found, set_active_dialog, add_shared_message,
  add_message, message_of, make_shared, add_to_active_dialog_with_wrapper,
  add_message_to_activedialog,
}

abbrev pub RefsBelow : ℕ → List (Text × List ℕ) → Type 0
RefsBelow n m = All (λ e. All (λ r. r < n) e.1) m

-- Every pointer that a dialog holds reaches a message, and the active dialog, if there is one, has an
-- entry.
abbrev pub IsValid : MessageContainer → Type 0
IsValid c =
    RefsBelow (length c.heap) c.messages
    × ((c.active_dialog ≡ []) ⊎ (is_some (find c.active_dialog c.messages) ≡ true))

RefsBelow-mono : (n k : ℕ) (m : List (Text × List ℕ)) → n ≤ k → RefsBelow n m → RefsBelow k m
RefsBelow-mono n k m le h =
    All-map (λ e. All (λ r. r < n) e.1) (λ e. All (λ r. r < k) e.1)
      (λ e. All-map (λ r. r < n) (λ r. r < k) (λ r lt. omega (arith, lt, le)) e.1) m h

insert-RefsBelow :
    (n : ℕ) (id : Text) (refs : List ℕ) (m : List (Text × List ℕ))
    → RefsBelow n m
    → All (λ r. r < n) refs
    → RefsBelow n (insert id refs m)
unfolding insert
insert-RefsBelow n id refs [] h k = (k, tt)
insert-RefsBelow n id refs ((j, w) ∷ m) (p, h) k = elim (Bool-cases (text_eq j id)) [
  | inl same ↦ rw (same, insert) (k, h)
  | inr other ↦
      rw (other, insert)
        (elim (Bool-cases (text_key.lt id j)) [
          | inl less ↦ rw less (k, (p, h))
          | inr more ↦ rw more (p, insert-RefsBelow n id refs m h k)
        ])
]

pub erase-RefsBelow :
    (n : ℕ) (id : Text) (m : List (Text × List ℕ)) → RefsBelow n m → RefsBelow n (erase id m)
unfolding erase
erase-RefsBelow n id [] h = tt
erase-RefsBelow n id ((j, w) ∷ m) (p, h) = elim (Bool-cases (text_eq j id)) [
  | inl same ↦ rw (same, erase) (erase-RefsBelow n id m h)
  | inr other ↦ rw (other, erase) (p, erase-RefsBelow n id m h)
]

pub find-RefsBelow :
    (n : ℕ) (id : Text) (m : List (Text × List ℕ))
    → RefsBelow n m
    → All (λ r. r < n) (list_or_empty (find id m))
unfolding find
find-RefsBelow n id [] h = tt
find-RefsBelow n id ((j, w) ∷ m) (p, h) = elim (Bool-cases (text_eq j id)) [
  | inl same ↦ rw (same, find) p
  | inr other ↦ rw (other, find) (find-RefsBelow n id m h)
]

pub insert_present :
    (id j : Text) (refs : List ℕ) (m : List (Text × List ℕ))
    → is_some (find j m) ≡ true
    → is_some (find j (insert id refs m)) ≡ true
insert_present id j refs m h =
    rw (find-insert id j refs m)
      (elim (Bool-cases (text_eq id j)) [ inl same ↦ rw same | inr other ↦ rw other h ])

insert_found :
    (id : Text) (refs : List ℕ) (m : List (Text × List ℕ))
    → is_some (find id (insert id refs m)) ≡ true
insert_found id refs m = rw (find-insert id id refs m, (text_key.eq_iff id id).1 refl)

pub peek_found-IsValid :
    (o : Option (List ℕ)) (c : MessageContainer) → IsValid c → IsValid (peek_found o c)
unfolding peek_found
peek_found-IsValid none c v = v
peek_found-IsValid (some refs) c v = v

pub set_active_dialog-IsValid :
    (id : Text) (c : MessageContainer) → IsValid c → IsValid (set_active_dialog id c)
unfolding set_active_dialog
set_active_dialog-IsValid [] c (h, p) = (h, inl refl)
set_active_dialog-IsValid (x ∷ xs) c (h, p) = elim (Bool-cases (text_eq (x ∷ xs) c.active_dialog)) [
  | inl same ↦ rw (same, set_active_dialog) (h, p)
  | inr other ↦
      rw (other, set_active_dialog)
        (elim (Bool-cases (is_some (find (x ∷ xs) c.messages))) [
          | inl there ↦ rw there (peek_found-IsValid _ _ (h, inr there))
          | inr missing ↦ rw missing (
              peek_found-IsValid _ _ (
                insert-RefsBelow (length c.heap) (x ∷ xs) [] c.messages h tt,
                inr (insert_found (x ∷ xs) [] c.messages),
              ))
        ])
]

-- A message is pushed on a dialog and allocated at the end of the heap.
pub push-IsValid :
    (id : Text) (m : UserMessage) (c : MessageContainer)
    → IsValid c
    → IsValid (add_shared_message id (length c.heap) (make_shared m c).1)
unfolding add_shared_message
push-IsValid id m c (h, p) =
    let n = length (c.heap ++ m ∷ []) in
    let le : length c.heap < n = omega (arith, length-append c.heap (m ∷ [])) in
    let below = RefsBelow-mono (length c.heap) n c.messages (omega (arith, le)) h in
    (
      insert-RefsBelow n id (list_or_empty (find id c.messages) ++ length c.heap ∷ []) c.messages
          below
          (All-append (λ r. r < n) (list_or_empty (find id c.messages)) (length c.heap ∷ [])
            (find-RefsBelow n id c.messages below) (le, tt)),
      elim p [
        | inl e ↦ inl e
        | inr there ↦ inr (insert_present id c.active_dialog _ c.messages there)
      ],
    )

pub add_message-IsValid :
    (id text : Text) (inc : Bool) (c : MessageContainer)
    → IsValid c
    → IsValid (add_message id text inc c)
unfolding add_message
add_message-IsValid id text inc c v = push-IsValid id (message_of text inc) c v

pub wrapper-IsValid :
    (text : Text) (inc : Bool) (c : MessageContainer)
    → IsValid c
    → IsValid (state_after (add_to_active_dialog_with_wrapper text inc c))
unfolding add_to_active_dialog_with_wrapper add_shared_message
wrapper-IsValid text inc c v = elim (Bool-cases (is_some (find c.active_dialog c.messages))) [
  | inl there ↦
      rw (there, add_to_active_dialog_with_wrapper)
        (push-IsValid c.active_dialog (message_of text inc) c v)
  | inr missing ↦ rw (missing, add_to_active_dialog_with_wrapper) v
]

pub to_active-IsValid :
    (text : Text) (inc : Bool) (c : MessageContainer)
    → IsValid c
    → IsValid (state_after (add_message_to_activedialog text inc c))
unfolding add_message_to_activedialog
to_active-IsValid text inc c v = elim (Bool-cases (is_some (find c.active_dialog c.messages))) [
  | inl there ↦
      rw (there, add_message_to_activedialog) (add_message-IsValid c.active_dialog text inc c v)
  | inr missing ↦ rw (missing, add_message_to_activedialog) v
]
