-- ===== src/MessageContainer/Views.antt =====
-- The messages that a dialog shows: the abstract view of the container, in which a pointer is
-- replaced by what it reaches.
use secure_dialogues.Common.{
  ℕ, ◌<◌, ◌≡◌, refl, Bool, Option, none, some, List, [], ◌∷◌, ◌++◌, inl, inr, All, Text, text_eq,
  length, get_elem?, get_elem?-append, get_elem?-length, map, if◌then◌else◌, Bool-cases,
}
use secure_dialogues.Common.Maps.{find, insert, find-insert, text_key}
use secure_dialogues.MessageContainer.{
  MessageContainer, UserMessage, message_added, list_or_empty, add_message, add_shared_message,
  message_of,
}
use secure_dialogues.MessageContainer.Valid.{IsValid, RefsBelow, find-RefsBelow}

abbrev pub contents : List UserMessage → Option (List ℕ) → Option (List (Option UserMessage))
contents heap none = none
contents heap (some refs) = some (map (get_elem? heap) refs)

-- The messages of a dialog, `none` if the container has no entry for it.
abbrev pub dialog_messages : Text → MessageContainer → Option (List (Option UserMessage))
dialog_messages id c = contents c.heap (find id c.messages)

abbrev pub shown : Option (List (Option UserMessage)) → List (Option UserMessage)
shown none = []
shown (some ms) = ms

map-below :
    (heap : List UserMessage) (m : UserMessage) (refs : List ℕ)
    → All (λ r. r < length heap) refs
    → map (get_elem? (heap ++ m ∷ [])) refs ≡ map (get_elem? heap) refs
map-below heap m [] h = refl
map-below heap m (r ∷ refs) (lt, h) =
    rw (get_elem?-append heap (m ∷ []) r lt, map-below heap m refs h)

map-pushed :
    (heap : List UserMessage) (m : UserMessage) (refs : List ℕ)
    → All (λ r. r < length heap) refs
    → map (get_elem? (heap ++ m ∷ [])) (refs ++ length heap ∷ [])
      ≡ map (get_elem? heap) refs ++ some m ∷ []
map-pushed heap m [] h = rw (get_elem?-length heap m)
map-pushed heap m (r ∷ refs) (lt, h) =
    rw (get_elem?-append heap (m ∷ []) r lt, map-pushed heap m refs h)

contents-below :
    (heap : List UserMessage) (m : UserMessage) (o : Option (List ℕ))
    → All (λ r. r < length heap) (list_or_empty o)
    → contents (heap ++ m ∷ []) o ≡ contents heap o
contents-below heap m none h = refl
contents-below heap m (some refs) h = rw (map-below heap m refs h)

contents-pushed :
    (heap : List UserMessage) (m : UserMessage) (o : Option (List ℕ))
    → All (λ r. r < length heap) (list_or_empty o)
    → contents (heap ++ m ∷ []) (some (list_or_empty o ++ length heap ∷ []))
      ≡ some (shown (contents heap o) ++ some m ∷ [])
contents-pushed heap m none h = rw (map-pushed heap m [] tt)
contents-pushed heap m (some refs) h = rw (map-pushed heap m refs h)

-- A message that is allocated last and pushed on a dialog comes last in that dialog.
pub contents-insert :
    (id j : Text) (m : UserMessage) (heap : List UserMessage) (ms : List (Text × List ℕ))
    → RefsBelow (length heap) ms
    → contents
        (heap ++ m ∷ [])
        (find j (insert id (list_or_empty (find id ms) ++ length heap ∷ []) ms))
      ≡ (if text_eq id j
          then some (shown (contents heap (find id ms)) ++ some m ∷ [])
          else contents heap (find j ms))
contents-insert id j m heap ms h =
    rw (find-insert id j (list_or_empty (find id ms) ++ length heap ∷ []) ms)
      (elim (Bool-cases (text_eq id j)) [
        | inl same ↦
            rw same (contents-pushed heap m (find id ms) (find-RefsBelow (length heap) id ms h))
        | inr other ↦
            rw other (contents-below heap m (find j ms) (find-RefsBelow (length heap) j ms h))
      ])

-- In a valid container `addMessage` puts the message last in its dialog, which is made if it is not
-- there, changes no other dialog, and calls each handler once, in order.
pub dialog_messages-add_message :
    (id j text : Text) (inc : Bool) (c : MessageContainer)
    → IsValid c
    → (dialog_messages j (add_message id text inc c) ≡ (
        if text_eq id j
        then some (shown (dialog_messages id c) ++ some (message_of text inc) ∷ [])
        else dialog_messages j c))
      × ((add_message id text inc c).events
          ≡ c.events ++ map (λ h. (h, message_added id (length c.heap))) c.event_handlers)
unfolding add_message add_shared_message
dialog_messages-add_message id j text inc c (h, p) =
    (contents-insert id j (message_of text inc) c.heap c.messages h, refl)
