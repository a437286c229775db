-- ===== src/Dialog/Sequence.antt =====
-- The two counters of a dialog: which incoming numbers are taken, and which are sent.
use secure_dialogues.Common.{
  ℕ, ◌+◌, ◌%◌, ◌≤◌, ◌<◌, ◌≡◌, refl, List, [], ◌∷◌, arith, if◌then◌else◌, suc, zero,
}
use secure_dialogues.Dialog.{Dialog, ulong_mod, is_sequental_ok, make_next_sequental}

-- The numbers that pass `isSequentalOk`, with the dialog saved after each.
pub accepted : Dialog → List ℕ → List ℕ
accepted d [] = []
accepted d (n ∷ ns) =
    let (d', ok) = is_sequental_ok d n in let rest = accepted d' ns in if ok then n ∷ rest else rest

-- Each number is greater than the bound and than all before it.
abbrev pub Increasing : ℕ → List ℕ → Type 0
Increasing b [] = Unit {0}
Increasing b (n ∷ ns) = (b < n) × Increasing n ns

-- From any list of incoming numbers a dialog takes a strictly increasing selection, all above the
-- peer number that it starts with; so it takes no number twice.
pub accepted-Increasing : (d : Dialog) (ns : List ℕ) → Increasing d.peer_sequental (accepted d ns)
unfolding accepted is_sequental_ok
accepted-Increasing d [] = tt
accepted-Increasing d (n ∷ ns) =
    ground
      (arith, accepted-Increasing d ns, accepted-Increasing (record d { peer_sequental = n }) ns)

-- Numbers that already increase from the dialog's peer number are all taken.
pub accepted_all : (d : Dialog) (ns : List ℕ) → Increasing d.peer_sequental ns → accepted d ns ≡ ns
unfolding accepted is_sequental_ok
accepted_all d [] h = refl
accepted_all d (n ∷ ns) h = ground (arith, accepted_all (record d { peer_sequental = n }) ns)

-- The numbers of the next messages of this side.
pub sent_numbers : ℕ → Dialog → List ℕ
sent_numbers zero d = []
sent_numbers (suc k) d = let (d', n) = make_next_sequental d in n ∷ sent_numbers k d'

-- The next `k` numbers that this side sends increase from its counter, as long as the 64-bit counter
-- has room for `k` more.
pub sent_numbers-Increasing :
    (k : ℕ) (d : Dialog)
    → d.this_sequental + k < ulong_mod
    → Increasing d.this_sequental (sent_numbers k d)
unfolding sent_numbers make_next_sequental
sent_numbers-Increasing zero d h = tt
sent_numbers-Increasing (suc k) d h =
    let next = (d.this_sequental + 1) % ulong_mod in
    let e : next ≡ d.this_sequental + 1 = omega arith in
    (omega arith, sent_numbers-Increasing k (record d { this_sequental = next }) (omega arith))

Increasing-mono : {a b : ℕ} (ns : List ℕ) → a ≤ b → Increasing b ns → Increasing a ns
Increasing-mono [] h i = tt
Increasing-mono (n ∷ ns) h i = (omega arith, i.1)

-- What one side sends the other takes in full: a receiver whose peer number is at most the sender's
-- counter accepts each of the next `k` numbers, while the 64-bit counter does not wrap.
pub accepted-sent_numbers :
    (k : ℕ) (sender receiver : Dialog)
    → receiver.peer_sequental ≤ sender.this_sequental
    → sender.this_sequental + k < ulong_mod
    → accepted receiver (sent_numbers k sender) ≡ sent_numbers k sender
accepted-sent_numbers k sender receiver h room =
    accepted_all receiver (sent_numbers k sender)
      (Increasing-mono (sent_numbers k sender) h (sent_numbers-Increasing k sender room))
