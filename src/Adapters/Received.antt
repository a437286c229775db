-- ===== src/Adapters/Received.antt =====
-- What the adapter of a plugin makes of the plugin's answers.
use secure_dialogues.Common.{
  ℕ, suc, ◌≡◌, refl, zero, true, false, List, [], ◌∷◌, Text, ◌<◌, length, arith,
}
use secure_dialogues.Common.Result.{ok}
use secure_dialogues.Adapters.{Communicator, valid, done, collect, adapter_receive, receive_error}

module _ (plugin : Communicator) where
  -- The iterator is in front of these messages.
  abbrev pub IsAt : plugin.Iterator → List (Text × Text) → Type 0
  IsAt i [] = plugin.has_next i ≡ false
  IsAt i ((address, message) ∷ rest) =
      (plugin.has_next i ≡ true)
      × (plugin.address i ≡ address)
      × (plugin.message i ≡ valid message)
      × IsAt (plugin.next i) rest

  collect_lem :
      (fuel : ℕ) (i : plugin.Iterator) (messages : List (Text × Text))
      → length messages < fuel
      → IsAt i messages
      → collect plugin fuel i ≡ done (ok messages)
  unfolding collect
  collect_lem (suc n) i [] fuel last = rw last refl
  collect_lem (suc n) i ((address, message) ∷ rest) fuel (more, same_address, same_message, at) =
      rw (more, same_address, same_message)
        (rw (collect_lem n (plugin.next i) rest (omega arith) at) refl)
  collect_lem zero i messages fuel at = ground arith

  -- When the plugin answers with an iterator in front of some messages, whose pointers are valid, and the loop gets more turns
  -- than there are messages, `receive` ends: it returns these messages in their order if the iterator
  -- has no error, and otherwise comes to what the code of the error stands for.
  pub adapter_receive_lem :
      (s t : plugin.State) (i : plugin.Iterator) (messages : List (Text × Text)) (fuel : ℕ)
      → plugin.recieve s ≡ (done i, t)
      → IsAt i messages
      → length messages < fuel
      → adapter_receive plugin fuel s ≡ (receive_error (plugin.error i) (done (ok messages)), t)
  unfolding adapter_receive
  adapter_receive_lem s t i messages fuel answer at enough =
      rw answer (rw (collect_lem fuel i messages enough at) refl)
