-- ===== src/Plugins/Gmail/Polling.antt =====
-- Polling a mailbox of Gmail.
use secure_dialogues.Common.{
  ℕ, zero, suc, ◌+◌, ◌≡◌, ◌==◌, refl, true, false, Option, none, some, List, [], ◌∷◌, Text, codes,
  length, arith,
}
use secure_dialogues.MessageContainer.{is_empty}
use secure_dialogues.Plugins.{Web, Attempt, success, failure, std_exception, chain}
use secure_dialogues.Plugins.Gmail.{
  GmailApi, get_mail, load_listed, load_count, list_page, load_messages, get_messages, first_id,
}

-- The texts of a list, the last one first, in front of others.
abbrev pub reverse_onto {ℓ} : {A : Type ℓ} → List A → List A → List A
reverse_onto [] ys = ys
reverse_onto (x ∷ xs) ys = reverse_onto xs (x ∷ ys)

module _ ⦃web : Web⦄ (api : GmailApi) (auth : Text × Text) where
  abbrev pub id_at : ℕ → web.Json → Attempt web.Json
  id_at i messages = chain (web.at_index i messages) (web.at (codes "id"))

  -- From a place on, the listed messages are other ones than the last one of the call before, and these
  -- mails are read for them, which moves the network.
  abbrev pub Reads : web.Json → ℕ → web.Network → List (Text × Text) → web.Network → Type 0
  Reads messages i n [] m = n ≡ m
  Reads messages i n (mail ∷ mails) m =
      (id : web.Json) × (s : Text) × (next : web.Network) × (id_at i messages ≡ success id)
      × (web.equals_text id api.last_message ≡ false)
      × (web.to_string id ≡ success s)
      × (get_mail s auth api.user_mail n ≡ (success mail, next))
      × Reads messages (i + 1) next mails m

  load_listed-Reads :
      (messages : web.Json) (mails loaded : List (Text × Text)) (i k : ℕ) (n m : web.Network)
      → Reads messages i n mails m
      → load_listed (length mails + k) i api auth messages loaded n
        ≡ load_listed k (i + length mails) api auth messages (reverse_onto mails loaded) m
  unfolding load_listed
  load_listed-Reads messages [] loaded i k n m same =
      let all : 0 + k ≡ k = omega arith in
      let here : i + 0 ≡ i = omega arith in rw (same, all, here) refl
  load_listed-Reads messages (mail ∷ mails) loaded i k n m
        (id, s, next, listed, other, named, read, rest) =
      let more : suc (length mails) + k ≡ suc (length mails + k) = omega arith in
      let places : i + suc (length mails) ≡ (i + 1) + length mails = omega arith in
      rw (more, load_listed, listed)
        (rw other (
          rw named (
            rw read (
              rw places (load_listed-Reads messages mails (mail ∷ loaded) (i + 1) k next m rest)))))

  load_listed-found :
      (messages id : web.Json) (rest : ℕ) (mails : List (Text × Text)) (n m : web.Network)
      → Reads messages 0 n mails m
      → id_at (length mails) messages ≡ success id
      → web.equals_text id api.last_message ≡ true
      → load_listed (length mails + suc rest) 0 api auth messages [] n
        ≡ (success (true, reverse_onto mails []), m)
  unfolding load_listed
  load_listed-found messages id rest mails n m reads found same =
      let here : 0 + length mails ≡ length mails = omega arith in
      rw (load_listed-Reads messages mails [] 0 (suc rest) n m reads, here, found) (rw same refl)

  -- The answer to the request of the first page lists these messages, so many of them.
  abbrev pub Lists : web.Network → web.Json → web.Json → web.Network → Type 0
  Lists n body messages m =
      (list_page api auth [] n ≡ (success body, m))
      × (web.contains (codes "messages") body ≡ true)
      × (web.at (codes "messages") body ≡ success messages)

  -- After a call that ended with a message: the first page lists new messages, whose mails are read,
  -- and after them that message. Then `getMessages` returns the mails of the new messages, the oldest
  -- first and each once, and the newest message is remembered.
  pub get_messages_new :
      (fuel rest : ℕ) (body messages id newest : web.Json) (last : Text) (mail : Text × Text)
      (mails : List (Text × Text)) (n listed read : web.Network)
      → is_empty api.last_message ≡ false
      → Lists n body messages listed
      → Reads messages 0 listed (mail ∷ mails) read
      → web.size messages ≡ suc (length mails) + suc rest
      → id_at (suc (length mails)) messages ≡ success id
      → web.equals_text id api.last_message ≡ true
      → id_at 0 messages ≡ success newest
      → web.to_string newest ≡ success last
      → is_empty last ≡ false
      → get_messages (suc fuel) auth (api, n) ≡ (
        success (some (reverse_onto (mail ∷ mails) [])),
        (record api { last_message = last }, read),
      )
  unfolding get_messages load_messages
  get_messages_new fuel rest body messages id newest last mail mails n listed read known
        (page, has, at) reads size found same first named full =
      let all = load_listed-found messages id rest (mail ∷ mails) listed read reads found same in
      let counted : load_count api (web.size messages) ≡ suc (length mails) + suc rest =
        rw (known, size) refl in
      let positive : (web.size messages == 0) ≡ false = ground (arith, size) in
      let some_first : first_id messages ≡ success (some newest) = rw (positive, first) refl in
      rw (load_messages, page)
        (rw has (rw at (rw counted (rw all (rw some_first (rw named (rw full refl)))))))

  -- The mailbox answers with a single page that does not have the remembered message.
  abbrev pub IsLost : web.Network → Type 0
  IsLost n =
      (body : web.Json) × (messages : web.Json) × (mails : List (Text × Text))
      × (listed : web.Network) × (read : web.Network) × Lists n body messages listed
      × Reads messages 0 listed mails read
      × (web.size messages ≡ length mails)
      × (web.at (codes "nextPageToken") body ≡ failure std_exception)

  load_listed-all :
      (messages : web.Json) (mails : List (Text × Text)) (n m : web.Network)
      → Reads messages 0 n mails m
      → load_listed (length mails) 0 api auth messages [] n
        ≡ (success (false, reverse_onto mails []), m)
  unfolding load_listed
  load_listed-all messages mails n m reads =
      let all : length mails + 0 ≡ length mails = omega arith in
      rw (← all) (load_listed-Reads messages mails [] 0 0 n m reads)

  first_id-Reads :
      (messages : web.Json) (mails : List (Text × Text)) (n m : web.Network)
      → Reads messages 0 n mails m
      → web.size messages ≡ length mails
      → (first : Option web.Json) × (first_id messages ≡ success first)
  first_id-Reads messages [] n m reads size = (none, rw size refl)
  first_id-Reads messages (mail ∷ mails) n m (id, s, next, listed, other, named, read, rest) size =
      let positive : (web.size messages == 0) ≡ false = ground (arith, size) in
      (some id, rw (positive, listed) refl)

  get_messages-IsLost :
      (fuel : ℕ) (n : web.Network)
      → is_empty api.last_message ≡ false
      → (lost : IsLost n)
      → get_messages (suc fuel) auth (api, n) ≡ (failure std_exception, (api, lost.4))
  unfolding get_messages load_messages
  get_messages-IsLost fuel n known
        (body, messages, mails, listed, read, (page, has, at), reads, size, ends) =
      let all = load_listed-all messages mails listed read reads in
      let counted : load_count api (web.size messages) ≡ length mails = rw (known, size) refl in
      let (first, is_first) = first_id-Reads messages mails listed read reads size in
      rw (load_messages, page)
        (rw has (rw at (rw counted (rw all (rw is_first (rw known (rw ends refl)))))))

  -- So many calls of `getMessages`, with what each of them comes to.
  unfoldable pub polls :
      ℕ
      → ℕ
      → GmailApi × web.Network
      → List (Attempt (Option (List (Text × Text)))) × (GmailApi × web.Network)
  polls fuel zero s = ([], s)
  polls fuel (suc k) s =
      let (r, next) = get_messages fuel auth s in let (rs, end) = polls fuel k next in (r ∷ rs, end)

  abbrev pub repeat {ℓ} : {A : Type ℓ} → ℕ → A → List A
  repeat zero x = []
  repeat (suc k) x = x ∷ repeat k x

  -- A message is remembered, and the mailbox answers each request with a single page that does not have
  -- it, whose other mails can be read. Then, however often it is asked, every call of `getMessages`
  -- throws, and the same message stays remembered: nothing is received any more.
  pub polls_lost :
      (fuel k : ℕ) (n : web.Network) (Stays : web.Network → Type 0)
      → is_empty api.last_message ≡ false
      → ((m : web.Network) → Stays m → (lost : IsLost m) × Stays (lost.4))
      → Stays n
      → ((polls (suc fuel) k (api, n)).0 ≡ repeat k (failure std_exception))
        × ((polls (suc fuel) k (api, n)).1.0 ≡ api)
  unfolding polls
  polls_lost fuel zero n Stays known always stays = (refl, refl)
  polls_lost fuel (suc k) n Stays known always stays =
      let (lost, still) = always n stays in
      let (same, kept) = polls_lost fuel k (lost.4) Stays known always still in
      rw (polls, get_messages-IsLost fuel n known lost) (rw same refl, kept)
