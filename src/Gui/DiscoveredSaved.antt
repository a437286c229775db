-- ===== src/Gui/DiscoveredSaved.antt =====
-- gui/src/wrappers/recievedcontactsstoragewrapper.cpp: a contact that made itself known becomes a contact
-- of the user. The two storages are parameters; `add` and `remove` tell whether they did it.
use secure_dialogues.Common.{Bool, true, false, Text}
use secure_dialogues.Common.Result.{Prog, return, ◌>>=◌, ◌>>◌}
use secure_dialogues.Contacts.{Contact, DiscoveredContact, make_contact}

-- The contact's constructor, with the id that it draws.
abbrev pub contact_from : DiscoveredContact → Text → Contact
contact_from discovered uiid =
    make_contact discovered.channel_moniker discovered.name discovered.adress discovered.public_key
      uiid

module _ {Contacts Discovered : Type 0} (add_contact : Contact → Prog Contacts Bool)
    (remove_contact : Text → Prog Contacts Bool)
    (remove_discovered : Text → Prog Discovered Bool) where
  abbrev pub on_first : {A : Type 0} → Prog Contacts A → Prog (Contacts × Discovered) A
  on_first f (c, d) = let (r, c') = f c in (r, (c', d))

  abbrev pub on_second : {A : Type 0} → Prog Discovered A → Prog (Contacts × Discovered) A
  on_second f (c, d) = let (r, d') = f d in (r, (c, d'))

  -- `removeDiscoveredContact`.
  abbrev pub remove_discovered_contact : Text → Prog (Contacts × Discovered) Bool
  remove_discovered_contact id = on_second (remove_discovered id)

  abbrev pub finish_saving : Contact → Bool → Prog (Contacts × Discovered) Bool
  finish_saving contact true = return true
  finish_saving contact false = on_first (remove_contact contact.contact_id) >> return false

  abbrev pub discard_saved : Contact → Text → Bool → Prog (Contacts × Discovered) Bool
  discard_saved contact id true = on_second (remove_discovered id) >>= finish_saving contact
  discard_saved contact id false = return false

  unfoldable pub save_to_contact : Contact → Text → Prog (Contacts × Discovered) Bool
  save_to_contact contact id = on_first (add_contact contact) >>= discard_saved contact id
