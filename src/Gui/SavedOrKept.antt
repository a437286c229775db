-- ===== src/Gui/SavedOrKept.antt =====
-- Making a contact out of a discovered one happens as a whole or not at all.
use secure_dialogues.Common.{◌≡◌, refl, Bool, true, false, ◌&&◌, Text, if◌then◌else◌}
use secure_dialogues.Common.Result.{ok, Prog}
use secure_dialogues.Contacts.{Contact}
use secure_dialogues.Gui.DiscoveredSaved.{save_to_contact}

module _ {Contacts Discovered : Type 0} (add_contact : Contact → Prog Contacts Bool)
    (remove_contact : Text → Prog Contacts Bool)
    (remove_discovered : Text → Prog Discovered Bool) where
  -- Both storages answer, change nothing when they answer false, and the storage of contacts undoes an
  -- addition by the removal of the id. Then the answer is true exactly when both steps were done, and
  -- otherwise both storages are as they were.
  pub save_to_contact_lem :
      (contact : Contact) (id : Text) (c c' : Contacts) (d d' : Discovered) (added removed : Bool)
      → add_contact contact c ≡ (ok added, c')
      → remove_discovered id d ≡ (ok removed, d')
      → (added ≡ false → c' ≡ c)
      → (removed ≡ false → d' ≡ d)
      → (added ≡ true → remove_contact contact.contact_id c' ≡ (ok true, c))
      → save_to_contact add_contact remove_contact remove_discovered contact id (c, d)
        ≡ (ok (added && removed), if added && removed then (c', d') else (c, d))
  unfolding save_to_contact
  save_to_contact_lem contact id c c' d d' true true adds removes kept_c kept_d undo =
      rw adds (rw removes refl)
  save_to_contact_lem contact id c c' d d' true false adds removes kept_c kept_d undo =
      rw adds (rw removes (rw (undo refl) (rw (kept_d refl) refl)))
  save_to_contact_lem contact id c c' d d' false removed adds removes kept_c kept_d undo =
      rw adds (rw (kept_c refl) refl)
