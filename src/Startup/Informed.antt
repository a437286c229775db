-- ===== src/Startup/Informed.antt =====
-- What the listeners of the core bring about after its start.
use secure_dialogues.Common.{
  ◌≡◌, refl, ap, ◌∙◌, true, none, [], List, ℕ, Bool, Text, text_eq, text_eq_refl, if◌then◌else◌,
}
use secure_dialogues.Common.Maps.{find, insert, find-erase, text_key}
use secure_dialogues.Common.Result.{Result, ok, throw, range_error}
use secure_dialogues.DialogMessage.{DialogMessage}
use secure_dialogues.Dialog.{Dialog}
use secure_dialogues.Contacts.{Contact}
use secure_dialogues.Marshaller.{marshall_except_signature}
use secure_dialogues.CryptoSystem.{
  dialog_removed, Primitives, is_signature_ok, update_contact, find_remote, get_remote_by_adress,
}
use secure_dialogues.Listeners.{
  EventListeners, notify_listeners, notify_permanent, notify_weak, append_permanent_listener,
}
use secure_dialogues.Listeners.Dialogs.{
  generate_system_message, contact_informed, dialog_removal_informed,
}
use secure_dialogues.Startup.{
  CoreState, initialize, start_core, tell_contact_changed, tell_dialog_changed, tell_dialog_removed,
}

module _ ⦃prim : Primitives⦄ (alive : ℕ → CoreState prim → Bool) where
  -- The core right after its start, before and after it was told of a contact.
  abbrev pub told : Contact → CoreState prim → CoreState prim
  told c s = (notify_listeners (tell_contact_changed c) alive s.contact_listeners s).0.1

  started_lem :
      (stored : List Contact) (read generated : Result (prim.PublicKey × prim.PrivateKey))
      (s : CoreState prim)
      → start_core stored read generated ≡ ok s
      → (keys : prim.PublicKey × prim.PrivateKey) × (s ≡ initialize stored keys)
  unfolding start_core
  started_lem stored (ok keys) generated s e = (keys, cc)
  started_lem stored (throw x) (ok keys) s e = (keys, cc)
  started_lem stored (throw x) (throw y) s e = cc

  informed :
      (stored : List Contact) (keys : prim.PublicKey × prim.PrivateKey) (c : Contact)
      (key : prim.PublicKey) (m : DialogMessage)
      → prim.deserialize c.public_key ≡ ok key
      → m.adress ≡ c.adress
      → (is_signature_ok m (told c (initialize stored keys)).crypto).0
        ≡ prim.is_valid key (marshall_except_signature m) m.sign
  unfolding notify_listeners notify_permanent append_permanent_listener contact_informed
      update_contact is_signature_ok get_remote_by_adress find_remote insert
  informed stored keys c key m reads same =
      let found : text_eq c.adress m.adress ≡ true = rw same (text_eq_refl c.adress) in
      rw reads (rw found refl)

  -- However the contacts that are stored look, the core that starts with keys that could be read or made
  -- knows none of them: the signature check of every message throws. Only when a contact is added or
  -- changed afterwards, with a key that can be read, the check of its messages uses that key.
  pub start_core_forgets :
      (stored : List Contact) (read generated : Result (prim.PublicKey × prim.PrivateKey))
      (s : CoreState prim) (c : Contact) (key : prim.PublicKey) (m : DialogMessage)
      → start_core stored read generated ≡ ok s
      → prim.deserialize c.public_key ≡ ok key
      → m.adress ≡ c.adress
      → ((is_signature_ok m s.crypto).0 ≡ throw range_error)
        × ((is_signature_ok m (told c s).crypto).0
            ≡ prim.is_valid key (marshall_except_signature m) m.sign)
  unfolding is_signature_ok get_remote_by_adress find_remote
  start_core_forgets stored read generated s c key m started reads same =
      let (keys, e) = started_lem stored read generated s started in
      rw e (refl, informed stored keys c key m reads same)

  informed_dialogs :
      (ls : EventListeners) (keys : prim.PublicKey × prim.PrivateKey) (v : CoreState prim)
      (d : Dialog) (j : Text)
      → ls ≡ (initialize [] keys).dialog_listeners
      → let removed = (notify_listeners (tell_dialog_removed d) alive ls v).0 in
        let changed = (notify_listeners (tell_dialog_changed d) alive ls v).0 in
        (removed.0 ≡ ok tt)
        × (find j removed.1.crypto.ciphers
            ≡ (if text_eq d.dialog_id j then none else find j v.crypto.ciphers))
        × (removed.1.container ≡ v.container)
        × (changed ≡ (ok tt, record v { container = generate_system_message true d v.container }))
  unfolding notify_listeners notify_permanent notify_weak append_permanent_listener
      dialog_removal_informed dialog_removed
  informed_dialogs ls keys v d j e =
      rw e (refl, find-erase d.dialog_id j v.crypto.ciphers, refl, refl)

  -- When a stored dialog is removed, the core's listeners drop its session key and no other, and leave the
  -- messages; when a dialog is changed, they leave the keys and add the message of the system about
  -- its end, if it ended.
  pub start_core-dialogs :
      (stored : List Contact) (read generated : Result (prim.PublicKey × prim.PrivateKey))
      (s v : CoreState prim) (d : Dialog) (j : Text)
      → start_core stored read generated ≡ ok s
      → v.dialog_listeners ≡ s.dialog_listeners
      → let removed = (notify_listeners (tell_dialog_removed d) alive v.dialog_listeners v).0 in
        let changed = (notify_listeners (tell_dialog_changed d) alive v.dialog_listeners v).0 in
        (removed.0 ≡ ok tt)
        × (find j removed.1.crypto.ciphers
            ≡ (if text_eq d.dialog_id j then none else find j v.crypto.ciphers))
        × (removed.1.container ≡ v.container)
        × (changed ≡ (ok tt, record v { container = generate_system_message true d v.container }))
  start_core-dialogs stored read generated s v d j started same =
      let (keys, e) = started_lem stored read generated s started in
      informed_dialogs v.dialog_listeners keys v d j (same ∙ ap CoreState.dialog_listeners e)
