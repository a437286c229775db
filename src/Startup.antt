-- ===== src/Startup.antt =====
-- messages/src/core-initializer/coreinitializer.cpp: what the core holds when it has started, and who
-- listens to its storages. The keys come from a file, or are made, by the encryption library: both are
-- arguments. The storages are those of the last run: the stored contacts.
use secure_dialogues.Common.{ℕ, Bool, true, List, [], ◌∷◌, ◌==◌, if◌then◌else◌}
use secure_dialogues.Common.Result.{Result, ok, throw, Prog, return}
use secure_dialogues.Dialog.{Dialog}
use secure_dialogues.Contacts.{Contact}
use secure_dialogues.MessageContainer.{MessageContainer, empty_container}
use secure_dialogues.CryptoSystem.{Primitives, CryptoSystem}
use secure_dialogues.Core.{MessageHandler, dialog_action_handler, message_action_handler}
use secure_dialogues.Listeners.{EventListeners, no_listeners, append_permanent_listener}
use secure_dialogues.Listeners.Dialogs.{
  generate_system_message, contact_informed, contact_removal_informed, dialog_removal_informed,
}
pub mod Informed

-- The permanent listeners of the core.
abbrev pub crypto_system_contact_update_informator : ℕ
crypto_system_contact_update_informator = 0

abbrev pub system_message_generator : ℕ
system_message_generator = 1

abbrev pub crypto_system_dialog_remove_informator : ℕ
crypto_system_dialog_remove_informator = 2

module _ ⦃prim : Primitives⦄ where
  -- `loadKeys`: keys that cannot be read are made.
  abbrev pub load_keys :
      Result (prim.PublicKey × prim.PrivateKey)
      → Result (prim.PublicKey × prim.PrivateKey)
      → Result (prim.PublicKey × prim.PrivateKey)
  load_keys (ok keys) generated = ok keys
  load_keys (throw e) generated = generated

  -- The constructor of `CryptoSystemImpl`.
  abbrev pub make_crypto_system : prim.PublicKey × prim.PrivateKey → CryptoSystem prim
  make_crypto_system (public, private) = record {
    public_key = public;
    local = private;
    remote = [];
    ciphers = [];
  }

pub record CoreState (prim : Primitives) : Type 0 where
  pub contacts : List Contact
  pub contact_listeners : EventListeners
  pub dialog_listeners : EventListeners
  pub handlers : List MessageHandler
  pub container : MessageContainer
  pub crypto : CryptoSystem prim

module _ ⦃prim : Primitives⦄ where
  -- The constructor of `CoreInitializer` and `init`.
  abbrev pub initialize : List Contact → prim.PublicKey × prim.PrivateKey → CoreState prim
  initialize stored keys = record {
    contacts = stored;
    contact_listeners =
        append_permanent_listener crypto_system_contact_update_informator no_listeners;
    dialog_listeners =
        append_permanent_listener crypto_system_dialog_remove_informator
          (append_permanent_listener system_message_generator no_listeners);
    handlers = message_action_handler ∷ dialog_action_handler ∷ [];
    container = empty_container;
    crypto = make_crypto_system keys;
  }

  abbrev pub started_with :
      List Contact → Result (prim.PublicKey × prim.PrivateKey) → Result (CoreState prim)
  started_with stored (ok keys) = ok (initialize stored keys)
  started_with stored (throw e) = throw e

  unfoldable pub start_core :
      List Contact
      → Result (prim.PublicKey × prim.PrivateKey)
      → Result (prim.PublicKey × prim.PrivateKey)
      → Result (CoreState prim)
  unfolding append_permanent_listener
  start_core stored read generated = started_with stored (load_keys read generated)

  -- What each listener does when it is told of a contact or a dialog.
  abbrev pub on_crypto_state :
      Prog (CryptoSystem prim) (Unit {0}) → Prog (CoreState prim) (Unit {0})
  on_crypto_state f s = let (r, c) = f s.crypto in (r, record s { crypto = c })

  abbrev pub tell_contact_changed : Contact → ℕ → Prog (CoreState prim) (Unit {0})
  tell_contact_changed c l =
      if l == crypto_system_contact_update_informator
      then on_crypto_state (contact_informed c)
      else return tt

  abbrev pub tell_contact_removed : Contact → ℕ → Prog (CoreState prim) (Unit {0})
  tell_contact_removed c l s =
      if l == crypto_system_contact_update_informator
      then return tt (record s { crypto = contact_removal_informed c s.crypto })
      else return tt s

  abbrev pub tell_dialog_changed : Dialog → ℕ → Prog (CoreState prim) (Unit {0})
  tell_dialog_changed d l s =
      if l == system_message_generator
      then return tt (record s { container = generate_system_message true d s.container })
      else return tt s

  abbrev pub tell_dialog_removed : Dialog → ℕ → Prog (CoreState prim) (Unit {0})
  tell_dialog_removed d l s =
      if l == crypto_system_dialog_remove_informator
      then return tt (record s { crypto = dialog_removal_informed d s.crypto })
      else return tt s
