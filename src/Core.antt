-- ===== src/Core.antt =====
-- The state that the despatcher, the handlers of messages and the delivery handlers share, and what
-- they take from outside: messages/src/interfaces. The storages of the persistent-storage package, the
-- channel adapters of the plugins and the crypto system are parameters: their operations may throw, and
-- then they may have changed their state too.
use secure_dialogues.Common.{
  ℕ, Bool, true, false, Option, none, some, List, [], ◌∷◌, ◌++◌, Text, if◌then◌else◌,
}
use secure_dialogues.Common.Int.{ℤ}
use secure_dialogues.Common.Result.{Result, Exception, Prog, ok, throw, runtime_error, ◌>>◌}
use secure_dialogues.DialogMessage.{DialogMessage}
use secure_dialogues.Dialog.{Dialog, Status, set_status}
use secure_dialogues.Marshaller.{Junk}
use secure_dialogues.MessageContainer.{MessageContainer, Wrapper as MessageWrapper}
use secure_dialogues.Listeners.Dialogs.{generate_system_message}
use secure_dialogues.Repository.{Repository}
pub use secure_dialogues.Contacts.{Contact, DiscoveredContact, make_discovered_contact}
pub mod Despatcher
pub mod Delivery
pub mod DialogActions
pub mod DialogRequests
pub mod TextMessages
pub mod Dispatch
pub mod Sending
pub mod Rejected
pub mod Terminations
pub mod Texts
pub mod Returns
pub mod Sent
pub mod Discovered
pub mod Cycle
pub mod Keeps
pub mod Steps
pub mod History
pub mod Receiving
pub mod Reconnecting

-- The state types of the outside parts, and their operations. `wrapper(id)` of a storage is a copy of
-- the element that knows its storage: `get_dialog` makes it, `save_dialog` writes it back,
-- `reload_dialog` reads it again, and `remove_dialog` removes it. The storage tells its listeners of a
-- change that it made: `save_wrapper` and `remove_wrapper` below.
pub record Environment : Type 1 where
  pub Dialogs : Type 0
  pub Contacts : Type 0
  pub Crypto : Type 0
  pub Network : Type 0
  pub Discovered : Type 0
  pub has_dialog : Text → Dialogs → Bool
  pub get_dialog : Text → Dialogs → Result Dialog
  pub add_dialog : Dialog → Dialogs → Result (Unit {0}) × Dialogs
  pub save_dialog : Dialog → Dialogs → Result (Unit {0}) × Dialogs
  pub reload_dialog : Dialog → Dialogs → Result Dialog
  pub remove_dialog : Dialog → Dialogs → Result (Unit {0}) × Dialogs
  pub get_contact : Text → Contacts → Result Contact
  pub get_contact_if : (Contact → Bool) → Contacts → List Contact
  pub is_signature_ok : DialogMessage → Crypto → Result Bool
  pub create_signature : DialogMessage → Crypto → Result Text
  pub encrypt_message_body : Text → Text → Crypto → Result Text
  pub decrypt_message_body : Text → Text → Crypto → Result Text
  pub generate_and_export_key : Text → Text → Crypto → Result Text × Crypto
  pub import_key : Text → Text → Crypto → Result Text × Crypto
  pub check_verification_string : Text → Text → Crypto → Result Bool × Crypto
  pub dialog_removed : Text → Crypto → Crypto
  -- `send` of the adapter of the channel with the name, of a text to an address.
  pub adapter_send : Text → Text → Text → Network → Result (Unit {0}) × Network
  -- `connect` and `receive` of the adapter: pairs of an address and a text.
  pub adapter_connect : Text → Network → Result Bool × Network
  pub adapter_receive : Text → Network → Result (List (Text × Text)) × Network
  pub add_discovered : DiscoveredContact → Discovered → Result (Unit {0}) × Discovered
  -- `ex.what()`.
  pub what : Exception → Text

-- The delivery handlers, with the fields of their classes.
pub data DeliveryHandler : Type 0 where
  dialog_action_delivery : Dialog → Status → Bool → Text → Text → DeliveryHandler
  message_not_deliveried : MessageWrapper → DeliveryHandler

pub record Channel : Type 0 where
  pub wait_ack_interval : ℕ

pub data ChannelStatus : Type 0 where
  undefined connected failed_connect authorization_failed bad_channel : ChannelStatus

pub data Severity : Type 0 where
  error info warning success : Severity

-- What the notifier tells the user, without the wording.
pub data Notice : Type 0 where
  unknown_contact no_response failed_verification no_dialog_with : Text → Notice
  failed_contact : Text → Notice
  failed_to_send select_one_dialog : Notice
  dialog_changed : Status → Contact → Notice
  not_presented command_failed : Notice

pub data MessageHandler : Type 0 where
  dialog_action_handler message_action_handler : MessageHandler

-- The clocks and what the random source draws next are read, never set; a pointer that is held weakly is
-- alive or not.
pub record World (env : Environment) : Type 0 where
  pub dialogs : env.Dialogs
  pub contacts : env.Contacts
  pub crypto : env.Crypto
  pub network : env.Network
  pub discovered : env.Discovered
  pub container : MessageContainer
  pub container_alive : Bool
  pub repo : Repository DeliveryHandler (Text × ℕ)
  pub channels : List (Text × Channel)
  pub handlers : List MessageHandler
  pub despatcher_alive : Bool
  pub notices : List (Severity × Notice)
  pub event_queue : List (ChannelStatus × Text)
  pub init_sequental : ℕ
  pub clock : ℤ
  pub junk : Junk
  pub timestamp : ℤ
  pub ticks : ℕ

module _ ⦃env : Environment⦄ where
  -- A question to one part of the world, and a change of it.
  abbrev pub asks {ℓ} :
      {A : Type 0} {X : Type ℓ} → (X → Result A) → (World env → X) → Prog (World env) A
  asks f part w = (f (part w), w)

  abbrev pub on_dialogs : {A : Type 0} → (env.Dialogs → Result A × env.Dialogs) → Prog (World env) A
  on_dialogs f w = let (r, s) = f w.dialogs in (r, record w { dialogs = s })

  abbrev pub on_crypto : {A : Type 0} → (env.Crypto → Result A × env.Crypto) → Prog (World env) A
  on_crypto f w = let (r, s) = f w.crypto in (r, record w { crypto = s })

  abbrev pub on_container : (MessageContainer → MessageContainer) → Prog (World env) (Unit {0})
  on_container f w = (ok tt, record w { container = f w.container })

  abbrev pub notify : Severity → Notice → Prog (World env) (Unit {0})
  notify s n w = (ok tt, record w { notices = w.notices ++ (s, n) ∷ [] })

  -- `wrapper.save()`: if it returns, the storage has told the permanent listener of the core that
  -- writes the notes of the system, `SystemMessageGenerator`, of the change.
  unfoldable pub save_wrapper : Dialog → Prog (World env) (Unit {0})
  save_wrapper d = on_dialogs (env.save_dialog d) >> (λ w.
      (ok tt, record w { container = generate_system_message w.container_alive d w.container }))

  -- `remove(wrapper)`, and the listener that removes the keys, `CryptoSystemDialogRemoveInformator`.
  unfoldable pub remove_wrapper : Dialog → Prog (World env) (Unit {0})
  remove_wrapper d =
      on_dialogs (env.remove_dialog d)
      >> (λ w. (ok tt, record w { crypto = env.dialog_removed d.dialog_id w.crypto }))

  -- `wrapper->setStatus(status)`.
  abbrev pub status_set : Option Dialog → Prog (World env) Dialog
  status_set none w = (throw runtime_error, w)
  status_set (some d) w = (ok d, w)
