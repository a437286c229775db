-- ===== src/Tests/Environments.antt =====
-- A small world for the runs: the dialog storage is an association list, the crypto system signs with
-- one text and encrypts by a prefix, and the network keeps what was sent; it throws once it is cut.
use secure_dialogues.DialogMessage.{ack}
use secure_dialogues.Common.{
  ℕ, Bool, true, false, Option, none, some, List, [], ◌∷◌, Text, codes, text_eq, is_some, drop,
  if◌then◌else◌, not,
}
use secure_dialogues.Common.Int.{pos}
use secure_dialogues.Common.Maps.{find, insert, erase, text_key, pair_key}
use secure_dialogues.Common.Result.{
  Result, Exception, ok, throw, runtime_error, disconnected, range_error,
}
use secure_dialogues.Dialog.{Dialog}
use secure_dialogues.MessageContainer.{MessageContainer}
use secure_dialogues.Repository.{Repository}
use secure_dialogues.Core.{
  Environment, World, Contact, DeliveryHandler, DiscoveredContact, dialog_action_handler,
  message_action_handler,
}

abbrev pub found_or : Exception → Option Dialog → Result Dialog
found_or e none = throw e
found_or e (some d) = ok d

abbrev pub bob : Contact
bob = record {
  contact_id = codes "c";
  name = codes "Bob";
  channel_moniker = codes "mail";
  adress = codes "bob";
  public_key = codes "k";
}

-- The network is cut or not, and holds what was sent.
abbrev pub sends : Text → Text → Text → Bool × List Text → Result (Unit {0}) × (Bool × List Text)
sends name text address (false, sent) = (ok tt, (false, text ∷ sent))
sends name text address (true, sent) = (throw disconnected, (true, sent))

-- A cut network refuses to connect, and throws when it is asked for messages.
abbrev pub connects : Text → Bool × List Text → Result Bool × (Bool × List Text)
connects name (cut, sent) = (ok (not cut), (cut, sent))

abbrev pub from_bob : List Text → List (Text × Text)
from_bob [] = []
from_bob (text ∷ texts) = (codes "bob", text) ∷ from_bob texts

abbrev pub receives : Text → Bool × List Text → Result (List (Text × Text)) × (Bool × List Text)
receives name (false, sent) = (ok (from_bob sent), (false, []))
receives name (true, sent) = (throw disconnected, (true, sent))

instance abbrev pub small : Environment
small = record {
  Dialogs = List (Text × Dialog);
  Contacts = List Contact;
  Crypto = Unit {0};
  Network = Bool × List Text;
  Discovered = List DiscoveredContact;
  has_dialog = λ id ds. is_some (find id ds);
  get_dialog = λ id ds. found_or runtime_error (find id ds);
  add_dialog = λ d ds. (ok tt, insert d.dialog_id d ds);
  save_dialog = λ d ds. (ok tt, insert d.dialog_id d ds);
  reload_dialog = λ d ds. found_or runtime_error (find d.dialog_id ds);
  remove_dialog = λ d ds. (ok tt, erase d.dialog_id ds);
  get_contact = λ id cs. ok bob;
  get_contact_if = λ p cs. cs;
  is_signature_ok = λ m c.
      if text_eq m.adress (codes "bob") then ok (text_eq m.sign (codes "s")) else throw range_error;
  create_signature = λ m c. ok (codes "s");
  encrypt_message_body = λ id text c. ok (0 ∷ text);
  decrypt_message_body = λ id text c. ok (drop 1 text);
  generate_and_export_key = λ id address c. (ok (codes "key"), c);
  import_key = λ id key c. (ok (codes "proof"), c);
  check_verification_string = λ id text c. (ok (text_eq text (codes "proof")), c);
  dialog_removed = λ id c. c;
  adapter_send = sends;
  adapter_connect = connects;
  adapter_receive = receives;
  add_discovered = λ d ds. (ok tt, d ∷ ds);
  what = λ e. codes "what";
}

abbrev pub world :
    List (Text × Dialog)
    → MessageContainer
    → Repository DeliveryHandler (Text × ℕ)
    → Bool
    → World small
world dialogs container repo cut = record {
  dialogs = dialogs;
  contacts = bob ∷ [];
  crypto = tt;
  network = (cut, []);
  discovered = [];
  container = container;
  container_alive = true;
  repo = repo;
  channels = (codes "mail", record { wait_ack_interval = 60 }) ∷ [];
  handlers = message_action_handler ∷ dialog_action_handler ∷ [];
  despatcher_alive = true;
  notices = [];
  event_queue = [];
  init_sequental = 5;
  clock = pos 77;
  junk = record { action = ack; timestamp = pos 0 };
  timestamp = pos 1000;
  ticks = 50;
}
