-- ===== src/Tests/Services.antt =====
-- Runs of the plugins over a small service: its JSON values are numbers, whose members stand in a table.
use secure_dialogues.Common.{
  ◌≢◌, ℕ, ◌≡◌, refl, Bool, true, false, Option, none, some, List, [], ◌∷◌, Text, codes, text_eq,
  is_some, if◌then◌else◌, ◌==◌,
}
use secure_dialogues.Common.Int.{pos}
use secure_dialogues.Common.Maps.{find, pair_key}
use secure_dialogues.Common.Result.{Result}
use secure_dialogues.Decimal.{show_nat}
use secure_dialogues.Adapters.{
  no_error, send_failed, done, dangling_read, assertion_failed, adapter_send, adapter_receive,
  adapter_connect, Communicator,
}
use secure_dialogues.PluginData.{TokenConnectionInfo}
use secure_dialogues.Plugins.{
  Web, append_path, append_query, Attempt, success, failure, std_exception,
}
use secure_dialogues.Plugins.Messages.{Agent, communicator_of, authorized}
use secure_dialogues.Plugins.Messages.Delivered.{adapter_receive-communicator}
use secure_dialogues.Plugins.Vk.{vk_agent, VkAgents}
use secure_dialogues.Plugins.Vk.Connected.{vk_connected}
use secure_dialogues.Contacts.{make_connection_holder}
use secure_dialogues.Decimal.{stol, is_digit, scan}
use secure_dialogues.Base64.{base64_decode, is_base64, decode_push, byte_0, byte_1, find_char}
use secure_dialogues.PluginData.{SmtpConnectionInfo}
use secure_dialogues.Plugins.Smtp.{
  Vmime, Mail, ImapReciever, subject_of_mails, smtp_connect, recieved_messages, ended,
}
use secure_dialogues.Plugins.Smtp.Arrivals.{recieved_messages-smtp_connect}
use secure_dialogues.Plugins.Gmail.{GmailApi, get_messages, get_mail}
use secure_dialogues.Plugins.Gmail.Oauth.{make_gmail_oauth, gmail_connect, gmail_send}
use secure_dialogues.Plugins.Gmail.Tokens.{gmail_send-connect}
use secure_dialogues.Plugins.Gmail.Polling.{get_messages_new, polls, polls_lost, IsLost}

-- The listing is 0, its messages are 1, and a mail is 30.
abbrev members : List ((Text × ℕ) × ℕ)
members =
    ((codes "messages", 0), 1)
    ∷ ((codes "0", 1), 10)
    ∷ ((codes "1", 1), 11)
    ∷ ((codes "id", 10), 20)
    ∷ ((codes "id", 11), 21)
    ∷ ((codes "payload", 30), 31)
    ∷ ((codes "headers", 31), 32)
    ∷ ((codes "name", 33), 34)
    ∷ ((codes "value", 33), 35)
    ∷ ((codes "internalDate", 30), 36)
    ∷ ((codes "body", 31), 37)
    ∷ ((codes "size", 37), 38)
    ∷ ((codes "mimeType", 31), 39)
    ∷ ((codes "data", 37), 40)
    ∷ []

abbrev found : Option ℕ → Attempt ℕ
found none = failure std_exception
found (some j) = success j

abbrev text_of : ℕ → Text
text_of j =
    if j == 20
    then codes "m2"
    else if j == 21
    then codes "m1"
    else if j == 34
    then codes "From"
    else if j == 35
    then codes "Bob <b@x>"
    else if j == 36
    then codes "1000"
    else if j == 39
    then codes "text/plain"
    else if j == 40
    then codes "aGk="
    else []

abbrev listing : Text
listing =
    codes
      "https://www.googleapis.com/gmail/v1/users/me/messages?labelIds[0]=INBOX&q=today subject:(sequre-dialogues)"

abbrev mailbox : Web
mailbox = record {
  Network = Unit {0};
  Json = ℕ;
  get = λ uri headers n. (success (200, uri), n);
  post = λ uri body headers n. (success (400, []), n);
  escape = λ s. success s;
  clock = λ n. pos 5000;
  get_time_filter = λ n. codes "today";
  get_random_id = λ n. codes "4";
  parse = λ s. success (if text_eq s listing then 0 else 30);
  contains = λ key j. is_some (find (key, j) members);
  at = λ key j. found (find (key, j) members);
  at_index = λ i j. found (find (show_nat i, j) members);
  size = λ j. 2;
  elements = λ j. 33 ∷ [];
  to_string = λ j. success (text_of j);
  to_int = λ j. success (pos j);
  equals_text = λ j s. text_eq (text_of j) s;
  equals_int = λ j n. j == n;
}

abbrev remembers : Text → GmailApi
remembers last = record { last_message = last; user_mail = codes "me" }

abbrev token : Text × Text
token = (codes "Authorization", codes "t")

abbrev stored : TokenConnectionInfo
stored = record { id = codes "me"; access_token = codes "token" }

abbrev hi : Text × Text
hi = (codes "b@x", codes "hi")

new_read : get_mail ⦃web = mailbox⦄ (codes "m2") token (codes "me") tt ≡ (success hi, tt)
unfolding find text_eq append_path append_query show_nat get_mail stol is_digit scan base64_decode
    is_base64 decode_push byte_0 byte_1 find_char
new_read = refl

old_read : get_mail ⦃web = mailbox⦄ (codes "m1") token (codes "me") tt ≡ (success hi, tt)
unfolding find text_eq append_path append_query show_nat get_mail stol is_digit scan base64_decode
    is_base64 decode_push byte_0 byte_1 find_char
old_read = refl

get_messages_new_example :
    get_messages ⦃web = mailbox⦄ 1 token (remembers (codes "m1"), tt)
    ≡ (success (some (hi ∷ [])), (remembers (codes "m2"), tt))
unfolding find text_eq append_path append_query show_nat
get_messages_new_example =
    get_messages_new ⦃web = mailbox⦄ (remembers (codes "m1")) token 0 0 0 1 21 20 (codes "m2") hi []
      tt tt tt refl (refl, refl, refl) (20, codes "m2", tt, refl, refl, refl, new_read, refl) refl
      refl refl refl refl refl

-- The message m9 is not listed.
mailbox-IsLost : IsLost ⦃web = mailbox⦄ (remembers (codes "m9")) token tt
unfolding find text_eq append_path append_query show_nat
mailbox-IsLost = (
  0,
  1,
  hi ∷ hi ∷ [],
  tt,
  tt,
  (refl, refl, refl),
  (
    20,
    codes "m2",
    tt,
    refl,
    refl,
    refl,
    new_read,
    (21, codes "m1", tt, refl, refl, refl, old_read, refl),
  ),
  refl,
  refl,
)

polls_lost_example :
    ((polls ⦃web = mailbox⦄ (remembers (codes "m9")) token 1 3 (remembers (codes "m9"), tt)).0
      ≡ failure std_exception ∷ failure std_exception ∷ failure std_exception ∷ [])
    × ((polls ⦃web = mailbox⦄ (remembers (codes "m9")) token 1 3 (remembers (codes "m9"), tt)).1.0
        ≡ remembers (codes "m9"))
polls_lost_example =
    polls_lost ⦃web = mailbox⦄ (remembers (codes "m9")) token 0 3 tt (λ n. Unit {0}) refl
      (λ n stays. (mailbox-IsLost, tt)) tt

gmail_send-connect_example :
    gmail_send ⦃web = mailbox⦄
      (codes "b@x")
      (codes "hi")
      (gmail_connect ⦃web = mailbox⦄
        (codes "c")
        (codes "s")
        (some stored)
        (make_gmail_oauth [] [] [], remembers (codes "m1"), tt)).1
    ≡ (
      send_failed,
      (
        make_gmail_oauth (codes "c") (codes "s") (codes "urn:ietf:wg:oauth:2.0:oob"),
        record { last_message = []; user_mail = codes "me" },
        tt,
      ),
    )
unfolding append_query
gmail_send-connect_example =
    gmail_send-connect ⦃web = mailbox⦄ (codes "c") (codes "s") (codes "b@x") (codes "hi") stored
      (make_gmail_oauth [] [] []) (remembers (codes "m1"))
      (record {
        path = [];
        query = codes "refresh_token=&client_id=c&client_secret=s&grant_type=refresh_token";
      })
      400 [] tt tt refl refl refl refl

-- An agent whose service has one message, and whose token is over.
abbrev idle_agent : Agent
idle_agent = record {
  State = Bool;
  Info = Unit {0};
  has_agents = λ s. true;
  is_expired = λ s. s;
  refresh_access_token = λ s. (success tt, false);
  get_auth_param = λ s. token;
  send_encoded = λ to body auth s. (success tt, s);
  get_messages = λ auth s. (success ((codes "b@x", codes "aGk=") ∷ []), s);
  make_agents = λ info s. (success tt, s);
}

adapter_receive-communicator_example :
    adapter_receive (communicator_of idle_agent) 2 true ≡ (dangling_read, false)
unfolding authorized
adapter_receive-communicator_example = adapter_receive-communicator idle_agent true 1

-- A communicator without agents.
abbrev unconnected : VkAgents ⦃web = mailbox⦄
unconnected = (
  false,
  record { client_id = []; redirect_uri = []; access_token = [] },
  record { user_id = []; key = []; server = []; last_number = pos 0; network = tt },
)

abbrev vk_plugin : Communicator
vk_plugin = communicator_of (vk_agent ⦃web = mailbox⦄ (codes "c"))

abbrev vk_connection : Bool × VkAgents ⦃web = mailbox⦄
vk_connection =
    adapter_connect vk_plugin (make_connection_holder (codes "vk") (some stored)) unconnected

vk_connected_example :
    (vk_connection.0 ≡ true)
    × ((x : Result (Unit {0})) × ((adapter_send vk_plugin
            (codes "hi")
            (codes "7")
            vk_connection.1).0
          ≡ done x))
    × ((adapter_receive vk_plugin 2 vk_connection.1).0 ≢ assertion_failed)
vk_connected_example =
    vk_connected ⦃web = mailbox⦄ (codes "c") (make_connection_holder (codes "vk") (some stored))
      stored unconnected (codes "hi") (codes "7") 1 refl

-- A folder is the number of its mails; the first mail has the uid 5.
abbrev letter : Mail
letter = record { from = codes "b@x"; subject = subject_of_mails; body = codes "aGk=" }

abbrev folder : Vmime
folder = record {
  Session = ℕ;
  connect_transport = λ info s. (success tt, s);
  open_folder = λ info s. (success tt, s);
  transport_send = λ from subject to body s. (success tt, s);
  get_message_count = λ s. (success s, s);
  get_message_uid = λ i s. (success (codes "5"), s);
  make_uid = show_nat;
  get_messages_by_uid = λ low high s. (success (letter ∷ []), s);
  get_uid_validity = λ s. 8;
  has_other = λ e s. false;
}

abbrev account : SmtpConnectionInfo
account = record {
  user_name = codes "bob";
  password = codes "pw";
  tls_used = true;
  from = codes "b@c";
  smtp_addr = codes "s";
  smtp_port = pos 25;
  imap_addr = codes "i";
  imap_port = pos 993;
}

recieved_messages-smtp_connect_example :
    (reciever after : ImapReciever) × (end : ℕ) × (smtp_connect ⦃mail = folder⦄ 0 (some account) 0
      ≡ (ended no_error (some reciever), 0))
    × (recieved_messages ⦃mail = folder⦄ (reciever, 1) ≡ (success [], (after, end)))
    × (after.last_message ≡ codes "5")
recieved_messages-smtp_connect_example =
    recieved_messages-smtp_connect ⦃mail = folder⦄ 0 account (codes "5") letter 0 0 0 0 1 1 1 1 refl
      refl refl refl refl refl refl
