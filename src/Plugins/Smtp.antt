-- ===== src/Plugins/Smtp.antt =====
-- plugins/smtp-plugin: email-agent/imapreciever.cpp, email-agent/smtpsender.cpp and
-- smtpmessagecommunication.cpp. The sessions of vmime are a parameter; the uids of mails are texts.
use secure_dialogues.Common.{
  ℕ, zero, suc, ◌==◌, Bool, true, false, not, Option, none, some, List, [], ◌∷◌, Text, codes,
  text_eq, if◌then◌else◌,
}
use secure_dialogues.Base64.{base64_encode}
use secure_dialogues.Adapters.{PluginApiErrorCodes, no_error, disconected_code, not_authorized_code}
use secure_dialogues.PluginData.{SmtpConnectionInfo}
use secure_dialogues.Plugins.{
  VmimeException, connection_error, authentication_error, connection_greeting_error,
  socket_not_connected_exception, not_connected, other_vmime_exception, Failure, vmime, Attempt,
  success, failure, Call, resume_with, ◌>>=◌, ◌>>◌, return,
}
use secure_dialogues.Plugins.Messages.{MessagesIterator, iterator_of}
pub mod Arrivals

pub record Mail : Type 0 where
  pub from : Text
  pub subject : Text
  pub body : Text

-- What the plugin calls of vmime: messages are numbered from 1 in their folder.
pub record Vmime : Type 1 where
  pub Session : Type 0
  pub connect_transport : SmtpConnectionInfo → Call Session (Unit {0})
  pub open_folder : SmtpConnectionInfo → Call Session (Unit {0})
  pub transport_send : Text → Text → Text → Text → Call Session (Unit {0})
  pub get_message_count : Call Session ℕ
  pub get_message_uid : ℕ → Call Session Text
  pub make_uid : ℕ → Text
  pub get_messages_by_uid : Text → Text → Call Session (List Mail)
  pub get_uid_validity : Session → ℕ
  -- `ex.other()` is not null.
  pub has_other : VmimeException → Session → Bool

pub record ImapReciever : Type 0 where
  pub subject : Text
  pub last_message : Text
  pub uid_validity : ℕ

abbrev pub subject_of_mails : Text
subject_of_mails = codes "sequre-dialogues"

-- The mails that have the subject.
abbrev pub with_subject : Text → List Mail → List (Text × Text)
with_subject subject [] = []
with_subject subject (m ∷ mails) =
    if text_eq m.subject subject
    then (m.from, m.body) ∷ with_subject subject mails
    else with_subject subject mails

-- From `std::next(begin)` on; the first mail is that of the last call.
abbrev pub after_first {ℓ} : {A : Type ℓ} → List A → List A
after_first [] = []
after_first (x ∷ xs) = xs

module _ ⦃mail : Vmime⦄ where
  unfoldable pub get_last_message_uid : Call mail.Session Text
  get_last_message_uid =
      mail.get_message_count
      >>= (λ count. if count == 0 then return (mail.make_uid 1) else mail.get_message_uid count)

  -- The second half of `ImapReciever::connect`.
  unfoldable pub connect_reciever : SmtpConnectionInfo → Call mail.Session ImapReciever
  unfolding get_last_message_uid
  connect_reciever info = mail.open_folder info >> (λ s.
      let validity = mail.get_uid_validity s in
      (get_last_message_uid >>= (λ uid.
          return
            (record { subject = subject_of_mails; last_message = uid; uid_validity = validity })))
        s)

  abbrev pub on_session : {A : Type 0} → Call mail.Session A → Call (ImapReciever × mail.Session) A
  on_session f (r, s) = let (a, t) = f s in (a, (r, t))

  abbrev pub set_last_message : Text → Call (ImapReciever × mail.Session) (Unit {0})
  set_last_message uid (r, s) = return tt (record r { last_message = uid }, s)

  -- The mark of the folder has changed: the last uid is read again.
  abbrev pub renew_validity : Call (ImapReciever × mail.Session) (Unit {0})
  renew_validity (r, s) =
      let validity = mail.get_uid_validity s in
      if r.uid_validity == validity
      then return tt (r, s)
      else (on_session get_last_message_uid >>= set_last_message)
          (record r { uid_validity = validity }, s)

  -- `ImapReciever::recievedMessages`.
  unfoldable pub recieved_messages : Call (ImapReciever × mail.Session) (List (Text × Text))
  unfolding get_last_message_uid
  recieved_messages (r, s) =
      (on_session get_last_message_uid >>= (λ next.
          if text_eq next r.last_message
          then return []
          else on_session (mail.get_messages_by_uid r.last_message next) >>= (λ all.
            renew_validity
            >> set_last_message next
            >> return (with_subject r.subject (after_first all)))))
        (r, s)

  -- What a `catch` for the failures of the network gives; `none` is an exception that leaves the
  -- function, which is `noexcept`, and so ends the program.
  abbrev pub is_disconnected : Failure → Bool
  is_disconnected (vmime connection_error) = true
  is_disconnected (vmime socket_not_connected_exception) = true
  is_disconnected (vmime not_connected) = true
  is_disconnected _ = false

  abbrev pub smtp_code : Attempt (Unit {0}) → Option PluginApiErrorCodes
  smtp_code (success u) = some no_error
  smtp_code (failure e) = if is_disconnected e then some disconected_code else none

  -- `SmtpMessageCommunication::send`, with the address of the sender.
  unfoldable pub smtp_send :
      Text → Text → Text → mail.Session → Option PluginApiErrorCodes × mail.Session
  smtp_send from to text s =
      let (r, t) = mail.transport_send from subject_of_mails to (base64_encode text) s in
      (smtp_code r, t)

  abbrev pub smtp_iterator : Attempt (List (Text × Text)) → Option MessagesIterator
  smtp_iterator (success messages) = some (iterator_of (success messages))
  smtp_iterator (failure e) =
      if is_disconnected e then some (record { messages = []; code = disconected_code }) else none

  -- `SmtpMessageCommunication::recieve`.
  unfoldable pub smtp_recieve :
      ImapReciever × mail.Session → Option MessagesIterator × (ImapReciever × mail.Session)
  unfolding recieved_messages
  smtp_recieve s = let (r, t) = recieved_messages s in (smtp_iterator r, t)

  -- The loop `while (auto o = ex.other())`, which asks the same exception each time, with the number of
  -- its turns; `false` asks for more.
  abbrev pub log_parents : ℕ → VmimeException → mail.Session → Bool
  log_parents zero ex s = false
  log_parents (suc n) ex s = if mail.has_other ex s then log_parents n ex s else true

  abbrev pub connect_failure : VmimeException → Option PluginApiErrorCodes
  connect_failure connection_error = some disconected_code
  connect_failure authentication_error = some not_authorized_code
  connect_failure connection_greeting_error = some disconected_code
  connect_failure socket_not_connected_exception = some disconected_code
  connect_failure _ = none

  -- How `connect` ends.
  pub data Connecting : Type 0 where
    ended : PluginApiErrorCodes → Option ImapReciever → Connecting
    terminated still_logging : Connecting

  abbrev pub after_failure :
      ℕ → VmimeException → Option PluginApiErrorCodes → mail.Session → Connecting
  after_failure fuel ex none s = terminated
  after_failure fuel ex (some code) s =
      if log_parents fuel ex s then ended code none else still_logging

  abbrev pub connecting : ℕ → Attempt ImapReciever × mail.Session → Connecting × mail.Session
  connecting fuel (success r, s) = (ended no_error (some r), s)
  connecting fuel (failure (vmime ex), s) = (after_failure fuel ex (connect_failure ex) s, s)
  connecting fuel (failure _, s) = (terminated, s)

  -- `SmtpMessageCommunication::connect`; `none`: not the data of a connection of this plugin.
  unfoldable pub smtp_connect :
      ℕ → Option SmtpConnectionInfo → mail.Session → Connecting × mail.Session
  unfolding connect_reciever
  smtp_connect fuel none s = (ended no_error none, s)
  smtp_connect fuel (some info) s =
      connecting fuel ((mail.connect_transport info >> connect_reciever info) s)
