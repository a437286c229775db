-- ===== src/Plugins/Smtp/Arrivals.antt =====
-- The first mail of an empty folder.
use secure_dialogues.Common.{
  ℕ, ◌==◌, ◌≡◌, arith, sym, refl, true, inl, inr, some, [], ◌∷◌, Text, text_eq, text_eq_iff,
  Bool-cases,
}
use secure_dialogues.Adapters.{no_error}
use secure_dialogues.PluginData.{SmtpConnectionInfo}
use secure_dialogues.Plugins.{success}
use secure_dialogues.Plugins.Smtp.{
  Vmime, Mail, ImapReciever, subject_of_mails, smtp_connect, ended, recieved_messages,
  get_last_message_uid,
}

module _ ⦃mail : Vmime⦄ where
  -- The plugin connects while the folder is empty; later the folder has one mail, which is all that the
  -- server lists between the uid 1 and the mail's uid, and the mark of the folder is as it was. Then the
  -- mail is not received, whatever its subject, and its uid is remembered as the last one.
  pub recieved_messages-smtp_connect :
      (fuel : ℕ) (info : SmtpConnectionInfo) (uid : Text) (first : Mail)
      (s linked opened connected later counted named listed : mail.Session)
      → mail.connect_transport info s ≡ (success tt, linked)
      → mail.open_folder info linked ≡ (success tt, opened)
      → mail.get_message_count opened ≡ (success 0, connected)
      → mail.get_message_count later ≡ (success 1, counted)
      → mail.get_message_uid 1 counted ≡ (success uid, named)
      → mail.get_messages_by_uid (mail.make_uid 1) uid named ≡ (success (first ∷ []), listed)
      → mail.get_uid_validity listed ≡ mail.get_uid_validity opened
      → (reciever after : ImapReciever) × (end : mail.Session) × (smtp_connect fuel (some info) s
          ≡ (ended no_error (some reciever), connected))
        × (recieved_messages (reciever, later) ≡ (success [], (after, end)))
        × (after.last_message ≡ uid)
  unfolding smtp_connect recieved_messages get_last_message_uid
  recieved_messages-smtp_connect fuel info uid first s linked opened connected later counted named
        listed links opens empty counts names lists same =
      let made : ImapReciever = record {
        subject = subject_of_mails;
        last_message = mail.make_uid 1;
        uid_validity = mail.get_uid_validity opened;
      } in
      let connects : smtp_connect fuel (some info) s ≡ (ended no_error (some made), connected) =
        rw (links, smtp_connect) (rw opens (rw empty refl)) in
      let unchanged : (mail.get_uid_validity opened == mail.get_uid_validity listed) ≡ true =
        ground (arith, same) in
      elim (Bool-cases (text_eq uid (mail.make_uid 1))) [
        | inl first_uid ↦ (
          made,
          made,
          named,
          connects,
          rw (counts, recieved_messages) (rw names (rw first_uid refl)),
          sym ((text_eq_iff uid (mail.make_uid 1)).0 first_uid),
        )
        | inr other ↦ (
          made,
          record made { last_message = uid },
          listed,
          connects,
          rw (counts, recieved_messages) (rw names (rw other (rw lists (rw unchanged refl)))),
          refl,
        )
      ]
