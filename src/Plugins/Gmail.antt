-- ===== src/Plugins/Gmail.antt =====
-- plugins/gmail-plugin/gmail-communication/gmailapi.cpp: the reading of a mailbox page by page, and the
-- sending of a mail.
use secure_dialogues.Common.{
  ℕ, zero, suc, ◌+◌, ◌*◌, ◌==◌, Bool, true, false, not, ◌&&◌, ◌||◌, Option, none, some, List, [],
  ◌∷◌, ◌++◌, Text, codes, ltb, length, text_eq, if◌then◌else◌,
}
use secure_dialogues.Common.Int.{ℤ, pos, ◌-ℤ◌, ltb_ℤ}
use secure_dialogues.Decimal.{stol, show_nat}
use secure_dialogues.Base64.{base64_decode}
use secure_dialogues.MessageContainer.{is_empty}
use secure_dialogues.Plugins.{
  Web, Failure, Attempt, success, failure, std_exception, Call, ◌>>=◌, ◌>>◌, return, lift, chain,
  http_ok, get_uri, make_uri, http_get, http_post, at_path, string_at,
}
pub mod Polling
pub mod Oauth
pub mod Tokens

pub record GmailApi : Type 0 where
  pub last_message : Text
  pub user_mail : Text

abbrev pub init_load_messages : ℕ
init_load_messages = 20

abbrev pub max_seconds_old : ℕ
max_seconds_old = 120

-- `isMessageOld`, at a reading of the clock in milliseconds.
abbrev pub is_message_old : ℤ → ℤ → Bool
is_message_old now time = ltb_ℤ time (now -ℤ pos (max_seconds_old * 1000))

-- What stands in front of the next `>`.
unfoldable pub before_bracket : Text → Option Text
before_bracket [] = none
before_bracket (c ∷ s) =
    let rest = before_bracket s in
    if c == b'>' then some [] else elim rest [ none ↦ none | some t ↦ some (c ∷ t) ]

abbrev pub nonempty_or : Option Text → Option Text → Option Text
nonempty_or (some (c ∷ s)) other = some (c ∷ s)
nonempty_or _ other = other

-- The first match of the regular expression `<([^>]+)>`.
unfoldable pub find_address : Text → Option Text
unfolding before_bracket
find_address [] = none
find_address (c ∷ s) =
    let rest = find_address s in if c == b'<' then nonempty_or (before_bracket s) rest else rest

abbrev pub address_or_all : Option Text → Text → Text
address_or_all none value = value
address_or_all (some address) value = address

module _ ⦃web : Web⦄ where
  -- `HttpCode::OK`, or a `std::runtime_error`.
  abbrev pub checked : ℕ × Text → Attempt Text
  checked (code, response) = if code == http_ok then success response else failure std_exception

  abbrev pub is_from_header : web.Json → Attempt Bool
  is_from_header header =
      if web.contains (codes "name") header
      then chain (web.at (codes "name") header)
          (λ name. success (web.equals_text name (codes "From")))
      else success false

  -- `std::find_if` of the header.
  unfoldable pub find_from_header : List web.Json → Attempt (Option web.Json)
  find_from_header [] = success none
  find_from_header (header ∷ headers) =
      let rest = find_from_header headers in
      chain (is_from_header header) (λ found. if found then success (some header) else rest)

  abbrev pub internal_date : web.Json → Attempt ℤ
  internal_date body =
      chain (string_at (codes "internalDate") body)
        (λ s. elim (stol s) [ none ↦ failure std_exception | some t ↦ success t ])

  -- The text of the mail, empty if it has none, is no plain text, or comes from the user.
  abbrev pub mail_text : web.Json → Text → Text → Attempt Text
  mail_text payload mail from = chain (at_path (codes "body" ∷ codes "size" ∷ []) payload) (λ size.
      if web.equals_int size 0
      then success []
      else chain (web.at (codes "mimeType") payload) (λ mime.
        if not (web.equals_text mime (codes "text/plain")) || text_eq mail from
        then success []
        else chain (at_path (codes "body" ∷ codes "data" ∷ []) payload)
            (λ content. chain (web.to_string content) (λ s. success (base64_decode s)))))

  abbrev pub mail_from : web.Json → Text → web.Json → Attempt (Text × Text)
  mail_from payload mail header = chain (string_at (codes "value") header) (λ value.
      let from = address_or_all (find_address value) value in
      chain (mail_text payload mail from) (λ text. success (from, text)))

  -- The date is read first, and the header is looked at only if the mail is not old.
  abbrev pub mail_of : ℤ → Text → web.Json → Attempt (Text × Text)
  mail_of now mail body = chain (web.at (codes "payload") body) (λ payload.
      chain (web.at (codes "headers") payload) (λ headers.
        chain (find_from_header (web.elements headers)) (λ found.
          chain (internal_date body) (λ time.
            if is_message_old now time then success ([], []) else mail_if payload mail found))))
    where
      mail_if : web.Json → Text → Option web.Json → Attempt (Text × Text)
      mail_if payload mail none = success ([], [])
      mail_if payload mail (some header) = mail_from payload mail header

  abbrev pub users : Text
  users = codes "https://www.googleapis.com/gmail/v1/users"

  unfoldable pub get_mail : Text → Text × Text → Text → Call web.Network (Text × Text)
  unfolding find_from_header find_address
  get_mail id auth mail =
      lift (make_uri users (mail ∷ codes "messages" ∷ id ∷ []) [])
      >>= (λ uri. http_get (get_uri uri) (auth ∷ []))
      >>= (λ answer. lift (chain (checked answer) web.parse))
      >>= (λ body n. lift (mail_of (web.clock n) mail body) n)

  -- One turn of the loop over the listed messages; `true` stands for `breaked`.
  unfoldable pub load_listed :
      ℕ
      → ℕ
      → GmailApi
      → Text × Text
      → web.Json
      → List (Text × Text)
      → Call web.Network (Bool × List (Text × Text))
  unfolding get_mail
  load_listed zero i api auth messages loaded = return (false, loaded)
  load_listed (suc k) i api auth messages loaded =
      lift (chain (web.at_index i messages) (web.at (codes "id"))) >>= (λ id.
        if web.equals_text id api.last_message
        then return (true, loaded)
        else lift (web.to_string id) >>= (λ s.
          get_mail s auth api.user_mail
          >>= (λ mail. load_listed k (i + 1) api auth messages (mail ∷ loaded))))

  abbrev pub first_id : web.Json → Attempt (Option web.Json)
  first_id messages =
      if web.size messages == 0
      then success none
      else chain (chain (web.at_index 0 messages) (web.at (codes "id"))) (λ id. success (some id))

  abbrev pub id_text : Option web.Json → Attempt Text
  id_text none = success []
  id_text (some id) = web.to_string id

  abbrev pub page_query : Text → Text → List (Text × Text)
  page_query page filter =
      (codes "labelIds[0]", codes "INBOX")
        ∷ (if is_empty page then [] else (codes "pageToken", page) ∷ [])
      ++ (codes "q", filter ++ b' ' ∷ codes "subject:(sequre-dialogues)") ∷ []

  abbrev pub list_page : GmailApi → Text × Text → Text → Call web.Network web.Json
  list_page api auth page n =
      (lift (
            make_uri users (api.user_mail ∷ codes "messages" ∷ [])
              (page_query page (web.get_time_filter n)))
          >>= (λ uri. http_get (get_uri uri) (auth ∷ []))
          >>= (λ answer. lift (chain (checked answer) web.parse)))
        n

  abbrev pub load_count : GmailApi → ℕ → ℕ
  load_count api size =
      if is_empty api.last_message
      then (if ltb init_load_messages size then init_load_messages else size)
      else size

  -- The pages are read until the last message of the call before is found. The fuel bounds their
  -- number; `none` asks for more.
  unfoldable pub load_messages :
      ℕ
      → GmailApi
      → Text × Text
      → Text
      → List (Text × Text)
      → Call web.Network (Option (Text × List (Text × Text)))
  unfolding load_listed
  load_messages zero api auth page loaded = return none
  load_messages (suc fuel) api auth page loaded = list_page api auth page >>= (λ body.
      if not (web.contains (codes "messages") body)
      then return (some ([], loaded))
      else lift (web.at (codes "messages") body) >>= (λ messages.
        load_listed (load_count api (web.size messages)) 0 api auth messages loaded
        >>= (λ (breaked, more). lift (first_id messages) >>= (λ first.
            if not breaked && not (is_empty api.last_message)
            then lift (string_at (codes "nextPageToken") body)
              >>= (λ token. load_messages fuel api auth token more >>= ended first)
            else lift (id_text first) >>= (λ id. return (some (id, more)))))))
    where
      ended :
          Option web.Json
          → Option (Text × List (Text × Text))
          → Call web.Network (Option (Text × List (Text × Text)))
      ended first none = return none
      ended first (some (other, all)) = lift (id_text first) >>= (λ id. return (some (id, all)))

  abbrev pub loaded_with :
      GmailApi
      → Attempt (Option (Text × List (Text × Text))) × web.Network
      → Attempt (Option (List (Text × Text))) × (GmailApi × web.Network)
  loaded_with api (success none, n) = (success none, (api, n))
  loaded_with api (success (some (last, loaded)), n) = (
    success (some loaded),
    (if is_empty last then api else record api { last_message = last }, n),
  )
  loaded_with api (failure e, n) = (failure e, (api, n))

  -- `GmailApi::getMessages`.
  unfoldable pub get_messages :
      ℕ → Text × Text → Call (GmailApi × web.Network) (Option (List (Text × Text)))
  unfolding load_messages
  get_messages fuel auth (api, n) = loaded_with api (load_messages fuel api auth [] [] n)

  abbrev pub mail_body : GmailApi → Text → Text → Text
  mail_body api to body =
      codes "From: "
      ++ api.user_mail
      ++ 10 ∷ codes "To: "
      ++ to
      ++ 10 ∷ codes "Subject: "
      ++ codes "sequre-dialogues"
      ++ 10 ∷ 10 ∷ body

  abbrev pub upload_users : Text
  upload_users = codes "https://www.googleapis.com/upload/gmail/v1/users"

  -- `GmailApi::sendMessage`.
  unfoldable pub send_mail : GmailApi → Text → Text → Text × Text → Call web.Network (Unit {0})
  send_mail api to body auth =
      let mail = mail_body api to body in
      lift (
        make_uri upload_users (api.user_mail ∷ codes "messages" ∷ codes "send" ∷ [])
          ((codes "uploadType", codes "media") ∷ []))
      >>= (λ uri. http_post (get_uri uri) mail (
          (codes "Content-Type", codes "message/rfc822")
          ∷ auth
          ∷ (codes "Content-Length", show_nat (length mail))
          ∷ []))
      >>= (λ answer. lift (chain (checked answer) (λ response. success tt)))
