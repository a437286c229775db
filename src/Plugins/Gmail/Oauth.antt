-- ===== src/Plugins/Gmail/Oauth.antt =====
-- plugins/gmail-plugin/gmail-communication/gmailoauth.cpp, and the making and the sending of
-- gmailmessagecommunicator.cpp. Times are whole milliseconds since the
-- start of the clock.
use secure_dialogues.Common.{
  ℕ, suc, ◌*◌, Bool, not, Option, none, some, List, [], ◌∷◌, ◌++◌, Text, codes, if◌then◌else◌,
}
use secure_dialogues.Common.Int.{ℤ, pos, negsuc, ◌-ℤ◌, ltb_ℤ}
use secure_dialogues.Decimal.{negate}
use secure_dialogues.Base64.{base64_encode}
use secure_dialogues.Adapters.{PluginApiErrorCodes, no_error, disconected_code}
use secure_dialogues.PluginData.{TokenConnectionInfo}
use secure_dialogues.Plugins.{
  Web, Attempt, success, failure, Call, ◌>>=◌, ◌>>◌, return, lift, chain, get_uri, make_uri,
  http_post, string_at,
}
use secure_dialogues.Plugins.Messages.{MessagesIterator, send_code, iterator_of}
use secure_dialogues.Plugins.Gmail.{GmailApi, checked, send_mail, get_messages}

pub record GmailOauth : Type 0 where
  pub client_id : Text
  pub client_secret : Text
  pub redirect_uri : Text
  pub access_token : Text
  pub refresh_token : Text
  pub token_type : Text
  pub expires_at : ℤ

-- The constructor without a refresh token.
abbrev pub make_gmail_oauth : Text → Text → Text → GmailOauth
make_gmail_oauth client_id client_secret redirect_uri = record {
  client_id = client_id;
  client_secret = client_secret;
  redirect_uri = redirect_uri;
  access_token = [];
  refresh_token = [];
  token_type = [];
  expires_at = pos 0;
}

abbrev pub make_with_refresh_token : Text → Text → Text → Text → GmailOauth
make_with_refresh_token client_id client_secret redirect_uri refresh_token =
    record (make_gmail_oauth client_id client_secret redirect_uri) { refresh_token = refresh_token }

abbrev pub get_auth_param : GmailOauth → Text × Text
get_auth_param o = (codes "Authorization", o.token_type ++ b' ' ∷ o.access_token)

abbrev pub add_seconds : ℤ → ℤ → ℤ
add_seconds t (pos n) = t -ℤ negate (n * 1000)
add_seconds t (negsuc n) = t -ℤ pos (suc n * 1000)

module _ ⦃web : Web⦄ where
  abbrev pub is_expired : ℤ → GmailOauth → Bool
  is_expired now o = not (ltb_ℤ now o.expires_at)

  abbrev pub get_user_url : GmailOauth → Attempt Text
  get_user_url o =
      chain
        (make_uri (codes "https://accounts.google.com/o/oauth2/v2/auth") [] (
          (codes "client_id", o.client_id)
          ∷ (codes "redirect_uri", o.redirect_uri)
          ∷ (
            codes "scope",
            codes "https://www.googleapis.com/auth/gmail.send "
                ++ codes "https://www.googleapis.com/auth/gmail.readonly",
          )
          ∷ (codes "response_type", codes "code")
          ∷ (codes "access_type", codes "offline")
          ∷ []))
        (λ uri. success (get_uri uri))

  abbrev pub post_token : List (Text × Text) → Call web.Network web.Json
  post_token queries =
      lift (make_uri [] [] queries)
      >>= (λ uri.
          http_post (codes "https://www.googleapis.com/oauth2/v4/token") uri.query
            ((codes "Content-Type", codes "application/x-www-form-urlencoded") ∷ []))
      >>= (λ answer. lift (chain (checked answer) web.parse))

  abbrev pub expires_in : web.Json → Attempt ℤ
  expires_in body = chain (web.at (codes "expires_in") body) web.to_int

  -- The members are set one after the other, so those before a failure stay set.
  abbrev pub set_from :
      (Text → GmailOauth → GmailOauth)
      → Text
      → web.Json
      → Call (GmailOauth × web.Network) (Unit {0})
  set_from set key body = lift (string_at key body) >>= (λ value (o, n). return tt (set value o, n))

  abbrev pub set_expires : web.Json → Call (GmailOauth × web.Network) (Unit {0})
  set_expires body = lift (expires_in body) >>= (λ seconds (o, n).
      return tt (record o { expires_at = add_seconds (web.clock n) seconds }, n))

  abbrev pub set_access : Text → GmailOauth → GmailOauth
  set_access value o = record o { access_token = value }

  abbrev pub set_refresh : Text → GmailOauth → GmailOauth
  set_refresh value o = record o { refresh_token = value }

  abbrev pub set_type : Text → GmailOauth → GmailOauth
  set_type value o = record o { token_type = value }

  abbrev pub post_for : (GmailOauth → List (Text × Text)) → Call (GmailOauth × web.Network) web.Json
  post_for queries (o, n) = let (r, m) = post_token (queries o) n in (r, (o, m))

  abbrev pub code_queries : Text → GmailOauth → List (Text × Text)
  code_queries user_code o =
      (codes "code", user_code)
      ∷ (codes "client_id", o.client_id)
      ∷ (codes "client_secret", o.client_secret)
      ∷ (codes "redirect_uri", o.redirect_uri)
      ∷ (codes "grant_type", codes "authorization_code")
      ∷ []

  unfoldable pub load_access_token : Text → Call (GmailOauth × web.Network) (Unit {0})
  load_access_token user_code = post_for (code_queries user_code) >>= (λ body.
      set_from set_access (codes "access_token") body
      >> set_from set_refresh (codes "refresh_token") body
      >> set_from set_type (codes "token_type") body
      >> set_expires body)

  abbrev pub refresh_queries : GmailOauth → List (Text × Text)
  refresh_queries o =
      (codes "refresh_token", o.refresh_token)
      ∷ (codes "client_id", o.client_id)
      ∷ (codes "client_secret", o.client_secret)
      ∷ (codes "grant_type", codes "refresh_token")
      ∷ []

  unfoldable pub refresh_access_token : Call (GmailOauth × web.Network) (Unit {0})
  refresh_access_token = post_for refresh_queries >>= (λ body.
      set_from set_access (codes "access_token") body
      >> set_expires body
      >> set_from set_type (codes "token_type") body)

  -- The agents of the communicator, and the network that they share. They are there once `connect` has
  -- made them; before that the assertions of `send` and `recieve` fail, which is not modelled here.
  abbrev pub Agents : Type 0
  Agents = GmailOauth × GmailApi × web.Network

  abbrev pub refreshed : Call Agents (Unit {0})
  refreshed (o, api, n) =
      if is_expired (web.clock n) o
      then (let (r, (changed, m)) = refresh_access_token (o, n) in (r, (changed, api, m)))
      else (success tt, (o, api, n))

  -- `GmailMessageCommunicator::send`.
  unfoldable pub gmail_send : Text → Text → Agents → PluginApiErrorCodes × Agents
  unfolding refresh_access_token
  gmail_send to text s =
      let (r, t) =
        (refreshed >>= (λ u (o, api, n).
            let (sent, m) = send_mail api to (base64_encode text) (get_auth_param o) n in
            (sent, (o, api, m))))
          s in
      (send_code r, t)

  abbrev pub iterator_found : Attempt (Option (List (Text × Text))) → Option MessagesIterator
  iterator_found (success none) = none
  iterator_found (success (some messages)) = some (iterator_of (success messages))
  iterator_found (failure e) = some (iterator_of (failure e))

  -- `GmailMessageCommunicator::recieve`; the fuel is that of the pages.
  unfoldable pub gmail_recieve : ℕ → Agents → Option MessagesIterator × Agents
  unfolding refresh_access_token
  gmail_recieve fuel s =
      let (r, t) =
        (refreshed >>= (λ u (o, api, n).
            let (loaded, (changed, m)) = get_messages fuel (get_auth_param o) (api, n) in
            (loaded, (o, changed, m))))
          s in
      (iterator_found r, t)

  -- `GmailMessageCommunicator::connect`; `none`: not the data of a connection of this plugin.
  unfoldable pub gmail_connect :
      Text → Text → Option TokenConnectionInfo → Agents → PluginApiErrorCodes × Agents
  gmail_connect client_id client_secret none s = (disconected_code, s)
  gmail_connect client_id client_secret (some info) (old, api, n) = (
    no_error,
    (
      make_gmail_oauth client_id client_secret (codes "urn:ietf:wg:oauth:2.0:oob"),
      record { last_message = []; user_mail = info.id },
      n,
    ),
  )
