-- ===== src/Plugins/Gmail/Tokens.antt =====
-- The stored token of a Gmail connection.
use secure_dialogues.Common.{ℕ, ◌==◌, ◌≡◌, refl, false, some, [], ◌∷◌, Text, codes}
use secure_dialogues.Common.Int.{pos, ltb_ℤ}
use secure_dialogues.Adapters.{send_failed}
use secure_dialogues.PluginData.{TokenConnectionInfo}
use secure_dialogues.Plugins.{Web, UriBuilder, success, http_ok, make_uri}
use secure_dialogues.Plugins.Gmail.{GmailApi}
use secure_dialogues.Plugins.Gmail.Oauth.{
  GmailOauth, make_gmail_oauth, gmail_connect, gmail_send, refresh_access_token,
}

module _ ⦃web : Web⦄ where
  -- The clock stands after its start, and the service answers a request for a new token, made with an
  -- empty refresh token, with anything but OK. Then after `connect`, whatever token the connection has
  -- stored, the first `send` asks for a new token with an empty refresh token, and it fails: nothing but
  -- this request goes to the network.
  pub gmail_send-connect :
      (client_id secret to text : Text) (info : TokenConnectionInfo) (old : GmailOauth)
      (api : GmailApi) (uri : UriBuilder) (code : ℕ) (response : Text) (n asked : web.Network)
      → ltb_ℤ (web.clock n) (pos 0) ≡ false
      → make_uri [] [] (
          (codes "refresh_token", [])
          ∷ (codes "client_id", client_id)
          ∷ (codes "client_secret", secret)
          ∷ (codes "grant_type", codes "refresh_token")
          ∷ [])
        ≡ success uri
      → web.post
          (codes "https://www.googleapis.com/oauth2/v4/token")
          uri.query
          ((codes "Content-Type", codes "application/x-www-form-urlencoded") ∷ [])
          n
        ≡ (success (code, response), asked)
      → (code == http_ok) ≡ false
      → gmail_send to text (gmail_connect client_id secret (some info) (old, api, n)).1 ≡ (
        send_failed,
        (
          make_gmail_oauth client_id secret (codes "urn:ietf:wg:oauth:2.0:oob"),
          record { last_message = []; user_mail = info.id },
          asked,
        ),
      )
  unfolding gmail_send gmail_connect refresh_access_token
  gmail_send-connect client_id secret to text info old api uri code response n asked late made
        answer refused =
      rw (late, gmail_send) (rw made (rw answer (rw refused refl)))
