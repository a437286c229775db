-- ===== src/Plugins/Vk.antt =====
-- plugins/vk-plugin/vk-communication/vkapi.cpp and vkoauth.cpp: the long polling of a VK account, and the
-- sending of a message. The wording of the errors, which only the log gets, is left out.
use secure_dialogues.Common.{
  ℕ, ◌/◌, ◌%◌, ◌==◌, Bool, true, false, Option, none, some, List, [], ◌∷◌, ◌++◌, Text, codes, leb,
  if◌then◌else◌,
}
use secure_dialogues.Common.Int.{ℤ, pos, negsuc}
use secure_dialogues.Decimal.{show_int}
use secure_dialogues.MessageContainer.{is_empty}
use secure_dialogues.Plugins.{
  Web, Attempt, success, failure, http_error, auth_fail_exception, api_call_error, Call, ◌>>=◌,
  ◌>>◌, return, lift, chain, http_ok, get_uri, make_uri, at_path, string_at,
}
use secure_dialogues.PluginData.{TokenConnectionInfo}
use secure_dialogues.Plugins.Messages.{Agent}
pub mod Connected

pub record VkOauth : Type 0 where
  pub client_id : Text
  pub redirect_uri : Text
  pub access_token : Text

abbrev pub auth_param : VkOauth → Text × Text
auth_param o = (codes "access_token", o.access_token)

-- `getUserUrl`.
abbrev pub user_queries : VkOauth → List (Text × Text)
user_queries o =
    (codes "client_id", o.client_id)
    ∷ (codes "redirect_uri", o.redirect_uri)
    ∷ (codes "scope", codes "69632")
    ∷ (codes "display", codes "page")
    ∷ (codes "response_type", codes "token")
    ∷ (codes "v", codes "5.92")
    ∷ []

abbrev pub load_access_token : Text → VkOauth → VkOauth
load_access_token user_code o = record o { access_token = user_code }

-- An `int` with the flag OUTBOX, the bit of 2, in two's complement.
abbrev pub has_outbox : ℤ → Bool
has_outbox (pos n) = (n / 2) % 2 == 1
has_outbox (negsuc n) = (n / 2) % 2 == 0

abbrev pub elements_count : ℕ
elements_count = 6

module _ ⦃web : Web⦄ where
  abbrev pub get_user_url : VkOauth → Attempt Text
  get_user_url o =
      chain (make_uri (codes "https://oauth.vk.com/authorize") [] (user_queries o))
        (λ uri. success (get_uri uri))

  -- `mRequest` is the network.
  pub record VkApi : Type 0 where
    pub user_id : Text
    pub key : Text
    pub server : Text
    pub last_number : ℤ
    pub network : web.Network

  abbrev pub request_get : Text → Call VkApi (ℕ × Text)
  request_get uri s = let (r, n) = web.get uri [] s.network in (r, record s { network = n })

  abbrev pub request_post : Text → Text → List (Text × Text) → Call VkApi (ℕ × Text)
  request_post uri body headers s =
      let (r, n) = web.post uri body headers s.network in (r, record s { network = n })

  abbrev pub checked : ℕ × Text → Attempt Text
  checked (code, response) = if code == http_ok then success response else failure (http_error code)

  -- The error that the service answers with.
  abbrev pub service_error : {A : Type 0} → web.Json → Attempt A
  service_error json = chain (at_path (codes "error" ∷ codes "error_code" ∷ []) json) (λ code.
      chain (web.to_int code) (λ number.
        failure
          (if web.equals_int code 5 then auth_fail_exception number else api_call_error number)))

  abbrev pub int_at : Text → web.Json → Attempt ℤ
  int_at key j = chain (web.at key j) web.to_int

  abbrev pub long_poll_data : web.Json → Attempt (Text × Text × ℤ)
  long_poll_data json = chain (web.at (codes "response") json) (λ content.
      if web.contains (codes "error") json
      then service_error json
      else chain (string_at (codes "server") content) (λ server.
        chain (string_at (codes "key") content)
          (λ key. chain (int_at (codes "ts") content) (λ ts. success (server, key, ts)))))

  unfoldable pub get_long_poll_server : Text × Text → Call VkApi (Text × Text × ℤ)
  get_long_poll_server auth =
      lift (
        make_uri (codes "https://api.vk.com/method/") (codes "messages.getLongPollServer" ∷ [])
          ((codes "v", codes "5.92") ∷ auth ∷ (codes "lp_version", codes "3") ∷ []))
      >>= (λ uri. request_get (get_uri uri))
      >>= (λ answer. lift (chain (checked answer) web.parse))
      >>= (λ json. lift (long_poll_data json))

  unfoldable pub renew_server : Text × Text → Call VkApi (Unit {0})
  unfolding get_long_poll_server
  renew_server auth = get_long_poll_server auth >>= (λ (server, key, ts) s.
      return tt (record s { server = server; key = key; last_number = ts }))

  abbrev pub set_last_number : web.Json → Call VkApi (Unit {0})
  set_last_number body =
      lift (int_at (codes "ts") body) >>= (λ ts s. return tt (record s { last_number = ts }))

  -- An update is a message from the peer: 4 stands for a new message.
  abbrev pub message_from : web.Json → Attempt (Option (Text × Text))
  message_from element = chain (chain (web.at_index 2 element) web.to_int) (λ flags.
      chain (chain (web.at_index 3 element) web.to_int) (λ peer.
        chain (web.at_index 5 element) (λ text.
          if has_outbox flags
          then success none
          else chain (web.to_string text) (λ s. success (some (show_int peer, s))))))

  abbrev pub update_found : web.Json → Attempt (Option (Text × Text))
  update_found element =
      if leb elements_count (web.size element)
      then chain (web.at_index 0 element)
          (λ type. if web.equals_int type 4 then message_from element else success none)
      else success none

  abbrev pub with_message : Option (Text × Text) → List (Text × Text) → List (Text × Text)
  with_message none rest = rest
  with_message (some m) rest = m ∷ rest

  unfoldable pub update_messages : List web.Json → Attempt (List (Text × Text))
  update_messages [] = success []
  update_messages (element ∷ updates) =
      chain (update_found element)
        (λ found. chain (update_messages updates) (λ rest. success (with_message found rest)))

  abbrev pub poll_answer : Text × Text → web.Json → Call VkApi (List (Text × Text))
  poll_answer auth body =
      if web.contains (codes "failed") body
      then lift (web.at (codes "failed") body)
        >>= (λ failed. if web.equals_int failed 1 then set_last_number body else renew_server auth)
        >> return []
      else set_last_number body
        >> lift (
            chain (web.at (codes "updates") body)
              (λ updates. update_messages (web.elements updates)))

  abbrev pub poll_uri : VkApi → Attempt Text
  poll_uri s =
      chain
        (make_uri (codes "https://" ++ s.server) [] (
          (codes "act", codes "a_check")
          ∷ (codes "key", s.key)
          ∷ (codes "ts", show_int s.last_number)
          ∷ (codes "wait", codes "25")
          ∷ (codes "version", codes "3")
          ∷ []))
        (λ uri. success (get_uri uri))

  -- `VkApi::getMessages`.
  unfoldable pub get_messages : Text × Text → Call VkApi (List (Text × Text))
  unfolding renew_server update_messages
  get_messages auth s =
      ((if is_empty s.server then renew_server auth else return tt)
          >> (λ t. lift (poll_uri t) t)
          >>= request_get
          >>= (λ answer. lift (chain (checked answer) web.parse))
          >>= poll_answer auth)
        s

  -- `VkApi::sendMessage`.
  unfoldable pub post_message : Text → Text → Text × Text → Call VkApi (Unit {0})
  post_message to body auth s =
      (lift (
            make_uri [] [] (
              (codes "v", codes "5.92")
              ∷ (codes "user_id", to)
              ∷ (codes "peer_id", to)
              ∷ (codes "message", body)
              ∷ auth
              ∷ (codes "random_id", web.get_random_id s.network)
              ∷ []))
          >>= (λ uri.
              request_post (codes "https://api.vk.com/method/messages.send") uri.query
                ((codes "Content-type", codes "application/x-www-form-urlencoded") ∷ []))
          >>= (λ answer. lift (chain (checked answer) web.parse))
          >>= (λ json.
              if web.contains (codes "error") json then lift (service_error json) else return tt))
        s

  -- Whether the agents were made, and the agents.
  abbrev pub VkAgents : Type 0
  VkAgents = Bool × VkOauth × VkApi

  -- `VkMessageCommunicator::connect`. The last number has no initial value; it keeps its bytes here.
  abbrev pub make_vk_agents : Text → TokenConnectionInfo → Call VkAgents (Unit {0})
  make_vk_agents client_id info (made, old, api) = return tt (
    true,
    record {
      client_id = client_id;
      redirect_uri = codes "https://oauth.vk.com/blank.html";
      access_token = info.access_token;
    },
    record {
      user_id = info.id;
      key = [];
      server = [];
      last_number = api.last_number;
      network = api.network;
    },
  )

  abbrev pub on_api : {A : Type 0} → Call VkApi A → Call VkAgents A
  on_api f (made, oauth, api) = let (r, changed) = f api in (r, (made, oauth, changed))

  -- The token of VK does not run out, and `refreshAccessToken` does nothing.
  abbrev pub vk_agent : Text → Agent
  vk_agent client_id = record {
    State = VkAgents;
    Info = TokenConnectionInfo;
    has_agents = λ s. s.0;
    is_expired = λ s. false;
    refresh_access_token = return tt;
    get_auth_param = λ s. auth_param s.1;
    send_encoded = λ to body auth. on_api (post_message to body auth);
    get_messages = λ auth. on_api (get_messages auth);
    make_agents = make_vk_agents client_id;
  }
