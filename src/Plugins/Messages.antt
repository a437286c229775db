-- ===== src/Plugins/Messages.antt =====
-- plugins/plugins-libs/plugin-utils/recievedmessagesiteratorimpl.cpp, and what vkmessagecommunicator.cpp
-- and gmailmessagecommunicator.cpp make of the service's answers. The agents of a communicator are an
-- interface, which tells whether the communicator has made them.
use secure_dialogues.Common.{
  ℕ, Bool, true, false, Option, none, some, List, [], ◌∷◌, Text, if◌then◌else◌,
}
use secure_dialogues.Base64.{base64_encode, base64_decode}
use secure_dialogues.Marshaller.{c_str}
use secure_dialogues.Adapters.{
  PluginApiErrorCodes, no_error, disconected_code, send_failed, recieve_failed, Communicator,
  Ending, done, assertion_failed, TextPointer, dangling,
}
use secure_dialogues.Plugins.{
  Failure, Attempt, success, failure, curl_http_send_error, Call, ◌>>=◌, ◌>>◌, return,
}
pub mod Delivered

-- `RecievedMessagesIteratorImpl`: the messages from the current one on.
pub record MessagesIterator : Type 0 where
  pub messages : List (Text × Text)
  pub code : PluginApiErrorCodes

abbrev pub has_next : MessagesIterator → Bool
has_next i = elim i.messages [ [] ↦ false | p ∷ rest ↦ true ]

-- Only called while there is a message; so are `address` and `message`.
abbrev pub next : MessagesIterator → MessagesIterator
next i = record i { messages = elim i.messages [ [] ↦ [] | p ∷ rest ↦ rest ] }

abbrev pub address : MessagesIterator → Text
address i = elim i.messages [ [] ↦ [] | p ∷ rest ↦ c_str p.0 ]

-- The pointer to the decoded text, which is a temporary that ends as the call returns.
abbrev pub message : MessagesIterator → TextPointer
message i = dangling (elim i.messages [ [] ↦ [] | p ∷ rest ↦ base64_decode p.1 ])

-- The agents that a communicator holds, as one state; `has_agents`: neither pointer is null.
pub record Agent : Type 1 where
  pub State : Type 0
  pub Info : Type 0
  pub has_agents : State → Bool
  pub is_expired : State → Bool
  pub refresh_access_token : Call State (Unit {0})
  pub get_auth_param : State → Text × Text
  pub send_encoded : Text → Text → Text × Text → Call State (Unit {0})
  pub get_messages : Text × Text → Call State (List (Text × Text))
  pub make_agents : Info → Call State (Unit {0})

abbrev pub send_code : Attempt (Unit {0}) → PluginApiErrorCodes
send_code (success u) = no_error
send_code (failure curl_http_send_error) = disconected_code
send_code (failure _) = send_failed

abbrev pub iterator_of : Attempt (List (Text × Text)) → MessagesIterator
iterator_of (success messages) = record { messages = messages; code = no_error }
iterator_of (failure curl_http_send_error) = record { messages = []; code = disconected_code }
iterator_of (failure _) = record { messages = []; code = recieve_failed }

abbrev pub connect_code : Attempt (Unit {0}) → PluginApiErrorCodes
connect_code (success u) = no_error
connect_code (failure _) = disconected_code

module _ (agent : Agent) where
  -- A new token if the old one is over, and the header that carries it.
  unfoldable pub authorized : Call agent.State (Text × Text)
  authorized s =
      ((if agent.is_expired s then agent.refresh_access_token else return tt)
          >> (λ t. return (agent.get_auth_param t) t))
        s

  unfoldable pub communicator_send :
      Text → Text → agent.State → Ending PluginApiErrorCodes × agent.State
  unfolding authorized
  communicator_send to text s =
      let (r, t) = (authorized >>= agent.send_encoded to (base64_encode text)) s in
      if agent.has_agents s then (done (send_code r), t) else (assertion_failed, s)

  unfoldable pub communicator_recieve : agent.State → Ending MessagesIterator × agent.State
  unfolding authorized
  communicator_recieve s =
      let (r, t) = (authorized >>= agent.get_messages) s in
      if agent.has_agents s then (done (iterator_of r), t) else (assertion_failed, s)

  -- `none`: not the data of a connection of this plugin.
  unfoldable pub communicator_connect :
      Option agent.Info → agent.State → PluginApiErrorCodes × agent.State
  communicator_connect none s = (disconected_code, s)
  communicator_connect (some info) s = let (r, t) = agent.make_agents info s in (connect_code r, t)

  abbrev pub communicator_of : Communicator
  communicator_of = record {
    State = agent.State;
    Iterator = MessagesIterator;
    Info = agent.Info;
    send_to = communicator_send;
    recieve = communicator_recieve;
    connect_with = communicator_connect;
    has_next = has_next;
    next = next;
    error = λ i. i.code;
    address = address;
    message = message;
  }
