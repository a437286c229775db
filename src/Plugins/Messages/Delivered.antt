-- ===== src/Plugins/Messages/Delivered.antt =====
-- What the adapter makes of a communicator: of the answers of its service, and of its missing agents.
use secure_dialogues.Common.{
  ℕ, suc, ◌≡◌, refl, List, [], ◌∷◌, Text, if◌then◌else◌, inl, inr, Bool-cases,
}
use secure_dialogues.Common.Result.{Result, ok, throw, runtime_error, disconnected}
use secure_dialogues.Base64.{base64_encode}
use secure_dialogues.Marshaller.{c_str}
use secure_dialogues.Adapters.{
  Ending, done, assertion_failed, dangling_read, adapter_send, adapter_receive, collect,
  receive_error, send_result,
}
use secure_dialogues.Plugins.{
  Attempt, success, failure, curl_http_send_error, std_exception, http_error, auth_fail_exception,
  api_call_error, vmime, ◌>>=◌,
}
use secure_dialogues.Plugins.Messages.{
  Agent, authorized, communicator_of, communicator_send, communicator_recieve, iterator_of,
  send_code,
}

-- A lost connection and the other failures are told apart by their exceptions.
abbrev pub thrown : {A : Type 0} → Attempt A → Result (Unit {0})
thrown (success a) = ok tt
thrown (failure curl_http_send_error) = throw disconnected
thrown (failure _) = throw runtime_error

-- No text is received: where there is one, its pointer dangles.
abbrev pub received : Attempt (List (Text × Text)) → Ending (Result (List (Text × Text)))
received (success []) = done (ok [])
received (success (m ∷ ms)) = dangling_read
received (failure curl_http_send_error) = done (throw disconnected)
received (failure _) = done (throw runtime_error)

send_code-thrown : (r : Attempt (Unit {0})) → send_result (send_code r) ≡ done (thrown r)
send_code-thrown (success u) = refl
send_code-thrown (failure curl_http_send_error) = refl
send_code-thrown (failure std_exception) = refl
send_code-thrown (failure (http_error c)) = refl
send_code-thrown (failure (auth_fail_exception c)) = refl
send_code-thrown (failure (api_call_error c)) = refl
send_code-thrown (failure (vmime x)) = refl

module _ (agent : Agent) where
  -- `send` of the adapter over a communicator: without agents an assertion fails; with them the text goes
  -- encoded to the address.
  pub adapter_send-communicator :
      (s : agent.State) (message adress : Text)
      → let r =
          (authorized agent >>= agent.send_encoded (c_str adress) (base64_encode (c_str message)))
            s in
        adapter_send (communicator_of agent) message adress s
        ≡ (if agent.has_agents s then (done (thrown r.0), r.1) else (assertion_failed, s))
  unfolding adapter_send communicator_send
  adapter_send-communicator s message adress = elim (Bool-cases (agent.has_agents s)) [
    | inl made ↦ rw made (rw (send_code-thrown _) refl)
    | inr none_made ↦ rw none_made refl
  ]

  collected :
      (r : Attempt (List (Text × Text))) (fuel : ℕ)
      → receive_error
          (iterator_of r).code
          (collect (communicator_of agent) (suc fuel) (iterator_of r))
        ≡ received r
  unfolding collect
  collected (success []) fuel = refl
  collected (success (m ∷ ms)) fuel = refl
  collected (failure curl_http_send_error) fuel = refl
  collected (failure std_exception) fuel = refl
  collected (failure (http_error c)) fuel = refl
  collected (failure (auth_fail_exception c)) fuel = refl
  collected (failure (api_call_error c)) fuel = refl
  collected (failure (vmime x)) fuel = refl

  -- `receive` of the adapter over a communicator, whose loop gets at least one turn. Without agents an
  -- assertion fails. With them, and a token that is renewed if it is over, a lost connection is thrown
  -- as such and every other failure as a failure to receive; without new messages the list is empty; and
  -- as soon as there is a message, its text is read through a dangling pointer.
  pub adapter_receive-communicator :
      (s : agent.State) (fuel : ℕ)
      → let r = (authorized agent >>= agent.get_messages) s in
        adapter_receive (communicator_of agent) (suc fuel) s
        ≡ (if agent.has_agents s then (received r.0, r.1) else (assertion_failed, s))
  unfolding adapter_receive communicator_recieve
  adapter_receive-communicator s fuel = elim (Bool-cases (agent.has_agents s)) [
    | inl made ↦ rw made (rw (collected ((authorized agent >>= agent.get_messages) s).0 fuel) refl)
    | inr none_made ↦ rw none_made refl
  ]
