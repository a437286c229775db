-- ===== src/Plugins/Vk/Connected.antt =====
-- A VK connection after its `connect`.
use secure_dialogues.Common.{◌≡◌, ◌≢◌, refl, sym, ap, ◌∙◌, true, some, List, [], ◌∷◌, Text, ℕ, suc}
use secure_dialogues.Common.Result.{Result}
use secure_dialogues.Contacts.{ConnectionHolder}
use secure_dialogues.PluginData.{TokenConnectionInfo}
use secure_dialogues.Adapters.{
  done, assertion_failed, adapter_connect, adapter_send, adapter_receive,
}
use secure_dialogues.Plugins.{
  Web, Attempt, success, failure, curl_http_send_error, std_exception, http_error,
  auth_fail_exception, api_call_error, vmime,
}
use secure_dialogues.Plugins.Messages.{communicator_of, communicator_connect}
use secure_dialogues.Plugins.Messages.Delivered.{
  received, adapter_send-communicator, adapter_receive-communicator,
}
use secure_dialogues.Plugins.Vk.{vk_agent, VkAgents, make_vk_agents}

received-ne-assertion_failed : (r : Attempt (List (Text × Text))) → received r ≢ assertion_failed
received-ne-assertion_failed (success []) h = cc h
received-ne-assertion_failed (success (m ∷ ms)) h = cc h
received-ne-assertion_failed (failure curl_http_send_error) h = cc h
received-ne-assertion_failed (failure std_exception) h = cc h
received-ne-assertion_failed (failure (http_error c)) h = cc h
received-ne-assertion_failed (failure (auth_fail_exception c)) h = cc h
received-ne-assertion_failed (failure (api_call_error c)) h = cc h
received-ne-assertion_failed (failure (vmime x)) h = cc h

module _ ⦃web : Web⦄ where
  -- The connection's data are those of the VK plugin. Then `connect` of the adapter answers true, whatever
  -- the agents were before; after it, whatever the network and the service do, `send` returns or throws,
  -- and no assertion fails in `receive`, whose loop gets at least one turn.
  pub vk_connected :
      (client_id : Text) (holder : ConnectionHolder TokenConnectionInfo)
      (info : TokenConnectionInfo) (s : VkAgents) (message adress : Text) (fuel : ℕ)
      → holder.plugin_conn_info ≡ some info
      → let plugin = communicator_of (vk_agent client_id) in
        let connected = adapter_connect plugin holder s in
        (connected.0 ≡ true)
        × ((x : Result (Unit {0})) × ((adapter_send plugin message adress connected.1).0 ≡ done x))
        × ((adapter_receive plugin (suc fuel) connected.1).0 ≢ assertion_failed)
  unfolding adapter_connect communicator_connect
  vk_connected client_id holder info s message adress fuel known =
      let agent = vk_agent client_id in
      let t = (make_vk_agents client_id info s).1 in
      rw known (
        refl,
        (_, ap (λ p. p.0) (adapter_send-communicator agent t message adress)),
        λ h.
            received-ne-assertion_failed _
              (ap (λ p. p.0) (sym (adapter_receive-communicator agent t fuel)) ∙ h),
      )
