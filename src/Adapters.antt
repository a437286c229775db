-- ===== src/Adapters.antt =====
-- messages/src/adapters/pluginadapter.cpp, with plugins-support/pluginmessagecommunicatorwrapper.cpp and
-- pluginscontainer.cpp: the adapter between a channel and the communicator of a plugin. The plugin is
-- loaded when the program runs: its communicator and the iterator over its messages are parameters. The
-- exceptions are told apart as far as the channel does.
use secure_dialogues.Common.{
  ℕ, zero, suc, Bool, true, false, Option, none, some, List, [], ◌∷◌, Text, if◌then◌else◌,
}
use secure_dialogues.Common.Maps.{find, emplace, text_key}
use secure_dialogues.Common.Result.{Result, ok, throw, runtime_error, disconnected, not_authorized}
use secure_dialogues.Marshaller.{c_str}
use secure_dialogues.Contacts.{ConnectionHolder}
pub mod Received

pub data PluginApiErrorCodes : Type 0 where
  no_error disconected_code not_authorized_code : PluginApiErrorCodes
  send_failed recieve_failed invalid_address : PluginApiErrorCodes

-- What a call comes to: a failed assertion ends the program, a loop may need more turns than it got, and
-- nothing is known of what follows on a read through a dangling pointer.
pub data Ending (A : Type 0) : Type 0 where
  done : A → Ending A
  assertion_failed dangling_read out_of_fuel : Ending A

abbrev pub then_end : {A B : Type 0} → Ending A → (A → Ending B) → Ending B
then_end (done a) f = f a
then_end assertion_failed f = assertion_failed
then_end dangling_read f = dangling_read
then_end out_of_fuel f = out_of_fuel

-- A `const char*`: to a text that is there, or that was there.
pub data TextPointer : Type 0 where
  valid dangling : Text → TextPointer

-- The part of `export/recievedmessagesiterator.h` and `export/pluginmessagecommunicator.h` that the
-- adapter calls.
pub record Communicator : Type 1 where
  pub State : Type 0
  pub Iterator : Type 0
  pub Info : Type 0
  pub send_to : Text → Text → State → Ending PluginApiErrorCodes × State
  pub recieve : State → Ending Iterator × State
  pub connect_with : Option Info → State → PluginApiErrorCodes × State
  pub has_next : Iterator → Bool
  pub next : Iterator → Iterator
  pub error : Iterator → PluginApiErrorCodes
  pub address : Iterator → Text
  pub message : Iterator → TextPointer

-- The answer of `send` to a code of the plugin.
abbrev pub send_result : PluginApiErrorCodes → Ending (Result (Unit {0}))
send_result no_error = done (ok tt)
send_result send_failed = done (throw runtime_error)
send_result disconected_code = done (throw disconnected)
send_result not_authorized_code = done (throw not_authorized)
send_result invalid_address = done (throw runtime_error)
send_result recieve_failed = assertion_failed

-- The exception of `receive`, if the iterator has an error.
abbrev pub receive_error :
    {A : Type 0} → PluginApiErrorCodes → Ending (Result A) → Ending (Result A)
receive_error no_error rest = rest
receive_error recieve_failed rest = done (throw runtime_error)
receive_error disconected_code rest = done (throw disconnected)
receive_error not_authorized_code rest = done (throw not_authorized)
receive_error send_failed rest = assertion_failed
receive_error invalid_address rest = assertion_failed

abbrev pub add_message_to :
    Text → TextPointer → Ending (Result (List (Text × Text))) → Ending (Result (List (Text × Text)))
add_message_to address (dangling was) rest = dangling_read
add_message_to address (valid message) (done (ok rest)) = done (ok ((address, message) ∷ rest))
add_message_to address (valid message) (done (throw e)) = done (throw e)
add_message_to address (valid message) assertion_failed = assertion_failed
add_message_to address (valid message) dangling_read = dangling_read
add_message_to address (valid message) out_of_fuel = out_of_fuel

abbrev pub is_no_error : PluginApiErrorCodes → Bool
is_no_error no_error = true
is_no_error c = false

module _ (plugin : Communicator) where
  unfoldable pub adapter_send :
      Text → Text → plugin.State → Ending (Result (Unit {0})) × plugin.State
  adapter_send message adress s =
      let (r, t) = plugin.send_to (c_str adress) (c_str message) s in (then_end r send_result, t)

  -- The loop over the iterator, with the number of the turns that it gets.
  unfoldable pub collect : ℕ → plugin.Iterator → Ending (Result (List (Text × Text)))
  collect zero i = out_of_fuel
  collect (suc n) i =
      let rest = collect n (plugin.next i) in
      if plugin.has_next i
      then add_message_to (plugin.address i) (plugin.message i) rest
      else done (ok [])

  unfoldable pub adapter_receive :
      ℕ → plugin.State → Ending (Result (List (Text × Text))) × plugin.State
  unfolding collect
  adapter_receive fuel s =
      let (r, t) = plugin.recieve s in
      (then_end r (λ i. receive_error (plugin.error i) (collect fuel i)), t)

  unfoldable pub adapter_connect : ConnectionHolder plugin.Info → plugin.State → Bool × plugin.State
  adapter_connect holder s =
      let (code, t) = plugin.connect_with holder.plugin_conn_info s in (is_no_error code, t)

-- `PluginsContainer`: a map from the ids of the plugins.
module _ {Plugin : Type 0} (get_id : Plugin → Text) where
  unfoldable pub add_plugin : Plugin → List (Text × Plugin) → List (Text × Plugin)
  add_plugin p plugins = emplace (get_id p) p plugins

abbrev pub get_plugin : {Plugin : Type 0} → Text → List (Text × Plugin) → Option Plugin
get_plugin id plugins = find id plugins
