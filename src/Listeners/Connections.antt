-- ===== src/Listeners/Connections.antt =====
-- messages/src/containers/connectstoragelistener.cpp and core-initializer/chaneladapterfactory.cpp: the
-- channels follow the stored connections. The plugins are parameters: the id of the plugin of a
-- connection, whether there is a plugin with an id, and how long a connection waits for an ACK. The
-- adapter that a plugin's communicator makes is the one that the environment keeps under the name.
use secure_dialogues.Common.{ℕ, Bool, Option, none, some, List, [], ◌∷◌, Text, if◌then◌else◌}
use secure_dialogues.Common.Result.{
  Exception, Prog, ◌>>=◌, ◌>>◌, return, raise, catch, disconnected, not_authorized,
}
use secure_dialogues.Contacts.{ConnectionHolder}
use secure_dialogues.Core.{Environment, World, bad_channel, failed_connect, authorization_failed}
use secure_dialogues.Core.Despatcher.{enqueue, add_channel, remove_channel}

-- `ChanelAdapterFactory::operator()`: an adapter, or a null pointer.
abbrev pub adapter_of : {Info : Type 0} → (Info → Text) → (Text → Bool) → Info → Bool
adapter_of get_plugin_id has_plugin i = has_plugin (get_plugin_id i)

module _ ⦃env : Environment⦄ {Info : Type 0} (fabric : Info → Prog (World env) Bool)
    (get_wait_period : Info → ℕ) where
  abbrev pub add_channel_of : Info → Text → Prog (World env) (Unit {0})
  add_channel_of i name w =
      return tt (add_channel (record { wait_ack_interval = get_wait_period i }) name w)

  abbrev pub listener_failed : Text → Exception → Prog (World env) (Unit {0})
  listener_failed name disconnected = enqueue failed_connect name
  listener_failed name not_authorized = enqueue authorization_failed name
  listener_failed name e = raise e

  abbrev pub add_made : Info → Text → Bool → Prog (World env) (Unit {0})
  add_made i name made = if made then add_channel_of i name else enqueue bad_channel name

  abbrev pub added_with : Text → Option Info → Prog (World env) (Unit {0})
  added_with name none = return tt
  added_with name (some i) = catch (fabric i >>= add_made i name) (listener_failed name)

  unfoldable pub connection_added : ConnectionHolder Info → Prog (World env) (Unit {0})
  unfolding add_channel
  connection_added h = added_with h.conn_name h.plugin_conn_info

  -- The adapter that is looked at is not the one that the channel gets: the factory is asked twice.
  abbrev pub change_made : Info → Text → Bool → Prog (World env) (Unit {0})
  change_made i name made =
      if made then fabric i >> add_channel_of i name else enqueue bad_channel name

  abbrev pub changed_with : Text → Option Info → Prog (World env) (Unit {0})
  changed_with name none = return tt
  changed_with name (some i) =
      catch ((λ w. return tt (remove_channel name w)) >> fabric i >>= change_made i name)
        (listener_failed name)

  unfoldable pub connection_changed : ConnectionHolder Info → Prog (World env) (Unit {0})
  unfolding add_channel remove_channel
  connection_changed h = changed_with h.conn_name h.plugin_conn_info

  unfoldable pub connection_removed : ConnectionHolder Info → Prog (World env) (Unit {0})
  unfolding remove_channel
  connection_removed h w = return tt (remove_channel h.conn_name w)

  -- The constructor.
  unfoldable pub make_connect_storage_listener :
      List (ConnectionHolder Info) → Prog (World env) (Unit {0})
  unfolding connection_added
  make_connect_storage_listener [] = return tt
  make_connect_storage_listener (h ∷ hs) = connection_added h >> make_connect_storage_listener hs
