-- ===== src/Core/Despatcher.antt =====
-- messages/src/communication/channel.cpp and the sending half of messagedespatcher.cpp: how a message
-- leaves.
use secure_dialogues.Common.{
  ℕ, Option, none, some, List, [], ◌∷◌, ◌++◌, Text, ◌&&◌, not, ltb, is_some, if◌then◌else◌,
}
use secure_dialogues.Common.Maps.{find, emplace, erase, text_key, pair_key}
use secure_dialogues.Common.Result.{
  Exception, Prog, ◌>>=◌, ◌>>◌, return, raise, catch, disconnected, not_authorized,
}
use secure_dialogues.DialogMessage.{DialogMessage, abort, action_eq, set_signature, make_ack}
use secure_dialogues.Marshaller.{marshall}
use secure_dialogues.Repository.{store}
use secure_dialogues.Core.{
  Environment, World, Channel, ChannelStatus, failed_connect, authorization_failed, DeliveryHandler,
  MessageHandler, asks,
}

module _ ⦃env : Environment⦄ where
  -- `mAdapter->send`.
  abbrev pub adapter_sends : Text → Text → Text → Prog (World env) (Unit {0})
  adapter_sends name text address w =
      let (r, n) = env.adapter_send name text address w.network in (r, record w { network = n })

  abbrev pub enqueue : ChannelStatus → Text → Prog (World env) (Unit {0})
  enqueue s name w = return tt (record w { event_queue = w.event_queue ++ (s, name) ∷ [] })

  abbrev pub rethrow : Text → Exception → Prog (World env) (Unit {0})
  rethrow name disconnected = enqueue failed_connect name >> raise disconnected
  rethrow name not_authorized = enqueue authorization_failed name >> raise not_authorized
  rethrow name e = raise e

  -- `Channel::sendMessage`.
  unfoldable pub channel_send_message : Text → DialogMessage → Prog (World env) (Unit {0})
  channel_send_message name m = catch (adapter_sends name (marshall m) m.adress) (rethrow name)

  abbrev pub signed : DialogMessage → Prog (World env) DialogMessage
  signed m = asks (env.create_signature m) World.crypto >>= (λ s. return (set_signature m s))

  abbrev pub store_handler : DeliveryHandler → DialogMessage → ℕ → Prog (World env) (Unit {0})
  store_handler h m interval w =
      return tt
        (record w { repo = (store w.repo h (m.dialog_id, m.sequential) interval w.ticks).0 })

  abbrev pub send_on :
      Option Channel → DialogMessage → Text → DeliveryHandler → Prog (World env) (Unit {0})
  send_on none m name h = return tt
  send_on (some c) m name h =
      signed m >>= (λ s. store_handler h s c.wait_ack_interval >> channel_send_message name s)

  -- `MessageDespatcher::sendMessage`.
  unfoldable pub send_message : DialogMessage → Text → DeliveryHandler → Prog (World env) (Unit {0})
  unfolding channel_send_message
  send_message m name h w = send_on (find name w.channels) m name h w

  abbrev pub send_if : Option Channel → DialogMessage → Text → Prog (World env) (Unit {0})
  send_if none m name = return tt
  send_if (some c) m name = channel_send_message name m

  -- `MessageDespatcher::sendAndForget`.
  unfoldable pub send_and_forget : DialogMessage → Text → Prog (World env) (Unit {0})
  unfolding channel_send_message
  send_and_forget m name w = (signed m >>= (λ s. send_if (find name w.channels) s name)) w

  -- `MessageDespatcher::sendAck`.
  unfoldable pub send_ack : DialogMessage → Text → Prog (World env) (Unit {0})
  unfolding send_and_forget
  send_ack m name w =
      if not (action_eq m.action abort) && (ltb 0 m.sequential && is_some (find name w.channels))
      then send_and_forget (make_ack m w.timestamp) name w
      else return tt w

  unfoldable pub add_handler : MessageHandler → World env → World env
  add_handler h w = record w { handlers = w.handlers ++ h ∷ [] }

  -- `add` of a channel; the cycle that it starts is the sequence of the later calls of `dispatch`.
  unfoldable pub add_channel : Channel → Text → World env → World env
  add_channel c name w = record w { channels = emplace name c w.channels }

  -- The state as the call returns: the destructor of the channel has joined its thread by then, under the
  -- unique lock.
  unfoldable pub remove_channel : Text → World env → World env
  remove_channel name w = record w { channels = erase name w.channels }

  abbrev pub keys : List (Text × Channel) → List Text
  keys [] = []
  keys ((name, c) ∷ rest) = name ∷ keys rest

  unfoldable pub get_channels_names : World env → List Text
  get_channels_names w = keys w.channels
