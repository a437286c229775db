-- ===== src/Lib.antt =====
-- SecureDialogues: the core of an application that exchanges signed and encrypted messages over
-- third-party services. This library models the repository's C++ and proves what makes it correct.
--
-- The parts, and the files that model them (paths from the repository's root):
--   Common           shared names; texts as lists of bytes, `std::map` as an ordered list of pairs,
--                    integers, and fallible code that changes a state (`Prog`) or may follow a null
--                    pointer (`Option`).
--   DialogMessage    messages/src/primitives/dialogmessage.h and .cpp, messages/src/constants.h: the
--                    message. Setters return the changed record.
--   Dialog           messages/src/primitives/dialog.h, dialog.cpp, dialogstatemachine.cpp: a dialog,
--                    `setStatus` (`set_status`, `none` is the thrown exception), `isSequentalOk`,
--                    `makeNextSequental` (64-bit wrap-around written out). Lifecycle: sequences of
--                    `setStatus`. Sequence: the two counters.
--   Contacts         messages/src/primitives/contact.h and .cpp, discoveredcontact.cpp,
--                    connectionholder.cpp. The data of a connection belongs to its plugin and is a
--                    type parameter.
--   Repository       messages/src/utils/timeoutedrepository.h: `store`, `remove`, `checkInThread`.
--                    The clock's reading is an argument; the callbacks `removed` and `timeouted` are
--                    arguments that change a state of their own and may throw.
--   Decimal          the C++ standard's integer output, `std::stoul` and `std::stol`, as the
--                    marshaller calls them.
--   Marshaller       messages/src/utils/messagemarshaller.cpp: `marshall`, `marshallExceptSignature`,
--                    `unmarshall` and its helpers. Fields without an initial value are an argument.
--   MessageContainer messages/src/containers/messagecontainer.cpp, usermessage.cpp: the messages of the
--                    dialogs in memory. Shared pointers are places in a heap, the views are numbers,
--                    and their notifications are events. Valid and Run: the invariant over sequences
--                    of operations. Views, Shared, Active: what the views see. Grows: what an
--                    operation puts into the dialogs.
--   CryptoSystem     messages/src/crypto/cryptosystemimpl.cpp over the primitives of CryptoPP, which
--                    are a parameter (`Primitives`) with the random draws as arguments. Signatures and
--                    Handshake: two systems against each other.
--   Core             the despatcher and what it calls, over one state (`World`); `Environment` holds
--                    the state and the operations of the storages, the crypto system's interface and
--                    the channel adapters.
--     Despatcher       messages/src/communication/messagedespatcher.cpp (sending), channel.cpp
--                      (`sendMessage`).
--     Delivery         messages/src/delivery-handlers/dialogactiondeliveryhandler.cpp and the delivery
--                      handler of messageactionhandler.cpp: what an ACK or its absence does.
--     DialogActions    messages/src/communication/dialogactionhandler.cpp, the user's commands, and
--                      communication_helpers.cpp; DialogRequests: the peer's messages.
--     TextMessages     messages/src/communication/messageactionhandler.cpp.
--     Dispatch         messagedespatcher.cpp (`dispatch`), despatcherrorssink.cpp, and the round of the
--                      repository's timer. A `noexcept` function has an `Outcome`: it returns, or the
--                      exception that would leave it ends the program.
--     Cycle            channel.cpp (`messsageCycle`): one turn of the loop, and as many turns as there
--                      are before the channel ends. `connect` and `receive` of the adapter are fields of
--                      `Environment` that change the state of the network.
--     Keeps            rules for what the code of the core keeps, one for each way to build it, and what
--                      each operation keeps by them: Sending, Actions, Requests, Deliveries, Texts,
--                      Dispatching.
--     Steps            the steps of the program as the core sees them (a received message, the timer,
--                      the user's texts and commands, a change elsewhere) and their runs; Received,
--                      Sent and Ended: what a step puts into the dialogs.
--     Sending, Sent, Discovered, Rejected, Returns, Terminations, Texts, Receiving, Reconnecting, History
--     hold the theorems.
--   Base64           utils/src/utils/base64.cpp.
--   Discovery        messages/src/communication/discovercontactagent.cpp.
--   StorageLayout    messages/src/persistent_storage: the bytes in which dialogs, contacts, discovered
--                    contacts and connections are stored, and the secondary indices of
--                    messages/src/containers/storages.cpp. The widths of the types and the byte order
--                    are a `Platform`; reading past the end is `none`. Numbers, RoundTrip, Sizes,
--                    Connections.
--   Gui              gui/src/models: the models behind the lists of the windows, with the signals that
--                    their views get. ActiveDialogModel (activedialogmessagemodel.cpp) with InSync,
--                    Following and Shown; Rows and RowsTold, which the others share; ChannelsModel
--                    (channelslistmodel.cpp) with ChannelsRun; ConnectionModels
--                    (connectioninfomodel.cpp, contactmodel.cpp, discoveredcontactmodel.cpp);
--                    DialogModel (dialogusermodel.cpp, dialoginfo.cpp) with Selection, DialogSteps,
--                    DialogKept and DialogRun; SortModel (dialogsortmodel.cpp) with Sorted. From
--                    gui/src/wrappers: DiscoveredSaved (recievedcontactsstoragewrapper.cpp) with
--                    SavedOrKept, and Commands (dialogactionhandlerwrapper.cpp).
--   Listeners        messages/src/containers/eventwatchers.h: who is told of a change;
--                    Connections and Channels: connectstoragelistener.cpp and chaneladapterfactory.cpp;
--                    Dialogs: systemmessagegenerator.cpp and the two informators of the crypto system;
--                    Generated.
--   Startup          messages/src/core-initializer/coreinitializer.cpp: the keys, the handlers and the
--                    listeners with which the core starts. Informed.
--   PluginData       plugins/smtp-plugin/smtpconnectionserializer.cpp, plugins/vk-plugin/
--                    vkconnectionserializer.cpp: the bytes of the data of a connection. RoundTrip,
--                    and Stored, with the storage's marshaller.
--   Adapters         messages/src/adapters/pluginadapter.cpp and plugins-support/pluginscontainer.cpp: the
--                    adapter of a channel over a plugin's communicator, which is a parameter
--                    (`Communicator`). Received.
--   Plugins          plugins: what the plugins for the message services share: uris
--                    (plugins-libs/curl-wrapper/src/uribuilder.cpp), and the JSON library, libcurl and
--                    the clock as one parameter (`Web`). Messages: recievedmessagesiteratorimpl.cpp and
--                    the communicator over its agents (vkmessagecommunicator.cpp); Delivered. Vk:
--                    vkapi.cpp and vkoauth.cpp, with Connected. Gmail: gmailapi.cpp, with Oauth (gmailoauth.cpp and
--                    gmailmessagecommunicator.cpp), Polling and Tokens. Smtp:
--                    smtpmessagecommunication.cpp and email-agent/imapreciever.cpp over the sessions of
--                    vmime (`Vmime`); Arrivals.
--   Keys             encryption/src/serialization (serializations.cpp, fileasynckeyserializer.cpp),
--                    encryption/src/symetrical/symetricalsystemfactories.cpp and
--                    encryption/src/asymetrical/asymetricalkeystore.cpp: the texts and the files of keys,
--                    over the ciphers and encodings of CryptoPP. RoundTrip, Files.
--   Tests            runs at small inputs, and the theorems at inputs that meet their hypotheses.
--
-- Bounds: `show_nat n` recurs on fuel n + 1, which is more than the number of digits of n; `collect`
-- recurs on fuel, of which more than the number of messages is enough; `load_messages` recurs on fuel,
-- one for each page of a mailbox, and `log_parents` on the turns of a loop that need not end; `messsage_cycle` recurs on the list
-- of the turns that the thread makes, each with what the other threads did before it; every other
-- recursion is on the data. Characters are bytes, `isspace` and `isalnum` are those of the "C" locale.
--
-- How the parts meet: the thread of a channel connects, receives texts, reads them (`unmarshall`) and
-- calls `dispatch`, which answers with an ACK, has the signature checked by the crypto system, and calls
-- the handlers; these change dialogs in the storage, add texts to the container, and send through
-- `send_message`, which leaves a delivery handler in the repository; an ACK removes it (`removed`), the
-- timer times it out (`timeouted`). A dialog that is saved as aborted or closed gets a note of the system
-- in the container (`save_wrapper`), from the listener of the core to the storage. The container tells the models of the windows, and a storage its
-- listeners: the crypto system, the container, the channels and the models. The locks make each call one
-- step, and an interleaving of threads is a sequence of such steps.
--
-- Not modelled: the persistent-storage package, Berkeley DB and the opening of the databases, the
-- discovery of plugins, the widgets, dialogs and delegates of Qt, and the calls of CryptoPP and
-- libcurl. The wording of what the notifier shows and the log are left out.
pub mod Common
pub mod DialogMessage
pub mod Dialog
pub mod Contacts
pub mod Repository
pub mod MessageContainer
pub mod Base64
pub mod Discovery
pub mod Decimal
pub mod Marshaller
pub mod CryptoSystem
pub mod Core
pub mod StorageLayout
pub mod Gui
pub mod Listeners
pub mod Startup
pub mod PluginData
pub mod Adapters
pub mod Plugins
pub mod Keys
mod Tests
