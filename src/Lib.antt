-- ===== src/Lib.antt =====
-- Verification of the Wisp message broker: a broker (server/) routes messages of clients by
-- topic, brokers find each other by UDP beacons and forward messages over peer links.
--
-- Parts and files:
--   Registry: server/subscriptionregistry.h. `Registry` has the two maps of
--   `SubscriptionRegistry` as association lists; a `std::set` is a list that `place` keeps
--   ascending, and `swap_remove` is the swap with the last element in `dropSubscriber`.
--   Registry/Sets, Counts and Consistent hold lemmas, Registry/Refinement the specification, a
--   set of pairs of client and topic.
--   SafeQueue: common/safequeue.h. A call under the mutex either returns or waits.
--   SafeQueue/Order has histories of calls, SafeQueue/Monitor the threads that sleep on the
--   condition variables.
--   Keys: common/messagekeys.h.
--   Wire: common/wireframe.h and common/proto/broker.proto. `recv` is `wire::recv`, `send_frames`
--   is `wire::sendFrames`; Wire/Sockets states what is used of the ZeroMQ sockets, Wire/Receive
--   and Wire/Atomic are about receiving and sending, the latter with `sendToClient` of
--   server/zmqbroker.cpp.
--   Broker: server/zmqbroker.h and server/zmqbroker.cpp. `process_message` is `processMessage`,
--   split into `stamp`, `handle_local`, `handle_known`, `handle_peer` and `route`; a handler
--   returns the new state and what it puts out (`tap` for the inspector, `deliver` for a client,
--   `forward` for a link). Broker/Dedup is `isDuplicate`, Broker/Effects what a message does to a
--   client's subscriptions, Broker/Loop a round of `run` with `broadcastStats`, Broker/Peers the
--   links, `start`, `stop`, `parseTcpPort` and server/main.cpp. Broker/Valid, Timers, Rounds and
--   Reach are about the invariant, Delivery, Verbatim and Publish about who gets a message,
--   Carries, Flood and Copies about how often one id is forwarded, Gets and Once about how often
--   a client gets it, Relay about chains of brokers, Broker/Network about brokers that are linked
--   in any shape, Drain about the loop over the inbound queue, Totals about the count of
--   messages, Reports about the statistics, Ports about `parseTcpPort`, Mesh about the links and
--   the discovery together. In Broker/Network a run of the network is a list of numbers that say
--   which copy on its way arrives next, so any order is covered, also one that ZeroMQ's
--   connections and the inbound queue do not allow; no copy is lost, so sockets and queues that
--   drop what they have no room for are outside it. Network/Copy, Carry, Sends and Arrivals are
--   about one copy, Places, Pools and Links about the brokers, what is on its way and the links,
--   Quiet, Spread, Everywhere, Reached, Gives and Exactly about the run.
--   Discovery: server/discovery.h and server/discovery.cpp. Discovery/Beacon is the text of a
--   beacon, `on_datagram` and `expire_stale` return the calls of the dial and drop callbacks as
--   events; Discovery/Roundtrip and Discovery/Pairing are about them. Discovery/Loop is a round
--   of `run`, Discovery/Run all of it, and Discovery/Steady is about many rounds.
--   Worker: common/zmqworker.h and common/zmqworker.cpp. `turn` is a round of `ZmqWorker::run`;
--   the callbacks of whoever made the worker are an `Owner`. Worker/Sends is about what it sends.
--   Client: common/connectionmanager.h and common/connectionmanager.cpp. A function of the
--   manager takes the manager and its worker and returns both. Client/Session is the static part
--   (`init`, `shutdown`, pending callbacks), Client/Payload the namespace `detail`,
--   Client/Foreign common/connectionapi.h and common/connectionapi.cpp. Client/Handlers,
--   Agreement and Conversation are about the client's subscriptions at its broker, where control
--   messages arrive in order; Client/Online is about the worker's flag, Client/Requests and
--   Client/Asking about requests and replies. Client/Mixed has callbacks of several kinds on one
--   topic, Client/Typed has the templates of common/connectionmanager.h, and Client/Early
--   callbacks that are unregistered before `init`.
--   Adapter: bindings/qt/qtconnectionadapter.h. What the lambdas post is a list of events;
--   Adapter/Owned and Adapter/Removal are about contexts that are unregistered, Adapter/Ordering
--   about the order of what is posted.
--   Uuid: common/uuidhelper.h.
--   Inspector: inspector/mainwindow.cpp, inspector/packettablemodel.cpp,
--   inspector/inspectorworker.cpp and inspector/datamodel.h. Inspector/Filter is about the menu
--   of topics and the filter, Inspector/Rows about the rows that the view counts, Inspector/Table
--   is the table model by cells, Inspector/Accepting about its filter by rows; Inspector/Hex is
--   inspector/hexutils.h, Inspector/Tree inspector/protoutils.h with Tree/Reading and
--   Tree/Drawing about it. Inspector/Panes has the labels and the panes, and Inspector/Watching
--   is about what is seen of a broker.
--   Base: byte strings as lists of numbers, `std::to_string` and `std::stoi` (Base/Decimal),
--   association lists for maps (Base/Maps), and lemmas.
--
-- The broker's thread owns its state, so a handler is one step; other threads reach it through
-- the inbound queue and the table of links, whose calls are steps of their own in Broker/Reach. A
-- map, also the ordered one of the client's handlers, is an association list in the order of its
-- first insertions; no statement depends on the order of iteration. Times are nanoseconds of the
-- steady clock as natural numbers, and a difference that would be negative is 0, which no timeout
-- tells apart. Counters wrap at 2 ^ 64.
--
-- Bounds: a round drains the inbound queue in at most as many steps as it holds messages when the
-- round starts; what links push during the round is drained in a later one, except in
-- Broker/Drain, where the links push between the turns of the loop. `recv` drains a message in at
-- most a given number of frames.
--
-- Parameters: the header codec (protobuf), the packing of the statistics, fresh ids
-- (`generateUUID`), the clock, and the ZeroMQ sockets, whose documented behaviour is
-- `Wire.Atomic.IsMultipart` and `Wire.Receive.Delivers`. The inspector's tree takes protobuf's
-- reflection, the adapter Qt's strings and JSON. `Wire.Sample` is a codec that loses nothing.
-- `Broker.Network.Wiring` says where ZeroMQ's connections lead.
--
-- The user's callbacks are a parameter of `handle_message`, and `QString::toLower` of the filter.
--
-- Not modelled: the set-up of sockets and threads, logging, mutexes of the client, the
-- inspector's widgets, generated and third-party code.
pub mod Base
pub mod Registry
pub mod SafeQueue
pub mod Keys
pub mod Wire
pub mod Worker
pub mod Client
pub mod Adapter
pub mod Broker
pub mod Discovery
pub mod Uuid
pub mod Inspector
