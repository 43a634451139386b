-- ===== src/Broker/Effects.antt =====
-- server/zmqbroker.cpp: what a message of any kind does to a client's subscriptions and to its
-- place in the table.
use zmq_pubsub_testing.Base.{
  ℕ, ◌≡◌, ◌≢◌, Bytes, Bool, true, false, ◌&&◌, if◌then◌else◌, arith, text_eq,
}
use zmq_pubsub_testing.Base.Maps.{find-erase, find-assign}
use zmq_pubsub_testing.Keys
use zmq_pubsub_testing.Registry.Refinement.{subscribed}
use zmq_pubsub_testing.Wire.{Header, Codec, encode_header}
use zmq_pubsub_testing.Broker.Valid.{
  subscribed-remove_client, subscribed-subscribe, subscribed-unsubscribe,
}
use zmq_pubsub_testing.Broker.Publish.{topic-stamp, key-stamp}
use zmq_pubsub_testing.Broker.{
  Broker, remove_client, mark_seen, stamp, route, handle_known, handle_local, handle_peer,
  process_message, is_connected,
}

route-tables :
    (b : Broker) (h : Header) (bytes payload sender : Bytes) (from_peer : Bool)
    → ((route b h bytes payload sender from_peer).0.subscriptions ≡ b.subscriptions)
      × ((route b h bytes payload sender from_peer).0.clients ≡ b.clients)
unfolding route
route-tables b h bytes payload sender from_peer = ground arith

-- A message from a peer changes neither.
pub peer-tables :
    (codec : Codec) (now : ℕ) (fresh : Bytes) (b : Broker) (h : Header) (payload sender : Bytes)
    → ((process_message codec now fresh b h payload sender true).0.subscriptions ≡ b.subscriptions)
      × ((process_message codec now fresh b h payload sender true).0.clients ≡ b.clients)
unfolding process_message handle_peer
peer-tables codec now fresh b h payload sender = ground (
  arith,
  route-tables b (stamp b fresh h) (encode_header codec (stamp b fresh h)) payload sender true,
)

-- What a SUBSCRIBE or an UNSUBSCRIBE of the topic `t` says of it.
abbrev pub says : Bytes → Bytes → Bytes → Bool → Bool
says key topic t now =
    if text_eq key Keys.subscribe && text_eq topic t
    then true
    else if text_eq key Keys.unsubscribe && text_eq topic t
    then false
    else now

-- A connected client's message, other than DISCONNECT, does to its subscriptions what it says.
pub own-subscribed :
    (codec : Codec) (now : ℕ) (fresh : Bytes) (b : Broker) (h : Header) (payload c t : Bytes)
    → is_connected b c ≡ true
    → h.handler_key ≢ Keys.disconnect
    → let b' = (process_message codec now fresh b h payload c false).0 in
      (subscribed b'.subscriptions c t
        ≡ says h.handler_key h.topic t (subscribed b.subscriptions c t))
      × (is_connected b' c ≡ true)
unfolding process_message handle_local handle_known mark_seen
own-subscribed codec now fresh b h payload c t here key = ground (
  arith,
  key-stamp b fresh h,
  topic-stamp b fresh h,
  Keys.subscribe-ne-connect,
  Keys.subscribe-ne-heartbeat,
  Keys.unsubscribe-ne-connect,
  Keys.unsubscribe-ne-heartbeat,
  Keys.unsubscribe-ne-subscribe,
  subscribed-subscribe b.subscriptions c h.topic c t,
  subscribed-unsubscribe b.subscriptions c h.topic c t,
  find-assign c c (record { identity = c; last_seen = now }) b.clients,
  route-tables (mark_seen b c now) (stamp b fresh h) (encode_header codec (stamp b fresh h)) payload
      c false,
)

-- Another local client's message leaves them alone.
pub other-subscribed :
    (codec : Codec) (now : ℕ) (fresh : Bytes) (b : Broker) (h : Header) (payload sender c t : Bytes)
    → sender ≢ c
    → let b' = (process_message codec now fresh b h payload sender false).0 in
      (subscribed b'.subscriptions c t ≡ subscribed b.subscriptions c t)
      × (is_connected b' c ≡ is_connected b c)
unfolding process_message handle_local handle_known mark_seen remove_client
other-subscribed codec now fresh b h payload sender c t differ = ground (
  arith,
  subscribed-remove_client b.subscriptions sender c t,
  subscribed-subscribe b.subscriptions sender (stamp b fresh h).topic c t,
  subscribed-unsubscribe b.subscriptions sender (stamp b fresh h).topic c t,
  find-assign sender c (record { identity = sender; last_seen = now }) b.clients,
  find-erase sender c b.clients,
  route-tables (mark_seen b sender now) (stamp b fresh h) (encode_header codec (stamp b fresh h))
      payload sender false,
)
