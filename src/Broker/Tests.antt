-- ===== src/Broker/Tests.antt =====
-- Messages to the broker of Broker/Example.
use zmq_pubsub_testing.Base.{
  ◌≡◌, refl, ℕ, Bytes, Bytes-discrete, ℕ_discrete, true, false, [], ◌∷◌, codes, count, contains,
  bytes_lt, All,
}
use zmq_pubsub_testing.Base.Maps.{find, assign, erase}
use zmq_pubsub_testing.Keys
use zmq_pubsub_testing.Keys.{is_control_message}
use zmq_pubsub_testing.Registry
use zmq_pubsub_testing.Registry.Sets.{place, remove, swap_remove}
use zmq_pubsub_testing.Registry.Refinement.{subscribed}
use zmq_pubsub_testing.SafeQueue.{make}
use zmq_pubsub_testing.Wire.{encode_header}
use zmq_pubsub_testing.Broker.{
  Broker, remove_client, stamp, deliver_each, not_in, deliver_local, flood, route, handle_known,
  mark_seen, handle_local, handle_peer, process_message, is_connected,
}
use zmq_pubsub_testing.Broker.Dedup.{is_duplicate}
use zmq_pubsub_testing.Broker.Delivery.{delivered, forwarded}
use zmq_pubsub_testing.Broker.Verbatim.{IsVerbatim, route-IsVerbatim}
use zmq_pubsub_testing.Broker.Peers.{add_peer}
use zmq_pubsub_testing.Broker.Publish
use zmq_pubsub_testing.Broker.Reach.{init, Reach-IsValid}
use zmq_pubsub_testing.Broker.Valid.{IsValid}
use zmq_pubsub_testing.Broker.Example.{
  codec, alice, bob, news, hear, meeting, hello, linked, linked-Reach, meeting-IsValid,
}

program : Unit {0}
unfolding find assign erase count contains bytes_lt Bytes-discrete ℕ_discrete place remove
    swap_remove Registry.subscribe Registry.unsubscribe Registry.drop_subscriber
    Registry.drop_topics Registry.remove_client subscribed make encode_header remove_client stamp
    deliver_each not_in deliver_local flood route handle_known mark_seen handle_local handle_peer
    process_message is_duplicate init add_peer delivered forwarded Keys.connect Keys.disconnect
    Keys.reset Keys.heartbeat Keys.heartbeat_ack Keys.subscribe Keys.unsubscribe Keys.sys_stats
    is_control_message
program = tt

Reach-IsValid_example : IsValid linked
Reach-IsValid_example = Reach-IsValid (codes "broker-1") linked-Reach

subscribed-bob : subscribed meeting.subscriptions bob news ≡ true
unfolding program meeting
subscribed-bob = refl

-- Everything that the tests below evaluate.
facts :
    (is_connected meeting alice ≡ true)
    × (is_connected meeting bob ≡ true)
    × (is_connected meeting news ≡ false)
    × (is_control_message hello.handler_key ≡ false)
    × (contains hello.message_uuid meeting.history.seen ≡ false)
    × (is_control_message Keys.subscribe ≡ true)
unfolding program meeting
facts = (refl, refl, refl, refl, refl, refl)

publish-local_example :
    (delivered bob (process_message codec 5 (codes "u1") meeting hello [] alice false).1 ≡ 1)
    × (forwarded (codes "p") (process_message codec 5 (codes "u1") meeting hello [] alice false).1
        ≡ 1)
unfolding program meeting
publish-local_example =
    Publish.publish-local codec 5 (codes "u1") meeting hello [] alice bob (codes "p")
      meeting-IsValid refl refl refl

publish-peer_example :
    (delivered alice (process_message codec 5 (codes "u1") meeting hello [] (codes "PEER") true).1
      ≡ 1)
    × (forwarded
          (codes "p")
          (process_message codec 5 (codes "u1") meeting hello [] (codes "PEER") true).1
        ≡ 1)
unfolding program meeting
publish-peer_example =
    Publish.publish-peer codec 5 (codes "u1") meeting hello [] (codes "PEER") alice (codes "p")
      meeting-IsValid refl refl

-- The broker after it has routed the greeting.
abbrev greeted : Broker
greeted = hear meeting hello alice

abbrev first_byte : Bytes → ℕ
first_byte [] = 0
first_byte (x ∷ xs) = x

abbrev carol : Bytes
carol = codes "carol"

route-IsVerbatim_example :
    All
      (IsVerbatim (codes "x") (codes "y") (record { header = hello; payload = codes "y" }))
      (route meeting hello (codes "x") (codes "y") alice false).1
route-IsVerbatim_example = route-IsVerbatim meeting hello (codes "x") (codes "y") alice false
