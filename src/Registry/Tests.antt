-- ===== src/Registry/Tests.antt =====
-- The registry at concrete inputs.
use zmq_pubsub_testing.Base.{
  ◌≡◌, refl, Bytes, Bytes-discrete, ℕ_discrete, List, [], ◌∷◌, codes, count, contains, bytes_lt,
  some,
}
use zmq_pubsub_testing.Base.Maps.{find, assign, erase}
use zmq_pubsub_testing.Registry.Sets.{place, remove, swap_remove}
use zmq_pubsub_testing.Registry.{
  empty, subscribe, unsubscribe, drop_subscriber, drop_topics, remove_client, subscribers_of,
  subscriptions_of,
}
use zmq_pubsub_testing.Registry.Counts.{topics, subscribers}
use zmq_pubsub_testing.Registry.Refinement.{
  Op, subscribes, unsubscribes, removes, apply, run, run-spec, subscribed,
}

program : Unit {0}
unfolding subscribe unsubscribe drop_subscriber drop_topics remove_client place remove swap_remove
    find assign erase count contains bytes_lt Bytes-discrete ℕ_discrete apply run subscribed
program = tt

abbrev alice : Bytes
alice = codes "alice"

abbrev bob : Bytes
bob = codes "bob"

abbrev carol : Bytes
carol = codes "carol"

abbrev news : Bytes
news = codes "news"

abbrev alerts : Bytes
alerts = codes "alerts"

abbrev history : List Op
history =
    subscribes alice news
    ∷ subscribes bob news
    ∷ subscribes carol news
    ∷ subscribes alice alerts
    ∷ unsubscribes alice news
    ∷ removes carol
    ∷ []

-- The topics of a client are in order; removal puts the last subscriber in the gap.
topics_sorted :
    subscriptions_of (run (subscribes alice news ∷ subscribes alice alerts ∷ []) empty) alice
    ≡ some (alerts ∷ news ∷ [])
unfolding program
topics_sorted = refl

swap_with_back :
    subscribers_of
      (run
        (subscribes alice news
          ∷ subscribes bob news
          ∷ subscribes carol news
          ∷ unsubscribes alice news
          ∷ [])
        empty)
      news
    ≡ some (carol ∷ bob ∷ [])
unfolding program
swap_with_back = refl

history_end : run history empty ≡ record {
  client_topics = (alice, alerts ∷ []) ∷ (bob, news ∷ []) ∷ [];
  topic_subscribers = (news, bob ∷ []) ∷ (alerts, alice ∷ []) ∷ [];
}
unfolding program
history_end = refl

run-spec_example :
    (count bob (subscribers (run history empty) news) ≡ 1)
    × (count news (topics (run history empty) bob) ≡ 1)
unfolding program
run-spec_example = run-spec history bob news
