-- ===== src/Registry.antt =====
-- server/subscriptionregistry.h: the client <-> topic mapping, kept in both directions.
pub mod Sets
pub mod Counts
pub mod Consistent
pub mod Refinement
mod Tests
use zmq_pubsub_testing.Base.{
  Bytes, List, [], ◌∷◌, ◌++◌, Bool, true, false, Option, none, some, contains, is_empty,
  if◌then◌else◌,
}
use zmq_pubsub_testing.Base.Maps.{Map, find, assign, erase}
use Sets.{place, remove, swap_remove}

pub record Registry : Type 0 where
  pub client_topics : Map (List Bytes)
  pub topic_subscribers : Map (List Bytes)

abbrev pub empty : Registry
empty = record { client_topics = []; topic_subscribers = [] }

-- What `operator[]` reads: a missing key stands for an empty container.
abbrev pub or_empty : Option (List Bytes) → List Bytes
or_empty none = []
or_empty (some l) = l

-- `subscribersOf` and `subscriptionsOf`: `none` is the null pointer.
abbrev pub subscribers_of : Registry → Bytes → Option (List Bytes)
subscribers_of r topic = find topic r.topic_subscribers

abbrev pub subscriptions_of : Registry → Bytes → Option (List Bytes)
subscriptions_of r client = find client r.client_topics

-- Returns whether a new subscription was created.
unfoldable pub subscribe : Registry → Bytes → Bytes → Registry × Bool
subscribe r client topic =
    let topics = or_empty (find client r.client_topics) in
    let subs = or_empty (find topic r.topic_subscribers) in
    if contains topic topics
    then (record r { client_topics = assign client topics r.client_topics }, false)
    else (
      record r {
        client_topics = assign client (place topic topics) r.client_topics;
        topic_subscribers = assign topic (subs ++ client ∷ []) r.topic_subscribers;
      },
      true,
    )

-- The map with `l` under `k`, or without `k` if `l` is empty.
abbrev pub keep_nonempty : Bytes → List Bytes → Map (List Bytes) → Map (List Bytes)
keep_nonempty k [] m = erase k m
keep_nonempty k (x ∷ l) m = assign k (x ∷ l) m

unfoldable pub drop_subscriber : Registry → Bytes → Bytes → Registry
drop_subscriber r topic client = elim (find topic r.topic_subscribers) [
  | none ↦ r
  | some subs ↦ record r {
    topic_subscribers = keep_nonempty topic (swap_remove client subs) r.topic_subscribers;
  }
]

-- Returns whether the subscription existed.
unfoldable pub unsubscribe : Registry → Bytes → Bytes → Registry × Bool
unsubscribe r client topic = elim (find client r.client_topics) [
  | none ↦ (r, false)
  | some topics ↦
      if contains topic topics
      then (
        drop_subscriber
            (record r {
              client_topics = keep_nonempty client (remove topic topics) r.client_topics;
            })
            topic client,
        true,
      )
      else (r, false)
]

-- The loop of `removeClient` over the client's topics.
unfoldable pub drop_topics : Registry → List Bytes → Bytes → Registry
drop_topics r [] client = r
drop_topics r (topic ∷ topics) client = drop_topics (drop_subscriber r topic client) topics client

unfoldable pub remove_client : Registry → Bytes → Registry
remove_client r client = elim (find client r.client_topics) [
  | none ↦ r
  | some topics ↦
      let dropped = drop_topics r topics client in
      record dropped { client_topics = erase client dropped.client_topics }
]
