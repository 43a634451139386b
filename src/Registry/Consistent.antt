-- ===== src/Registry/Consistent.antt =====
-- The two sides of the registry never drift apart.
use zmq_pubsub_testing.Base.{
  ◌≤◌, ◌≢◌, ◌≡◌, refl, Bytes, List, [], ◌∷◌, ◌++◌, some, arith, count, contains, inl, inr,
  Bool-cases, Option-cases,
}
use zmq_pubsub_testing.Base.Maps.{find, find-assign, find-erase}
use zmq_pubsub_testing.Registry.Sets.{place, remove, swap_remove}
use zmq_pubsub_testing.Registry.Counts.{
  topics, subscribers, topics-subscribe, subscribers-subscribe, topics-unsubscribe,
  subscribers-unsubscribe, topics-remove_client, subscribers-remove_client, keep_nonempty-live,
  client_topics-drop_subscriber, client_topics-drop_topics,
}
use zmq_pubsub_testing.Registry.{
  Registry, empty, keep_nonempty, subscribe, unsubscribe, drop_subscriber, drop_topics,
  remove_client,
}

-- Each subscription stands exactly once on either side or on neither, and no container is empty.
pub record IsConsistent (r : Registry) : Type 0 where
  pub agree :
      (client topic : Bytes) → count client (subscribers r topic) ≡ count topic (topics r client)
  pub once : (client topic : Bytes) → count topic (topics r client) ≤ 1
  pub live_topics : (topic : Bytes) → find topic r.topic_subscribers ≢ some []
  pub live_clients : (client : Bytes) → find client r.client_topics ≢ some []

pub empty-IsConsistent : IsConsistent empty
unfolding find count
empty-IsConsistent = record {
  agree = λ c t. refl;
  once = λ c t. omega arith;
  live_topics = λ t. ground arith;
  live_clients = λ c. ground arith;
}

drop_subscriber-live :
    (r : Registry) (topic client t : Bytes)
    → find t r.topic_subscribers ≢ some []
    → find t (drop_subscriber r topic client).topic_subscribers ≢ some []
unfolding drop_subscriber
drop_subscriber-live r topic client t h = elim (Option-cases (find topic r.topic_subscribers)) [
  | inl e ↦ rw (e, drop_subscriber) h
  | inr (subs, e) ↦
      rw (e, drop_subscriber)
        (keep_nonempty-live topic t (swap_remove client subs) r.topic_subscribers h)
]

drop_topics-live :
    (r : Registry) (l : List Bytes) (client t : Bytes)
    → find t r.topic_subscribers ≢ some []
    → find t (drop_topics r l client).topic_subscribers ≢ some []
unfolding drop_topics
drop_topics-live r [] client t h = h
drop_topics-live r (topic ∷ l) client t h =
    drop_topics-live (drop_subscriber r topic client) l client t
      (drop_subscriber-live r topic client t h)

-- A place in a set or vector leaves it non-empty.
place-ne-nil : (x : Bytes) (xs : List Bytes) → place x xs ≢ []
unfolding place
place-ne-nil x [] = ground arith
place-ne-nil x (y ∷ ys) = ground arith

append-ne-nil : (xs : List Bytes) (x : Bytes) → xs ++ x ∷ [] ≢ []
append-ne-nil [] x = ground arith
append-ne-nil (y ∷ ys) x = ground arith

subscribe-live_clients :
    (r : Registry) (client topic c : Bytes)
    → find c r.client_topics ≢ some []
    → find c (subscribe r client topic).0.client_topics ≢ some []
unfolding subscribe
subscribe-live_clients r client topic c h = elim (Bool-cases (contains topic (topics r client))) [
  | inl old ↦
      unfold contains count in
      ground (arith, find-assign client c (topics r client) r.client_topics)
  | inr new ↦ ground (
    arith,
    find-assign client c (place topic (topics r client)) r.client_topics,
    place-ne-nil topic (topics r client),
  )
]

subscribe-live_topics :
    (r : Registry) (client topic t : Bytes)
    → find t r.topic_subscribers ≢ some []
    → find t (subscribe r client topic).0.topic_subscribers ≢ some []
unfolding subscribe
subscribe-live_topics r client topic t h = ground (
  arith,
  find-assign topic t (subscribers r topic ++ client ∷ []) r.topic_subscribers,
  append-ne-nil (subscribers r topic) client,
)

pub subscribe-IsConsistent :
    (r : Registry) (client topic : Bytes)
    → IsConsistent r
    → IsConsistent (subscribe r client topic).0
subscribe-IsConsistent r client topic v = record {
  agree = λ c t. ground (
    arith,
    topics-subscribe r client topic c t,
    subscribers-subscribe r client topic c t,
    v.agree c t,
  );
  once = λ c t. unfold contains in ground (arith, topics-subscribe r client topic c t, v.once c t);
  live_topics = λ t. subscribe-live_topics r client topic t (v.live_topics t);
  live_clients = λ c. subscribe-live_clients r client topic c (v.live_clients c);
}

unsubscribe-live_topics :
    (r : Registry) (client topic t : Bytes)
    → find t r.topic_subscribers ≢ some []
    → find t (unsubscribe r client topic).0.topic_subscribers ≢ some []
unfolding unsubscribe
unsubscribe-live_topics r client topic t h = elim (Option-cases (find client r.client_topics)) [
  | inl e ↦ rw (e, unsubscribe) h
  | inr (l, e) ↦ ground (
    arith,
    drop_subscriber-live
        (record r { client_topics = keep_nonempty client (remove topic l) r.client_topics }) topic
        client t h,
  )
]

unsubscribe-live_clients :
    (r : Registry) (client topic c : Bytes)
    → find c r.client_topics ≢ some []
    → find c (unsubscribe r client topic).0.client_topics ≢ some []
unfolding unsubscribe
unsubscribe-live_clients r client topic c h = elim (Option-cases (find client r.client_topics)) [
  | inl e ↦ rw (e, unsubscribe) h
  | inr (l, e) ↦ ground (
    arith,
    client_topics-drop_subscriber
        (record r { client_topics = keep_nonempty client (remove topic l) r.client_topics }) topic
        client,
    keep_nonempty-live client c (remove topic l) r.client_topics h,
  )
]

pub unsubscribe-IsConsistent :
    (r : Registry) (client topic : Bytes)
    → IsConsistent r
    → IsConsistent (unsubscribe r client topic).0
unsubscribe-IsConsistent r client topic v = record {
  agree = λ c t. ground (
    arith,
    topics-unsubscribe r client topic c t,
    subscribers-unsubscribe r client topic c t v.agree,
    v.agree c t,
    v.once c t,
  );
  once = λ c t. ground (arith, topics-unsubscribe r client topic c t, v.once c t);
  live_topics = λ t. unsubscribe-live_topics r client topic t (v.live_topics t);
  live_clients = λ c. unsubscribe-live_clients r client topic c (v.live_clients c);
}

remove_client-live_topics :
    (r : Registry) (client t : Bytes)
    → find t r.topic_subscribers ≢ some []
    → find t (remove_client r client).topic_subscribers ≢ some []
unfolding remove_client
remove_client-live_topics r client t h = elim (Option-cases (find client r.client_topics)) [
  | inl e ↦ rw (e, remove_client) h
  | inr (l, e) ↦ rw (e, remove_client) (drop_topics-live r l client t h)
]

remove_client-live_clients :
    (r : Registry) (client c : Bytes)
    → find c r.client_topics ≢ some []
    → find c (remove_client r client).client_topics ≢ some []
unfolding remove_client
remove_client-live_clients r client c h = elim (Option-cases (find client r.client_topics)) [
  | inl e ↦ rw (e, remove_client) h
  | inr (l, e) ↦
      ground (arith, client_topics-drop_topics r l client, find-erase client c r.client_topics)
]

pub remove_client-IsConsistent :
    (r : Registry) (client : Bytes) → IsConsistent r → IsConsistent (remove_client r client)
remove_client-IsConsistent r client v = record {
  agree = λ c t.
      unfold count in
      ground (
        arith,
        topics-remove_client r client c,
        subscribers-remove_client r client c t,
        v.agree c t,
      );
  once = λ c t. unfold count in ground (arith, topics-remove_client r client c, v.once c t);
  live_topics = λ t. remove_client-live_topics r client t (v.live_topics t);
  live_clients = λ c. remove_client-live_clients r client c (v.live_clients c);
}
