-- ===== src/Registry/Counts.antt =====
-- What each operation of the registry does to the two sides of the mapping, by counting.
use mathlib.Core.Path.{◌≡◌, refl, ◌∙◌}
use zmq_pubsub_testing.Base.{
  ℕ, ◌+◌, ◌-◌, ◌≢◌, Bytes, Bytes-discrete, List, [], ◌∷◌, ◌++◌, some, ite, arith, count,
  count-append, contains, true, inl, inr, Bool-cases, Option-cases, if◌then◌else◌,
}
use zmq_pubsub_testing.Base.Maps.{Map, find, find-assign, find-erase}
use zmq_pubsub_testing.Registry.Sets.{
  place, remove, swap_remove, count-place, count-remove, count-swap_remove,
}
use zmq_pubsub_testing.Registry.{
  Registry, or_empty, keep_nonempty, subscribe, unsubscribe, drop_subscriber, drop_topics,
  remove_client,
}

-- The topics of a client and the subscribers of a topic, a missing key being an empty container.
abbrev pub topics : Registry → Bytes → List Bytes
topics r client = or_empty (find client r.client_topics)

abbrev pub subscribers : Registry → Bytes → List Bytes
subscribers r topic = or_empty (find topic r.topic_subscribers)

pub find-keep_nonempty :
    (k j : Bytes) (l : List Bytes) (m : Map (List Bytes))
    → or_empty (find j (keep_nonempty k l m)) ≡ ite (Bytes-discrete k j) l (or_empty (find j m))
find-keep_nonempty k j [] m = ground (arith, find-erase k j m)
find-keep_nonempty k j (x ∷ l) m = ground (arith, find-assign k j (x ∷ l) m)

pub keep_nonempty-live :
    (k j : Bytes) (l : List Bytes) (m : Map (List Bytes))
    → find j m ≢ some []
    → find j (keep_nonempty k l m) ≢ some []
keep_nonempty-live k j [] m h = ground (arith, find-erase k j m)
keep_nonempty-live k j (x ∷ l) m h = ground (arith, find-assign k j (x ∷ l) m)

pub subscribers-drop_subscriber :
    (r : Registry) (topic client t : Bytes)
    → subscribers (drop_subscriber r topic client) t
      ≡ ite (Bytes-discrete topic t) (swap_remove client (subscribers r topic)) (subscribers r t)
unfolding drop_subscriber swap_remove
subscribers-drop_subscriber r topic client t =
    elim (Option-cases (find topic r.topic_subscribers)) [
      | inl e ↦ ground arith
      | inr (subs, e) ↦
          ground (arith, find-keep_nonempty topic t (swap_remove client subs) r.topic_subscribers)
    ]

-- One for the pair that is meant, nothing for any other.
abbrev pub pair_count : Bytes → Bytes → Bytes → Bytes → ℕ
pair_count client topic c t = ite (Bytes-discrete client c) (ite (Bytes-discrete topic t) 1 0) 0

pub topics-subscribe :
    (r : Registry) (client topic c t : Bytes)
    → count t (topics (subscribe r client topic).0 c)
      ≡ (if contains topic (topics r client) then 0 else pair_count client topic c t)
        + count t (topics r c)
unfolding subscribe
topics-subscribe r client topic c t = elim (Bool-cases (contains topic (topics r client))) [
  | inl old ↦ rw old (ground (arith, find-assign client c (topics r client) r.client_topics))
  | inr new ↦ rw new (
      ground (
        arith,
        find-assign client c (place topic (topics r client)) r.client_topics,
        count-place t topic (topics r client),
      ))
]

pub subscribers-subscribe :
    (r : Registry) (client topic c t : Bytes)
    → count c (subscribers (subscribe r client topic).0 t)
      ≡ (if contains topic (topics r client) then 0 else pair_count client topic c t)
        + count c (subscribers r t)
unfolding subscribe count
subscribers-subscribe r client topic c t = elim (Bool-cases (contains topic (topics r client))) [
  | inl old ↦ rw old (ground arith)
  | inr new ↦ rw new (
      ground (
        arith,
        find-assign topic t (subscribers r topic ++ client ∷ []) r.topic_subscribers,
        count-append c (subscribers r topic) (client ∷ []),
      ))
]

pub client_topics-drop_subscriber :
    (r : Registry) (topic client : Bytes)
    → (drop_subscriber r topic client).client_topics ≡ r.client_topics
unfolding drop_subscriber
client_topics-drop_subscriber r topic client = ground arith

pub client_topics-drop_topics :
    (r : Registry) (l : List Bytes) (client : Bytes)
    → (drop_topics r l client).client_topics ≡ r.client_topics
unfolding drop_topics
client_topics-drop_topics r [] client = refl
client_topics-drop_topics r (topic ∷ l) client =
    client_topics-drop_topics (drop_subscriber r topic client) l client
    ∙ client_topics-drop_subscriber r topic client

count-subscribers-drop_subscriber :
    (r : Registry) (topic client c t : Bytes)
    → count c (subscribers (drop_subscriber r topic client) t)
      ≡ count c (subscribers r t) - pair_count client topic c t
count-subscribers-drop_subscriber r topic client c t = ground (
  arith,
  subscribers-drop_subscriber r topic client t,
  count-swap_remove c client (subscribers r topic),
)

subscribers-drop_topics :
    (r : Registry) (l : List Bytes) (client c t : Bytes)
    → count c (subscribers (drop_topics r l client) t)
      ≡ count c (subscribers r t) - ite (Bytes-discrete client c) (count t l) 0
unfolding drop_topics count
subscribers-drop_topics r [] client c t = ground arith
subscribers-drop_topics r (topic ∷ l) client c t = ground (
  arith,
  subscribers-drop_topics (drop_subscriber r topic client) l client c t,
  count-subscribers-drop_subscriber r topic client c t,
)

client_topics-unsubscribe :
    (r : Registry) (client topic : Bytes) (l : List Bytes)
    → find client r.client_topics ≡ some l
    → contains topic l ≡ true
    → (unsubscribe r client topic).0.client_topics
      ≡ keep_nonempty client (remove topic l) r.client_topics
unfolding unsubscribe
client_topics-unsubscribe r client topic l e h =
    rw (e, unsubscribe, h)
      (client_topics-drop_subscriber
        (record r { client_topics = keep_nonempty client (remove topic l) r.client_topics }) topic
        client)

pub topics-unsubscribe :
    (r : Registry) (client topic c t : Bytes)
    → count t (topics (unsubscribe r client topic).0 c)
      ≡ ite
          (Bytes-discrete client c)
          (ite (Bytes-discrete topic t) 0 (count t (topics r c)))
          (count t (topics r c))
topics-unsubscribe r client topic c t = elim (Option-cases (find client r.client_topics)) [
  | inl e ↦ unfold unsubscribe count in rw (e, unsubscribe) (ground arith)
  | inr (l, e) ↦ elim (Bool-cases (contains topic l)) [
    | inl h ↦ rw (client_topics-unsubscribe r client topic l e h) (
        ground (
          arith,
          find-keep_nonempty client c (remove topic l) r.client_topics,
          count-remove t topic l,
        ))
    | inr h ↦ unfold unsubscribe contains in rw (e, unsubscribe, h) (ground arith)
  ]
]

pub subscribers-unsubscribe :
    (r : Registry) (client topic c t : Bytes)
    → ((k j : Bytes) → count k (subscribers r j) ≡ count j (topics r k))
    → count c (subscribers (unsubscribe r client topic).0 t)
      ≡ count c (subscribers r t) - pair_count client topic c t
subscribers-unsubscribe r client topic c t agree =
    elim (Option-cases (find client r.client_topics)) [
      | inl e ↦ unfold unsubscribe count in rw (e, unsubscribe) (ground (arith, agree c t))
      | inr (l, e) ↦ elim (Bool-cases (contains topic l)) [
        | inl h ↦
            unfold unsubscribe in
            rw (e, unsubscribe, h)
              (count-subscribers-drop_subscriber
                (record r { client_topics = keep_nonempty client (remove topic l) r.client_topics })
                topic client c t)
        | inr h ↦ unfold unsubscribe contains in rw (e, unsubscribe, h) (ground (arith, agree c t))
      ]
    ]

pub topics-remove_client :
    (r : Registry) (client c : Bytes)
    → topics (remove_client r client) c ≡ ite (Bytes-discrete client c) [] (topics r c)
unfolding remove_client
topics-remove_client r client c = elim (Option-cases (find client r.client_topics)) [
  | inl e ↦ ground arith
  | inr (l, e) ↦
      ground (arith, client_topics-drop_topics r l client, find-erase client c r.client_topics)
]

pub subscribers-remove_client :
    (r : Registry) (client c t : Bytes)
    → count c (subscribers (remove_client r client) t)
      ≡ count c (subscribers r t) - ite (Bytes-discrete client c) (count t (topics r client)) 0
unfolding remove_client
subscribers-remove_client r client c t = elim (Option-cases (find client r.client_topics)) [
  | inl e ↦ unfold count in rw (e, remove_client) (ground arith)
  | inr (l, e) ↦ rw (e, remove_client) (ground (arith, subscribers-drop_topics r l client c t))
]
