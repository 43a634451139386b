-- ===== src/Broker/Delivery.antt =====
-- server/zmqbroker.cpp: who gets a message that `processMessage` routes.
use zmq_pubsub_testing.Base.{
  ℕ, ◌+◌, ◌≡◌, refl, ◌∙◌, ap, Bytes, Bool, true, false, ◌&&◌, ◌||◌, not, List, [], ◌∷◌, ◌++◌,
  if◌then◌else◌, arith, count, contains, text_eq,
}
use zmq_pubsub_testing.Base.Maps.{keys}
use zmq_pubsub_testing.Registry.Refinement.{subscribed}
use zmq_pubsub_testing.Broker.Dedup.{is_duplicate, is_duplicate-contains, is_duplicate-old}
use zmq_pubsub_testing.Broker.Valid.{IsValid, history-IsValid}
use zmq_pubsub_testing.Wire.{Header, Envelope}
use zmq_pubsub_testing.Broker.{
  Broker, Output, tap, deliver, forward, deliver_each, not_in, exact_subs, wildcard_subs,
  deliver_local, flood, route, is_connected,
}

-- How many messages go to a client, and to a peer link.
unfoldable pub delivered : Bytes → List Output → ℕ
delivered c [] = 0
delivered c (tap h p ∷ outs) = delivered c outs
delivered c (deliver id h p ∷ outs) = (if text_eq id c then 1 else 0) + delivered c outs
delivered c (forward k e ∷ outs) = delivered c outs

unfoldable pub forwarded : Bytes → List Output → ℕ
forwarded k [] = 0
forwarded k (tap h p ∷ outs) = forwarded k outs
forwarded k (deliver id h p ∷ outs) = forwarded k outs
forwarded k (forward key e ∷ outs) = (if text_eq key k then 1 else 0) + forwarded k outs

delivered-append :
    (c : Bytes) (xs ys : List Output) → delivered c (xs ++ ys) ≡ delivered c xs + delivered c ys
unfolding delivered
delivered-append c [] ys = omega arith
delivered-append c (tap h p ∷ xs) ys = delivered-append c xs ys
delivered-append c (deliver id h p ∷ xs) ys = omega (arith, delivered-append c xs ys)
delivered-append c (forward k e ∷ xs) ys = delivered-append c xs ys

forwarded-append :
    (k : Bytes) (xs ys : List Output) → forwarded k (xs ++ ys) ≡ forwarded k xs + forwarded k ys
unfolding forwarded
forwarded-append k [] ys = omega arith
forwarded-append k (tap h p ∷ xs) ys = forwarded-append k xs ys
forwarded-append k (deliver id h p ∷ xs) ys = forwarded-append k xs ys
forwarded-append k (forward key e ∷ xs) ys = omega (arith, forwarded-append k xs ys)

-- Is the client skipped by the lambda `deliver`?
abbrev pub skipped : Broker → Bool → Bytes → Bytes → Bool
skipped b from_peer sender c = (not from_peer && text_eq c sender) || not (is_connected b c)

delivered-deliver_each :
    (b : Broker) (from_peer : Bool) (sender bytes payload c : Bytes) (ids : List Bytes)
    → delivered c (deliver_each b from_peer sender bytes payload ids)
      ≡ (if skipped b from_peer sender c then 0 else count c ids)
unfolding delivered deliver_each count
delivered-deliver_each b from_peer sender bytes payload c [] = ground arith
delivered-deliver_each b from_peer sender bytes payload c (id ∷ ids) =
    ground (arith, delivered-deliver_each b from_peer sender bytes payload c ids)

forwarded-deliver_each :
    (b : Broker) (from_peer : Bool) (sender bytes payload k : Bytes) (ids : List Bytes)
    → forwarded k (deliver_each b from_peer sender bytes payload ids) ≡ 0
unfolding forwarded deliver_each
forwarded-deliver_each b from_peer sender bytes payload k [] = refl
forwarded-deliver_each b from_peer sender bytes payload k (id ∷ ids) =
    ground (arith, forwarded-deliver_each b from_peer sender bytes payload k ids)

count-not_in :
    (c : Bytes) (exact ids : List Bytes)
    → count c (not_in exact ids) ≡ (if contains c exact then 0 else count c ids)
unfolding count not_in
count-not_in c exact [] = ground arith
count-not_in c exact (id ∷ ids) = ground (arith, count-not_in c exact ids)

delivered-flood :
    (c : Bytes) (links : List Bytes) (env : Envelope) → delivered c (flood links env) ≡ 0
unfolding delivered flood
delivered-flood c [] env = refl
delivered-flood c (k ∷ links) env = delivered-flood c links env

forwarded-flood :
    (k : Bytes) (links : List Bytes) (env : Envelope)
    → forwarded k (flood links env) ≡ count k links
unfolding forwarded flood count
forwarded-flood k [] env = refl
forwarded-flood k (j ∷ links) env = ground (arith, forwarded-flood k links env)

-- A subscriber of the topic or of every topic.
abbrev pub wants : Broker → Bytes → Bytes → Bool
wants b c topic = subscribed b.subscriptions c topic || subscribed b.subscriptions c []

-- Does a subscriber count, at most once?
pub count-exact_subs :
    (b : Broker) (c topic : Bytes)
    → IsValid b
    → count c (exact_subs b topic) ≡ (if subscribed b.subscriptions c topic then 1 else 0)
unfolding subscribed contains
count-exact_subs b c topic v = ground (arith, v.registry.agree c topic, v.registry.once c topic)

count-audience :
    (b : Broker) (c topic : Bytes)
    → IsValid b
    → count c (exact_subs b topic) + count c (not_in (exact_subs b topic) (wildcard_subs b topic))
      ≡ (if wants b c topic then 1 else 0)
unfolding contains count
count-audience b c [] v =
    ground (arith, count-exact_subs b c [] v, count-not_in c (exact_subs b []) [])
count-audience b c (x ∷ xs) v = ground (
  arith,
  count-exact_subs b c (x ∷ xs) v,
  count-exact_subs b c [] v,
  count-not_in c (exact_subs b (x ∷ xs)) (exact_subs b []),
)

-- Everyone who wants the topic, except a local sender.
abbrev pub receives : Broker → Bool → Bytes → Bytes → Bytes → Bool
receives b from_peer sender topic c = wants b c topic && not (not from_peer && text_eq c sender)

wants-connected :
    (b : Broker) (c topic : Bytes) → IsValid b → wants b c topic ≡ true → is_connected b c ≡ true
wants-connected b c topic v h = ground (arith, v.known c topic, v.known c [])

delivered-deliver_local :
    (b : Broker) (h : Header) (bytes payload sender c : Bytes) (from_peer : Bool)
    → IsValid b
    → delivered c (deliver_local b h bytes payload sender from_peer)
      ≡ (if receives b from_peer sender h.topic c then 1 else 0)
unfolding deliver_local
delivered-deliver_local b h bytes payload sender c from_peer v =
    let exact = exact_subs b h.topic in
    let wild = not_in exact (wildcard_subs b h.topic) in
    delivered-append c (deliver_each b from_peer sender bytes payload exact)
      (deliver_each b from_peer sender bytes payload wild)
    ∙ ground (
      arith,
      delivered-deliver_each b from_peer sender bytes payload c exact,
      delivered-deliver_each b from_peer sender bytes payload c wild,
      count-audience b c h.topic v,
      wants-connected b c h.topic v,
    )

forwarded-deliver_local :
    (b : Broker) (h : Header) (bytes payload sender k : Bytes) (from_peer : Bool)
    → forwarded k (deliver_local b h bytes payload sender from_peer) ≡ 0
unfolding deliver_local
forwarded-deliver_local b h bytes payload sender k from_peer =
    let exact = exact_subs b h.topic in
    let wild = not_in exact (wildcard_subs b h.topic) in
    omega (
      arith,
      forwarded-append k (deliver_each b from_peer sender bytes payload exact)
          (deliver_each b from_peer sender bytes payload wild),
      forwarded-deliver_each b from_peer sender bytes payload k exact,
      forwarded-deliver_each b from_peer sender bytes payload k wild,
    )

-- A message whose id is not in the window: each receiver gets it once, and so does each link.
pub route-delivers :
    (b : Broker) (h : Header) (bytes payload sender c k : Bytes) (from_peer : Bool)
    → IsValid b
    → contains h.message_uuid b.history.seen ≡ false
    → (delivered c (route b h bytes payload sender from_peer).1
        ≡ (if receives b from_peer sender h.topic c then 1 else 0))
      × (forwarded k (route b h bytes payload sender from_peer).1 ≡ count k (keys b.peers))
unfolding route
route-delivers b h bytes payload sender c k from_peer v new =
    let b' = record b { history = (is_duplicate b.history h.message_uuid).0 } in
    let env : Envelope = record { header = h; payload = payload } in
    let v' = history-IsValid b h.message_uuid v in
    let local = deliver_local b' h bytes payload sender from_peer in
    let links = flood (keys b.peers) env in
    rw (route, is_duplicate-contains b.history h.message_uuid ∙ new)
      (
        omega (
          arith,
          delivered-append c local links,
          delivered-deliver_local b' h bytes payload sender c from_peer v',
          delivered-flood c (keys b.peers) env,
        ),
        omega (
          arith,
          forwarded-append k local links,
          forwarded-deliver_local b' h bytes payload sender k from_peer,
          forwarded-flood k (keys b.peers) env,
        ),
      )

-- A message whose id is in the window is dropped, and the state stays as it is.
pub route-drops :
    (b : Broker) (h : Header) (bytes payload sender : Bytes) (from_peer : Bool)
    → contains h.message_uuid b.history.seen ≡ true
    → route b h bytes payload sender from_peer ≡ (b, [])
unfolding route
route-drops b h bytes payload sender from_peer old =
    rw (route, is_duplicate-contains b.history h.message_uuid ∙ old)
      (ap (λ x. (record b { history = x }, [])) (is_duplicate-old b.history h.message_uuid old))
