-- ===== src/Registry/Refinement.antt =====
-- The registry as a relation between clients and topics.
use zmq_pubsub_testing.Base.{
  ◌≡◌, refl, Bytes, List, [], ◌∷◌, arith, Bool, false, not, ◌&&◌, ◌||◌, count, contains,
  if◌then◌else◌, text_eq, ap, ◌∙◌, subst, fun_ext,
}
use zmq_pubsub_testing.Base.Maps.{find}
use zmq_pubsub_testing.Registry.Counts.{
  topics, subscribers, topics-subscribe, topics-unsubscribe, topics-remove_client,
}
use zmq_pubsub_testing.Registry.Consistent.{
  IsConsistent, subscribe-IsConsistent, unsubscribe-IsConsistent, remove_client-IsConsistent,
  empty-IsConsistent,
}
use zmq_pubsub_testing.Registry.{Registry, empty, subscribe, unsubscribe, remove_client}

-- Does the client subscribe to the topic?
unfoldable pub subscribed : Registry → Bytes → Bytes → Bool
subscribed r client topic = contains topic (topics r client)

pub data Op : Type 0 where
  subscribes unsubscribes : Bytes → Bytes → Op
  removes : Bytes → Op

unfoldable pub apply : Op → Registry → Registry
apply (subscribes client topic) r = (subscribe r client topic).0
apply (unsubscribes client topic) r = (unsubscribe r client topic).0
apply (removes client) r = remove_client r client

unfoldable pub run : List Op → Registry → Registry
run [] r = r
run (op ∷ ops) r = run ops (apply op r)

-- The specification: the set of pairs after one operation.
abbrev pub after : Op → (Bytes → Bytes → Bool) → Bytes → Bytes → Bool
after (subscribes client topic) s c t = (text_eq client c && text_eq topic t) || s c t
after (unsubscribes client topic) s c t = not (text_eq client c && text_eq topic t) && s c t
after (removes client) s c t = not (text_eq client c) && s c t

-- The registry's subscribe returns true exactly if the client did not subscribe to the topic
-- before.
pub subscribe-reports :
    (r : Registry) (client topic : Bytes)
    → (subscribe r client topic).1 ≡ not (subscribed r client topic)
unfolding subscribe subscribed
subscribe-reports r client topic = ground arith

pub unsubscribe-reports :
    (r : Registry) (client topic : Bytes)
    → (unsubscribe r client topic).1 ≡ subscribed r client topic
unfolding unsubscribe subscribed contains count
unsubscribe-reports r client topic = ground arith

pub apply-after :
    (op : Op) (r : Registry) (c t : Bytes)
    → subscribed (apply op r) c t ≡ after op (subscribed r) c t
unfolding subscribed apply contains count
apply-after (subscribes client topic) r c t = ground (arith, topics-subscribe r client topic c t)
apply-after (unsubscribes client topic) r c t =
    ground (arith, topics-unsubscribe r client topic c t)
apply-after (removes client) r c t = ground (arith, topics-remove_client r client c)

pub apply-IsConsistent : (op : Op) (r : Registry) → IsConsistent r → IsConsistent (apply op r)
unfolding apply
apply-IsConsistent (subscribes client topic) r v = subscribe-IsConsistent r client topic v
apply-IsConsistent (unsubscribes client topic) r v = unsubscribe-IsConsistent r client topic v
apply-IsConsistent (removes client) r v = remove_client-IsConsistent r client v

pub run-IsConsistent : (ops : List Op) (r : Registry) → IsConsistent r → IsConsistent (run ops r)
unfolding run
run-IsConsistent [] r v = v
run-IsConsistent (op ∷ ops) r v = run-IsConsistent ops (apply op r) (apply-IsConsistent op r v)

abbrev pub spec : List Op → (Bytes → Bytes → Bool) → Bytes → Bytes → Bool
spec [] s = s
spec (op ∷ ops) s = spec ops (after op s)

apply-after_ext : (op : Op) (r : Registry) → subscribed (apply op r) ≡ after op (subscribed r)
apply-after_ext op r = fun_ext (λ c. fun_ext (λ t. apply-after op r c t))

subscribed-run : (ops : List Op) (r : Registry) → subscribed (run ops r) ≡ spec ops (subscribed r)
unfolding run
subscribed-run [] r = refl
subscribed-run (op ∷ ops) r = subscribed-run ops (apply op r) ∙ ap (spec ops) (apply-after_ext op r)

-- No client subscribes to anything.
abbrev pub nothing : Bytes → Bytes → Bool
nothing c t = false

subscribed-empty : subscribed empty ≡ nothing
unfolding subscribed find contains count
subscribed-empty = refl

count-subscribed :
    (r : Registry) (c t : Bytes)
    → IsConsistent r
    → count t (topics r c) ≡ (if subscribed r c t then 1 else 0)
unfolding subscribed contains
count-subscribed r c t v = ground (arith, v.once c t)

-- After any sequence of subscribe, unsubscribe and removeClient on an empty registry, the two
-- maps both represent the set of pairs that the sequence specifies: the client stands in the
-- topic's vector once if the pair is in the set and not at all otherwise, and so does the topic
-- in the client's set.
pub run-spec :
    (ops : List Op) (c t : Bytes)
    → (count c (subscribers (run ops empty) t) ≡ (if spec ops nothing c t then 1 else 0))
      × (count t (topics (run ops empty) c) ≡ (if spec ops nothing c t then 1 else 0))
run-spec ops c t =
    let v = run-IsConsistent ops empty empty-IsConsistent in
    let s = subscribed-run ops empty ∙ ap (spec ops) subscribed-empty in
    let q =
      subst (λ f. count t (topics (run ops empty) c) ≡ (if f c t then 1 else 0)) s
        (count-subscribed (run ops empty) c t v) in
    (v.agree c t ∙ q, q)
