-- ===== src/Broker/Valid.antt =====
-- server/zmqbroker.cpp: the invariant of the broker's state, and the handlers of messages.
use zmq_pubsub_testing.Base.{
  ℕ, ◌≤◌, ◌≡◌, Bytes, Bool, true, false, ◌&&◌, ◌||◌, not, List, if_both, arith, count, text_eq,
  Bool-cases, inl, inr,
}
use zmq_pubsub_testing.Base.Maps.{
  Map, keys, find-assign, find-erase, count-keys, count-keys-assign, count-keys-erase,
}
use zmq_pubsub_testing.Registry
use zmq_pubsub_testing.Registry.Consistent.{
  IsConsistent, subscribe-IsConsistent, unsubscribe-IsConsistent, remove_client-IsConsistent,
}
use zmq_pubsub_testing.Registry.Refinement.{
  subscribed, apply, apply-after, subscribes, unsubscribes, removes,
}
use zmq_pubsub_testing.Broker.Dedup.{IsWindow, is_duplicate, is_duplicate-IsWindow}
use zmq_pubsub_testing.SafeQueue.{Queue}
use zmq_pubsub_testing.Wire.{Header, Envelope, Codec}
use zmq_pubsub_testing.Broker.{
  Broker, ClientState, Link, Stats, Output, remove_client, mark_seen, stamp, route, handle_known,
  handle_local, handle_peer, process_message, is_connected,
}

pub record IsValid (b : Broker) : Type 0 where
  pub registry : IsConsistent b.subscriptions
  pub window : IsWindow b.history
  -- Only connected clients subscribe.
  pub known : (c t : Bytes) → subscribed b.subscriptions c t ≡ true → is_connected b c ≡ true
  -- No client stands twice in the table.
  pub once : (c : Bytes) → count c (keys b.clients) ≤ 1

-- The invariant does not look at the links, the queue, the times and the counters.
pub same_tables :
    {b : Broker}
    → IsValid b
    → (running : Bool) (peers : Map Link) (q : Queue Envelope) (start stats_time clean : ℕ)
      (s : Stats)
    → IsValid (record b {
      running = running;
      peers = peers;
      peer_inbound = q;
      start_time = start;
      last_stats_time = stats_time;
      last_cleanup = clean;
      stats = s;
    })
same_tables v running peers q start stats_time clean s = record {
  registry = v.registry;
  window = v.window;
  known = v.known;
  once = v.once;
}

pub subscribed-subscribe :
    (r : Registry.Registry) (client topic c t : Bytes)
    → subscribed (Registry.subscribe r client topic).0 c t
      ≡ ((text_eq client c && text_eq topic t) || subscribed r c t)
subscribed-subscribe r client topic c t =
    unfold apply in apply-after (subscribes client topic) r c t

pub subscribed-unsubscribe :
    (r : Registry.Registry) (client topic c t : Bytes)
    → subscribed (Registry.unsubscribe r client topic).0 c t
      ≡ (not (text_eq client c && text_eq topic t) && subscribed r c t)
subscribed-unsubscribe r client topic c t =
    unfold apply in apply-after (unsubscribes client topic) r c t

pub subscribed-remove_client :
    (r : Registry.Registry) (client c t : Bytes)
    → subscribed (Registry.remove_client r client) c t
      ≡ (not (text_eq client c) && subscribed r c t)
subscribed-remove_client r client c t = unfold apply in apply-after (removes client) r c t

pub remove_client-IsValid : (b : Broker) (id : Bytes) → IsValid b → IsValid (remove_client b id)
unfolding remove_client
remove_client-IsValid b id v = record {
  registry = remove_client-IsConsistent b.subscriptions id v.registry;
  window = v.window;
  known = λ c t h. ground (
    arith,
    v.known c t,
    subscribed-remove_client b.subscriptions id c t,
    find-erase id c b.clients,
  );
  once = λ c. ground (arith, v.once c, count-keys-erase id c b.clients);
}

pub mark_seen-IsValid :
    (b : Broker) (id : Bytes) (now : ℕ) → IsValid b → IsValid (mark_seen b id now)
unfolding mark_seen
mark_seen-IsValid b id now v =
    let state : ClientState = record { identity = id; last_seen = now } in
    record {
      registry = v.registry;
      window = v.window;
      known = λ c t h. ground (arith, v.known c t, find-assign id c state b.clients);
      once = λ c.
          ground (arith, v.once c, count-keys-assign id c state b.clients, count-keys id b.clients);
    }

is_connected-mark_seen :
    (b : Broker) (id : Bytes) (now : ℕ) → is_connected (mark_seen b id now) id ≡ true
unfolding mark_seen
is_connected-mark_seen b id now =
    ground (arith, find-assign id id (record { identity = id; last_seen = now }) b.clients)

pub history-IsValid :
    (b : Broker) (u : Bytes)
    → IsValid b
    → IsValid (record b { history = (is_duplicate b.history u).0 })
history-IsValid b u v = record {
  registry = v.registry;
  window = is_duplicate-IsWindow b.history u v.window;
  known = v.known;
  once = v.once;
}

route-IsValid :
    (b : Broker) (h : Header) (bytes payload sender : Bytes) (from_peer : Bool)
    → IsValid b
    → IsValid (route b h bytes payload sender from_peer).0
unfolding route
route-IsValid b h bytes payload sender from_peer v =
    let moved = history-IsValid b h.message_uuid v in
    elim (Bool-cases (is_duplicate b.history h.message_uuid).1) [
      | inl old ↦ rw old moved
      | inr new ↦ rw new moved
    ]

subscribe-IsValid :
    (b : Broker) (c t : Bytes)
    → is_connected b c ≡ true
    → IsValid b
    → IsValid (record b { subscriptions = (Registry.subscribe b.subscriptions c t).0 })
subscribe-IsValid b c t here v = record {
  registry = subscribe-IsConsistent b.subscriptions c t v.registry;
  window = v.window;
  known = λ c' t' h.
      ground (arith, here, v.known c' t', subscribed-subscribe b.subscriptions c t c' t');
  once = v.once;
}

unsubscribe-IsValid :
    (b : Broker) (c t : Bytes)
    → IsValid b
    → IsValid (record b { subscriptions = (Registry.unsubscribe b.subscriptions c t).0 })
unsubscribe-IsValid b c t v = record {
  registry = unsubscribe-IsConsistent b.subscriptions c t v.registry;
  window = v.window;
  known =
      λ c' t' h. ground (arith, v.known c' t', subscribed-unsubscribe b.subscriptions c t c' t');
  once = v.once;
}

-- The state in a handler's result.
abbrev Keeps : Broker × List Output → Type 0
Keeps r = IsValid r.0

handle_known-IsValid :
    (codec : Codec) (b : Broker) (h : Header) (bytes payload sender : Bytes)
    → is_connected b sender ≡ true
    → IsValid b
    → IsValid (handle_known codec b h bytes payload sender).0
unfolding handle_known
handle_known-IsValid codec b h bytes payload sender here v = if_both Keeps _ _ _ v (
    if_both Keeps _ _ _ (subscribe-IsValid b sender h.topic here v) (
      if_both Keeps _ _ _ (unsubscribe-IsValid b sender h.topic v)
        (route-IsValid b h bytes payload sender false v)))

handle_local-IsValid :
    (codec : Codec) (now : ℕ) (b : Broker) (h : Header) (bytes payload sender : Bytes)
    → IsValid b
    → IsValid (handle_local codec now b h bytes payload sender).0
unfolding handle_local
handle_local-IsValid codec now b h bytes payload sender v =
    let marked = mark_seen-IsValid b sender now v in
    if_both Keeps _ _ _ (remove_client-IsValid b sender v) (
      if_both Keeps _ _ _
        (handle_known-IsValid codec (mark_seen b sender now) h bytes payload sender
          (is_connected-mark_seen b sender now) marked)
        marked)

handle_peer-IsValid :
    (b : Broker) (h : Header) (bytes payload sender : Bytes)
    → IsValid b
    → IsValid (handle_peer b h bytes payload sender).0
unfolding handle_peer
handle_peer-IsValid b h bytes payload sender v =
    if_both Keeps _ _ _ v (route-IsValid b h bytes payload sender true v)

pub process_message-IsValid :
    (codec : Codec) (now : ℕ) (fresh : Bytes) (b : Broker) (h : Header) (payload sender : Bytes)
    (from_peer : Bool)
    → IsValid b
    → IsValid (process_message codec now fresh b h payload sender from_peer).0
unfolding process_message
process_message-IsValid codec now fresh b h payload sender true v =
    handle_peer-IsValid b (stamp b fresh h) _ payload sender v
process_message-IsValid codec now fresh b h payload sender false v =
    handle_local-IsValid codec now b (stamp b fresh h) _ payload sender v
