-- ===== src/Broker/Timers.antt =====
-- The cleanup of silent clients, and the rest of a round of the loop.
use zmq_pubsub_testing.Base.{
  if_both, ℕ, ◌+◌, ◌-◌, ◌≤◌, ◌<◌, ◌≡◌, refl, ◌∙◌, Bytes, Bool, true, false, ◌&&◌, not, [], ◌∷◌,
  Option, none, some, ltb, if◌then◌else◌, arith, count, text_eq,
}
use zmq_pubsub_testing.Base.Maps.{Map, find, keys, find-erase, count-keys}
use zmq_pubsub_testing.Registry.Refinement.{subscribed}
use zmq_pubsub_testing.Broker.{Broker, ClientState, remove_client}
use zmq_pubsub_testing.Broker.Loop.{client_timeout, seconds, cleanup_clients, cleanup}
use zmq_pubsub_testing.Broker.Valid.{IsValid, remove_client-IsValid, subscribed-remove_client}

-- Has the client been silent for longer than the timeout?
abbrev pub is_zombie : ℕ → Option ClientState → Bool
is_zombie now none = false
is_zombie now (some client) = ltb client_timeout (now - client.last_seen)

find-remove_if :
    (test : Bool) (b : Broker) (id u : Bytes)
    → find u (if test then remove_client b id else b).clients
      ≡ (if test && text_eq id u then none else find u b.clients)
unfolding remove_client
find-remove_if true b id u = ground (arith, find-erase id u b.clients)
find-remove_if false b id u = refl

subscribed-remove_if :
    (test : Bool) (b : Broker) (id u t : Bytes)
    → subscribed (if test then remove_client b id else b).subscriptions u t
      ≡ (not (test && text_eq id u) && subscribed b.subscriptions u t)
unfolding remove_client
subscribed-remove_if true b id u t = subscribed-remove_client b.subscriptions id u t
subscribed-remove_if false b id u t = refl

find-cleanup_clients :
    (now : ℕ) (u : Bytes) (m : Map ClientState) (b : Broker)
    → count u (keys m) ≤ 1
    → find u (cleanup_clients now m b).clients
      ≡ (if is_zombie now (find u m) then none else find u b.clients)
unfolding cleanup_clients find count
find-cleanup_clients now u [] b h = refl
find-cleanup_clients now u ((id, client) ∷ m) b h =
    let test = ltb client_timeout (now - client.last_seen) in
    find-cleanup_clients now u m (if test then remove_client b id else b) (ground arith)
    ∙ ground (arith, find-remove_if test b id u, count-keys u m)

subscribed-cleanup_clients :
    (now : ℕ) (u t : Bytes) (m : Map ClientState) (b : Broker)
    → count u (keys m) ≤ 1
    → subscribed (cleanup_clients now m b).subscriptions u t
      ≡ (not (is_zombie now (find u m)) && subscribed b.subscriptions u t)
unfolding cleanup_clients find count
subscribed-cleanup_clients now u t [] b h = refl
subscribed-cleanup_clients now u t ((id, client) ∷ m) b h =
    let test = ltb client_timeout (now - client.last_seen) in
    subscribed-cleanup_clients now u t m (if test then remove_client b id else b) (ground arith)
    ∙ ground (arith, subscribed-remove_if test b id u t, count-keys u m)

cleanup_clients-IsValid :
    (now : ℕ) (m : Map ClientState) (b : Broker) → IsValid b → IsValid (cleanup_clients now m b)
unfolding cleanup_clients
cleanup_clients-IsValid now [] b v = v
cleanup_clients-IsValid now ((id, client) ∷ m) b v =
    cleanup_clients-IsValid now m _ (if_both IsValid _ _ _ (remove_client-IsValid b id v) v)

-- In a valid state whose last cleanup is more than two seconds ago, the cleanup takes out exactly
-- the clients that have been silent for more than ten seconds, with all their subscriptions,
-- leaves the other clients and their subscriptions alone, and notes its time.
pub cleanup_lem :
    (now : ℕ) (u t : Bytes) (b : Broker)
    → IsValid b
    → b.last_cleanup + seconds 2 < now
    → (find u (cleanup now b).clients
        ≡ (if is_zombie now (find u b.clients) then none else find u b.clients))
      × (subscribed (cleanup now b).subscriptions u t
          ≡ (not (is_zombie now (find u b.clients)) && subscribed b.subscriptions u t))
      × ((cleanup now b).last_cleanup ≡ now)
unfolding cleanup
cleanup_lem now u t b v due =
    let e : ltb (seconds 2) (now - b.last_cleanup) ≡ true = ground arith in
    rw e (
      find-cleanup_clients now u b.clients b (v.once u),
      subscribed-cleanup_clients now u t b.clients b (v.once u),
      refl,
    )

pub cleanup-IsValid : (now : ℕ) (b : Broker) → IsValid b → IsValid (cleanup now b)
unfolding cleanup
cleanup-IsValid now b v =
    let c = cleanup_clients-IsValid now b.clients b v in
    if_both IsValid (ltb (seconds 2) (now - b.last_cleanup))
      (record (cleanup_clients now b.clients b) { last_cleanup = now }) b
      (record { registry = c.registry; window = c.window; known = c.known; once = c.once }) v
