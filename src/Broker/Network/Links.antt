-- ===== src/Broker/Network/Links.antt =====
-- server/zmqbroker.cpp: between which brokers of a network a message can go.
use zmq_pubsub_testing.Base.{ℕ, ◌≡◌, refl, ◌∙◌, Bytes, Bool, true, List, Option, some, contains}
use zmq_pubsub_testing.Base.Maps.{keys}
use zmq_pubsub_testing.Broker.Delivery.{wants}
use zmq_pubsub_testing.Broker.{Broker, Link}
use zmq_pubsub_testing.Broker.Network.Places.{nth, put, holds_at, holds_at-put}

abbrev pub exists_at : ℕ → List Broker → Bool
exists_at i bs = holds_at (λ b. true) i bs

abbrev pub has_link : Bytes → ℕ → List Broker → Bool
has_link k i bs = holds_at (λ b. contains k (keys b.peers)) i bs

abbrev pub wants_at : Bytes → Bytes → ℕ → List Broker → Bool
wants_at topic c i bs = holds_at (λ b. wants b c topic) i bs

abbrev pub routed : Bytes → ℕ → List Broker → Bool
routed u i bs = holds_at (λ b. contains u b.history.seen) i bs

-- What the copies leave as it was.
pub record Same (topic : Bytes) (bs bs' : List Broker) : Type 0 where
  pub brokers : (i : ℕ) → exists_at i bs' ≡ exists_at i bs
  pub links : (k : Bytes) (i : ℕ) → has_link k i bs' ≡ has_link k i bs
  pub clients : (c : Bytes) (i : ℕ) → wants_at topic c i bs' ≡ wants_at topic c i bs

pub Same_trans :
    (topic : Bytes) (bs0 bs cs : List Broker)
    → Same topic bs0 bs
    → Same topic bs cs
    → Same topic bs0 cs
Same_trans topic bs0 bs cs p q = record {
  brokers = λ i. q.brokers i ∙ p.brokers i;
  links = λ k i. q.links k i ∙ p.links k i;
  clients = λ c i. q.clients c i ∙ p.clients c i;
}

module _ (link_end : ℕ → Bytes → Option (ℕ × Bytes)) (link_of : ℕ → Bytes → Option (ℕ × Link))
    (topic : Bytes) (bs : List Broker) where
  -- A message on the topic can go from one broker to the other: over a link that the first has dialed,
  -- or as a delivery to the worker of a link that the second has dialed, which wants the topic.
  pub data Linked : ℕ → ℕ → Type 0 where
    over :
        {i j : ℕ} (k id : Bytes)
        → has_link k i bs ≡ true
        → link_end i k ≡ some (j, id)
        → exists_at j bs ≡ true
        → Linked i j
    returns :
        {i j : ℕ} (c : Bytes) (link : Link)
        → wants_at topic c i bs ≡ true
        → link_of i c ≡ some (j, link)
        → exists_at j bs ≡ true
        → Linked i j

  -- Over any number of links.
  pub data Connects : ℕ → ℕ → Type 0 where
    here : {i : ℕ} → Connects i i
    next : {i j l : ℕ} → Linked i j → Connects j l → Connects i l

  pub Linked-exists : {i j : ℕ} → Linked i j → exists_at j bs ≡ true
  Linked-exists (over k id l e x) = x
  Linked-exists (returns c link w e x) = x

-- A place that another broker takes, which has the same clients' wishes and the same links.
pub put-Same :
    (topic : Bytes) (n : ℕ) (b b' : Broker) (bs : List Broker)
    → nth n bs ≡ some b
    → b'.peers ≡ b.peers
    → b'.subscriptions ≡ b.subscriptions
    → Same topic bs (put n b' bs)
put-Same topic n b b' bs e peers subs = record {
  brokers = λ i. holds_at-put (λ x. true) n i b b' bs e refl;
  links = λ k i. holds_at-put (λ x. contains k (keys x.peers)) n i b b' bs e (rw peers refl);
  clients = λ c i. holds_at-put (λ x. wants x c topic) n i b b' bs e (rw subs refl);
}
