-- ===== src/Broker/Verbatim.antt =====
-- server/zmqbroker.cpp: what a routed message carries.
use zmq_pubsub_testing.Base.{
  ◌≡◌, refl, Bytes, Bool, true, false, List, [], ◌∷◌, if◌then◌else◌, All, All-append, Bool-cases,
  inl, inr,
}
use zmq_pubsub_testing.Base.Maps.{keys}
use zmq_pubsub_testing.Broker.Dedup.{is_duplicate}
use zmq_pubsub_testing.Wire.{Header, Envelope}
use zmq_pubsub_testing.Broker.{
  Broker, Output, tap, deliver, forward, deliver_each, deliver_local, flood, route,
}
use zmq_pubsub_testing.Broker.Delivery.{skipped}

-- The frames of every delivery are those given, and every link gets the envelope itself.
abbrev pub IsVerbatim : Bytes → Bytes → Envelope → Output → Type 0
IsVerbatim bytes payload env (tap h p) = ⊥
IsVerbatim bytes payload env (deliver id h p) = (h ≡ bytes) × (p ≡ payload)
IsVerbatim bytes payload env (forward key e) = e ≡ env

deliver_each-IsVerbatim :
    (b : Broker) (from_peer : Bool) (sender bytes payload : Bytes) (env : Envelope)
    (ids : List Bytes)
    → All (IsVerbatim bytes payload env) (deliver_each b from_peer sender bytes payload ids)
unfolding deliver_each
deliver_each-IsVerbatim b from_peer sender bytes payload env [] = tt
deliver_each-IsVerbatim b from_peer sender bytes payload env (id ∷ ids) =
    All-append (IsVerbatim bytes payload env) _ _ (one (skipped b from_peer sender id))
      (deliver_each-IsVerbatim b from_peer sender bytes payload env ids)
  where
    one :
        (test : Bool)
        → All (IsVerbatim bytes payload env) (if test then [] else deliver id bytes payload ∷ [])
    one true = tt
    one false = ((refl, refl), tt)

flood-IsVerbatim :
    (links : List Bytes) (bytes payload : Bytes) (env : Envelope)
    → All (IsVerbatim bytes payload env) (flood links env)
unfolding flood
flood-IsVerbatim [] bytes payload env = tt
flood-IsVerbatim (k ∷ links) bytes payload env = (refl, flood-IsVerbatim links bytes payload env)

-- Whatever is routed is forwarded unchanged: each delivery carries the given header frame and
-- payload, and each link gets the message's header and payload.
pub route-IsVerbatim :
    (b : Broker) (h : Header) (bytes payload sender : Bytes) (from_peer : Bool)
    → All
        (IsVerbatim bytes payload (record { header = h; payload = payload }))
        (route b h bytes payload sender from_peer).1
unfolding route deliver_local
route-IsVerbatim b h bytes payload sender from_peer =
    elim (Bool-cases (is_duplicate b.history h.message_uuid).1) [
      | inl old ↦ rw (route, old) tt
      | inr new ↦
          rw (route, new)
            (All-append P _ _
              (All-append P _ _ (deliver_each-IsVerbatim b' from_peer sender bytes payload env _)
                (deliver_each-IsVerbatim b' from_peer sender bytes payload env _))
              (flood-IsVerbatim (keys b.peers) bytes payload env))
    ]
  where
    env : Envelope
    env = record { header = h; payload = payload }

    b' : Broker
    b' = record b { history = (is_duplicate b.history h.message_uuid).0 }

    P : Output → Type 0
    P = IsVerbatim bytes payload env
