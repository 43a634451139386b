-- ===== src/Client/Session.antt =====
-- common/connectionmanager.cpp: the static part, that is, the one instance and the callbacks that
-- are registered before there is one; and common/connectionapi.cpp, its C interface.
use zmq_pubsub_testing.Base.{
  ℕ, ◌≡◌, refl, ap, ◌∙◌, sym, append-nil, append_assoc, Bytes, Bool, true, false, List, [], ◌∷◌,
  ◌++◌, Option, none, some, arith, length, ltb,
}
use zmq_pubsub_testing.Keys
use zmq_pubsub_testing.SafeQueue.{stop, push_for}
use zmq_pubsub_testing.Wire.{Envelope}
use zmq_pubsub_testing.Worker.{Worker, make_worker, finish_run, write_control}
use zmq_pubsub_testing.Worker.Sends.{drain_control-items}
use zmq_pubsub_testing.Client.Handlers.{Room}
use zmq_pubsub_testing.Client.{
  Manager, make_manager, envelope_of, perform_registration, perform_unregistration,
  send_data_internal, send_reply_envelope, say_goodbye,
}

-- An entry of `s_pendingMsgCallbacks`.
pub record Pending (F : Type 0) : Type 0 where
  pub key : Bytes
  pub callback : Option F
  pub instance_key : ℕ

-- `m_instance` with its worker, and `s_pendingMsgCallbacks`.
pub record Process (F : Type 0) : Type 0 where
  pub manager : Option (Manager F × Worker)
  pub pending : List (Pending F)

module _ {F : Type 0} where
  -- `performRegistration` of an entry.
  abbrev pub register_on : Manager F × Worker → Pending F → Manager F × Worker
  register_on (m, w) p = perform_registration m w p.key p.callback p.instance_key

  unfoldable pub flush : List (Pending F) → Manager F × Worker → Manager F × Worker
  flush [] mw = mw
  flush (p ∷ ps) mw = flush ps (register_on mw p)

  unfoldable pub init : Process F → Bytes → Process F
  init s client_id = elim (s.manager) [
    | some mw ↦ s
    | none ↦ record {
      manager = some (flush s.pending (make_manager client_id, make_worker client_id));
      pending = [];
    }
  ]

  -- The state, and the instance that goes when its last user lets it go.
  unfoldable pub shutdown : Process F → Process F × Option (Manager F × Worker)
  shutdown s = elim (s.manager) [
    | some (m, w) ↦ (record s { manager = none }, some (say_goodbye m w))
    | none ↦ (s, none)
  ]

  -- The destructor: what the worker still sends.
  unfoldable pub destroy : Manager F × Worker → Manager F × List Envelope
  destroy (m, w) = (record m { running = false; queue = stop m.queue }, (finish_run w).1)

  unfoldable pub register_internal : Process F → Pending F → Process F
  register_internal s p = elim (s.manager) [
    | some mw ↦ record s { manager = some (register_on mw p) }
    | none ↦ record s { pending = s.pending ++ p ∷ [] }
  ]

  unfoldable pub unregister_callback : Process F → Bytes → ℕ → Process F
  unregister_callback s key instance_key = elim (s.manager) [
    | some (m, w) ↦ record s { manager = some (perform_unregistration m w key instance_key) }
    | none ↦ s
  ]

  -- `sendMessage`, `sendData` and `sendDataRaw`.
  unfoldable pub send_message : Process F → Bytes → Bytes → Process F × Bool
  send_message s key payload = elim (s.manager) [
    | some (m, w) ↦
        let (w', done) = send_data_internal m w key payload in
        (record s { manager = some (m, w') }, done)
    | none ↦ (s, false)
  ]

  unfoldable pub reply_to_sender : Process F → Bytes → Process F × Bool
  reply_to_sender s payload = elim (s.manager) [
    | some (m, w) ↦
        let (w', done) = send_reply_envelope m w payload in
        (record s { manager = some (m, w') }, done)
    | none ↦ (s, false)
  ]

  -- Registrations one after the other.
  unfoldable pub register_each : Process F → List (Pending F) → Process F
  register_each s [] = s
  register_each s (p ∷ ps) = register_each (register_internal s p) ps

  -- A program that has not called `init` yet.
  abbrev pub waiting : List (Pending F) → Process F
  waiting q = record { manager = none; pending = q }

  abbrev pub holding : Manager F × Worker → List (Pending F) → Process F
  holding mw q = record { manager = some mw; pending = q }

  register_each-waiting :
      (q ps : List (Pending F)) → register_each (waiting q) ps ≡ waiting (q ++ ps)
  unfolding register_each register_internal
  register_each-waiting q [] = ap waiting (sym (append-nil q))
  register_each-waiting q (p ∷ ps) =
      register_each-waiting (q ++ p ∷ []) ps ∙ ap waiting (append_assoc q (p ∷ []) ps)

  register_each-holding :
      (mw : Manager F × Worker) (q ps : List (Pending F))
      → register_each (holding mw q) ps ≡ holding (flush ps mw) q
  unfolding register_each register_internal flush
  register_each-holding mw q [] = refl
  register_each-holding mw q (p ∷ ps) = register_each-holding (register_on mw p) q ps

  flush-append :
      (q ps : List (Pending F)) (mw : Manager F × Worker)
      → flush (q ++ ps) mw ≡ flush ps (flush q mw)
  unfolding flush
  flush-append [] ps mw = refl
  flush-append (p ∷ q) ps mw = flush-append q ps (register_on mw p)

  -- Registering any callbacks before init gives the same state as registering them, in the same
  -- order, after it.
  pub init-register_each :
      (id : Bytes) (q ps : List (Pending F))
      → init (register_each (waiting q) ps) id ≡ register_each (init (waiting q) id) ps
  unfolding init
  init-register_each id q ps =
      ap (λ s. init s id) (register_each-waiting q ps)
      ∙ ap (λ mw. holding mw []) (flush-append q ps (make_manager id, make_worker id))
      ∙ sym (register_each-holding (flush q (make_manager id, make_worker id)) [] ps)

  say_goodbye-control :
      (m : Manager F) (w : Worker)
      → m.connected ≡ true
      → Room 1 w
      → (say_goodbye m w).1.control.items
        ≡ w.control.items ++ envelope_of m.client_id Keys.disconnect [] [] ∷ []
  unfolding say_goodbye write_control push_for
  say_goodbye-control m w on r =
      let e : ltb (length w.control.items) w.control.max_size ≡ true = ground (arith, r.free) in
      rw (on, e, r.open_queue) refl

  -- What the instance that `shutdown` lets go still sends.
  abbrev pub last_words : Option (Manager F × Worker) → List Envelope
  last_words none = []
  last_words (some mw) = (destroy mw).1

  -- Shutting a connected client down, whose control queue has room, sends all that is left in the
  -- control queue and then DISCONNECT.
  pub shutdown-says_goodbye :
      (m : Manager F) (w : Worker) (q : List (Pending F))
      → m.connected ≡ true
      → Room 1 w
      → last_words (shutdown (holding (m, w) q)).1
        ≡ w.control.items ++ envelope_of m.client_id Keys.disconnect [] [] ∷ []
  unfolding shutdown destroy finish_run
  shutdown-says_goodbye m w q on r =
      let w' = (say_goodbye m w).1 in
      ap (λ x. x.1)
        (drain_control-items w'.control.items (length w'.control.items)
          (record w' { running = false }) refl (omega arith))
      ∙ say_goodbye-control m w on r
