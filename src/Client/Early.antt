-- ===== src/Client/Early.antt =====
-- common/connectionmanager.cpp: callbacks that are unregistered before `init`.
use zmq_pubsub_testing.Base.{ℕ, ◌≡◌, ap, ◌∙◌, Bytes, List, [], ◌∷◌, none, some, arith}
use zmq_pubsub_testing.Base.Maps.{find, find-assign, find-erase}
use zmq_pubsub_testing.Worker.{Worker, make_worker}
use zmq_pubsub_testing.Client.{Manager, CallbackEntry, entries, make_manager, perform_registration}
use zmq_pubsub_testing.Client.Requests.{Serves, perform_unregistration-Serves}
use zmq_pubsub_testing.Client.Session.{
  Process, Pending, init, flush, register_internal, unregister_callback, waiting,
}

-- The callbacks of a topic.
unfoldable pub handlers_of : {F : Type 0} → Process F → Bytes → List (CallbackEntry F)
handlers_of s key = elim (s.manager) [ none ↦ [] | some (m, w) ↦ entries (find key m.msg_handlers) ]

module _ {F : Type 0} (id key : Bytes) (f : F) (k : ℕ) where
  abbrev pub early : Pending F
  early = record { key = key; callback = some f; instance_key = k }

  abbrev first : Manager F × Worker
  first = perform_registration (make_manager id) (make_worker id) key (some f) k

  first-Serves : Serves first.0 key f k
  unfolding perform_registration make_manager find
  first-Serves =
      let entry : CallbackEntry F = record { instance_key = k; func = some f } in
      find-assign key key (entry ∷ []) [] ∙ ground arith

  -- A callback that is registered and unregistered before init is a handler of its topic after
  -- init, while one that is registered before init and unregistered after it is not.
  pub early_unregister :
      (handlers_of (init (unregister_callback (register_internal (waiting []) early) key k) id) key
        ≡ record { instance_key = k; func = some f } ∷ [])
      × (handlers_of
            (unregister_callback (init (register_internal (waiting []) early) id) key k)
            key
          ≡ [])
  unfolding handlers_of init unregister_callback register_internal flush
  early_unregister = (
    ap entries first-Serves,
    ap (λ h. entries (find key h))
          (perform_unregistration-Serves first.0 first.1 key f k first-Serves)
        ∙ ground (arith, find-erase key key first.0.msg_handlers),
  )
