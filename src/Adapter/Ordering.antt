-- ===== src/Adapter/Ordering.antt =====
-- bindings/qt/qtconnectionadapter.h: the order in which a message posts to the contexts. The event
-- queue of Qt runs what is posted to it in that order.
use zmq_pubsub_testing.Base.{
  ◌≡◌, refl, ap, ◌∙◌, sym, Bytes, Bool, true, false, List, [], ◌∷◌, ◌++◌, Option, some,
  append_assoc, append-nil, if◌then◌else◌, text_eq, Bool-cases, inl, inr, arith,
}
use zmq_pubsub_testing.Base.Maps.{find}
use zmq_pubsub_testing.Wire.{Envelope}
use zmq_pubsub_testing.Worker.{Worker, make_worker}
use zmq_pubsub_testing.Client.{Manager, CallbackEntry, entries, make_manager, perform_registration}
use zmq_pubsub_testing.Client.Session.{
  Pending, init, flush, register_internal, register_on, waiting, holding,
}
use zmq_pubsub_testing.Adapter.{
  Qt, Marshal, Event, post, post_entry, post_value, post_each, posted, register, make_adapter,
}
use zmq_pubsub_testing.Adapter.Owned.{handlers-assign}
use zmq_pubsub_testing.Adapter.Removal.{
  Call, makes, registers, unregisters, apply_call, apply_calls, posted_by,
}

same_text : (a b : Bytes) → text_eq a b ≡ true → a ≡ b
same_text a b e = ground arith

module _ {H V : Type 0} (decode : H → Bytes → Option V) (env : Envelope) where
  post_each-append :
      (xs ys : List (CallbackEntry (Marshal H))) (raw : Bytes)
      → post_each decode (xs ++ ys) raw ≡ post_each decode xs raw ++ post_each decode ys raw
  unfolding post_each
  post_each-append [] ys raw = refl
  post_each-append (x ∷ xs) ys raw =
      ap (λ l. post_entry decode x.func raw ++ l) (post_each-append xs ys raw)
      ∙ sym (
          append_assoc (post_entry decode x.func raw) (post_each decode xs raw)
            (post_each decode ys raw))

  -- What a registration adds to what the message posts.
  abbrev added : Pending (Marshal H) → List (Event H V)
  added p = if text_eq p.key env.header.topic then post_entry decode p.callback env.payload else []

  abbrev all_added : List (Pending (Marshal H)) → List (Event H V)
  all_added [] = []
  all_added (p ∷ ps) = added p ++ all_added ps

  posted-register_on :
      (mw : Manager (Marshal H) × Worker) (p : Pending (Marshal H))
      → posted decode (register_on mw p).0 env ≡ posted decode mw.0 env ++ added p
  unfolding posted perform_registration post_each
  posted-register_on mw p =
      let m = mw.0 in
      let old = entries (find p.key m.msg_handlers) in
      let entry : CallbackEntry (Marshal H) = record {
        instance_key = p.instance_key;
        func = p.callback;
      } in
      rw (handlers-assign m p.key env.header.topic (old ++ entry ∷ []))
        (elim (Bool-cases (text_eq p.key env.header.topic)) [
          | inl same ↦ rw same (
              post_each-append old (entry ∷ []) env.payload
              ∙ ap (λ l. post_each decode old env.payload ++ l)
                  (append-nil (post_entry decode p.callback env.payload))
              ∙ ap
                  (λ t.
                    post_each decode (entries (find t m.msg_handlers)) env.payload
                    ++ post_entry decode p.callback env.payload)
                  (same_text p.key env.header.topic same))
          | inr other ↦ rw other (sym (append-nil _))
        ])

  posted-flush :
      (ps : List (Pending (Marshal H))) (mw : Manager (Marshal H) × Worker)
      → posted decode (flush ps mw).0 env ≡ posted decode mw.0 env ++ all_added ps
  unfolding flush
  posted-flush [] mw = sym (append-nil (posted decode mw.0 env))
  posted-flush (p ∷ ps) mw =
      posted-flush ps (register_on mw p)
      ∙ ap (λ l. l ++ all_added ps) (posted-register_on mw p)
      ∙ append_assoc (posted decode mw.0 env) (added p) (all_added ps)

  all_added-append :
      (ps qs : List (Pending (Marshal H))) → all_added (ps ++ qs) ≡ all_added ps ++ all_added qs
  all_added-append [] qs = refl
  all_added-append (p ∷ ps) qs =
      ap (λ l. added p ++ l) (all_added-append ps qs)
      ∙ sym (append_assoc (added p) (all_added ps) (all_added qs))

module _ (qt : Qt) {H V : Type 0} (decode : H → Bytes → Option V) (env : Envelope) where
  -- The functions that the calls register for the message's topic, each with its context and with
  -- the value, if the payload decodes for it.
  abbrev pub registered_events : List (Call qt.QString H) → List (Event H V)
  registered_events [] = []
  registered_events (makes id ∷ cs) = registered_events cs
  registered_events (unregisters key context ∷ cs) = registered_events cs
  registered_events (registers key context func ∷ cs) =
      (if text_eq (qt.to_std_string key) env.header.topic
        then post_value decode (record { context = context; func = func }) (decode func env.payload)
        else [])
      ++ registered_events cs

  -- Is there a constructor among the calls, and none that unregisters?
  abbrev pub has_made : List (Call qt.QString H) → Bool
  has_made [] = false
  has_made (makes id ∷ cs) = true
  has_made (unregisters key context ∷ cs) = has_made cs
  has_made (registers key context func ∷ cs) = has_made cs

  abbrev pub KeepAll : List (Call qt.QString H) → Type 0
  KeepAll [] = Unit {0}
  KeepAll (makes id ∷ cs) = KeepAll cs
  KeepAll (unregisters key context ∷ cs) = ⊥
  KeepAll (registers key context func ∷ cs) = KeepAll cs

  run_holding :
      (cs : List (Call qt.QString H)) (mw : Manager (Marshal H) × Worker)
      (q : List (Pending (Marshal H)))
      → KeepAll cs
      → posted_by decode (apply_calls qt (holding mw q) cs) env
        ≡ posted decode mw.0 env ++ registered_events cs
  unfolding apply_calls apply_call make_adapter register init register_internal posted_by post
  run_holding [] mw q k = sym (append-nil (posted decode mw.0 env))
  run_holding (makes id ∷ cs) mw q k = run_holding cs mw q k
  run_holding (unregisters key context ∷ cs) mw q k = elim k [ ]
  run_holding (registers key context func ∷ cs) mw q k =
      let p : Pending (Marshal H) = record {
        key = qt.to_std_string key;
        callback = some (record { context = context; func = func });
        instance_key = context;
      } in
      run_holding cs (register_on mw p) q k
      ∙ ap (λ l. l ++ registered_events cs) (posted-register_on decode env mw p)
      ∙ append_assoc (posted decode mw.0 env) (added decode env p) (registered_events cs)

  nothing_yet :
      (id : Bytes) (rest : List (Event H V)) → posted decode (make_manager id) env ++ rest ≡ rest
  unfolding posted make_manager find post_each
  nothing_yet id rest = refl

  run_waiting :
      (cs : List (Call qt.QString H)) (q : List (Pending (Marshal H)))
      → KeepAll cs
      → posted_by decode (apply_calls qt (waiting q) cs) env
        ≡ (if has_made cs then all_added decode env q ++ registered_events cs else [])
  unfolding apply_calls apply_call make_adapter register init register_internal posted_by post
      make_manager
  run_waiting [] q k = refl
  run_waiting (makes id ∷ cs) q k =
      run_holding cs (flush q (make_manager id, make_worker id)) [] k
      ∙ ap (λ l. l ++ registered_events cs)
          (posted-flush decode env q (make_manager id, make_worker id)
            ∙ nothing_yet id (all_added decode env q))
  run_waiting (unregisters key context ∷ cs) q k = elim k [ ]
  run_waiting (registers key context func ∷ cs) q k =
      let p : Pending (Marshal H) = record {
        key = qt.to_std_string key;
        callback = some (record { context = context; func = func });
        instance_key = context;
      } in
      run_waiting cs (q ++ p ∷ []) k
      ∙ ap (λ l. if has_made cs then l else [])
          (ap (λ l. l ++ registered_events cs)
              (all_added-append decode env q (p ∷ [])
                ∙ ap (λ l. all_added decode env q ++ l) (append-nil (added decode env p)))
            ∙ append_assoc (all_added decode env q) (added decode env p) (registered_events cs))

  -- After any registrations and constructions of adapters, in any order and without a removal, a
  -- message posts nothing if there was no construction, and else exactly the functions registered
  -- for its topic whose argument its payload decodes to, each to its context and with the decoded
  -- value, in the order of registration, those from before the construction included.
  pub posted_by-apply_calls :
      (cs : List (Call qt.QString H))
      → KeepAll cs
      → posted_by decode (apply_calls qt (waiting []) cs) env
        ≡ (if has_made cs then registered_events cs else [])
  posted_by-apply_calls cs k = run_waiting cs [] k
