-- ===== src/Adapter/Owned.antt =====
-- bindings/qt/qtconnectionadapter.h: every entry's lambda posts to the context that is its key.
use zmq_pubsub_testing.Base.{
  ℕ, ◌≡◌, sym, Bytes, List, [], ◌∷◌, ◌++◌, Option, none, some, text_eq, if◌then◌else◌, if_both,
  subst, ◌==◌, All, All-append, arith, Option-cases, inl, inr,
}
use zmq_pubsub_testing.Base.Maps.{find, assign, find-assign, find-erase}
use zmq_pubsub_testing.Worker.{Worker, make_worker}
use zmq_pubsub_testing.Client.{
  Manager, CallbackEntry, entries, make_manager, perform_registration, perform_unregistration,
  keep_or_unsubscribe, without_instance,
}
use zmq_pubsub_testing.Client.Session.{
  Pending, init, flush, register_internal, unregister_callback, register_on,
}
use zmq_pubsub_testing.Adapter.{Marshal, State}

module _ {H : Type 0} where
  -- The lambda of an entry posts to the context that is its key.
  abbrev pub OwnsFunc : ℕ → Option (Marshal H) → Type 0
  OwnsFunc k none = Unit {0}
  OwnsFunc k (some c) = c.context ≡ k

  abbrev pub Owns : CallbackEntry (Marshal H) → Type 0
  Owns e = OwnsFunc e.instance_key e.func

  abbrev pub OwnsPending : Pending (Marshal H) → Type 0
  OwnsPending p = OwnsFunc p.instance_key p.callback

  abbrev pub IsOwned : Manager (Marshal H) → Type 0
  IsOwned m = (t : Bytes) → All Owns (entries (find t m.msg_handlers))

  All-without_instance :
      (k : ℕ) (es : List (CallbackEntry (Marshal H)))
      → All Owns es
      → All Owns (without_instance k es)
  unfolding without_instance
  All-without_instance k [] h = tt
  All-without_instance k (e ∷ es) h =
      All-append Owns (if e.instance_key == k then [] else e ∷ []) (without_instance k es)
        (if_both (All Owns) (e.instance_key == k) [] (e ∷ []) tt (h.0, tt))
        (All-without_instance k es h.1)

  pub handlers-assign :
      (m : Manager (Marshal H)) (key t : Bytes) (es : List (CallbackEntry (Marshal H)))
      → entries (find t (assign key es m.msg_handlers))
        ≡ (if text_eq key t then es else entries (find t m.msg_handlers))
  handlers-assign m key t es = ground (arith, find-assign key t es m.msg_handlers)

  register-IsOwned :
      (m : Manager (Marshal H)) (w : Worker) (p : Pending (Marshal H))
      → OwnsPending p
      → IsOwned m
      → IsOwned (perform_registration m w p.key p.callback p.instance_key).0
  unfolding perform_registration
  register-IsOwned m w p own h t =
      let entry : CallbackEntry (Marshal H) = record {
        instance_key = p.instance_key;
        func = p.callback;
      } in
      let old = entries (find p.key m.msg_handlers) in
      subst (All Owns) (sym (handlers-assign m p.key t (old ++ entry ∷ []))) (
        if_both (All Owns) (text_eq p.key t) (old ++ entry ∷ []) (entries (find t m.msg_handlers))
          (All-append Owns old (entry ∷ []) (h p.key) (own, tt)) (h t))

  handlers-keep_or_unsubscribe :
      (m : Manager (Marshal H)) (w : Worker) (key t : Bytes) (es : List (CallbackEntry (Marshal H)))
      → entries (find t (keep_or_unsubscribe m w key es).0.msg_handlers)
        ≡ (if text_eq key t then es else entries (find t m.msg_handlers))
  handlers-keep_or_unsubscribe m w key t [] = ground (arith, find-erase key t m.msg_handlers)
  handlers-keep_or_unsubscribe m w key t (e ∷ es) = handlers-assign m key t (e ∷ es)

  same_topic :
      (m : Manager (Marshal H)) (key t : Bytes)
      → find key m.msg_handlers ≡ none
      → entries (find t m.msg_handlers)
        ≡ (if text_eq key t then [] else entries (find t m.msg_handlers))
  same_topic m key t h = ground (arith, h)

  pub handlers-perform_unregistration :
      (m : Manager (Marshal H)) (w : Worker) (key t : Bytes) (k : ℕ)
      → entries (find t (perform_unregistration m w key k).0.msg_handlers) ≡ (
          if text_eq key t
          then without_instance k (entries (find key m.msg_handlers))
          else entries (find t m.msg_handlers))
  unfolding perform_unregistration without_instance
  handlers-perform_unregistration m w key t k = elim (Option-cases (find key m.msg_handlers)) [
    | inl gone ↦ rw (perform_unregistration, gone) (same_topic m key t gone)
    | inr (vec, here) ↦
        rw (perform_unregistration, here)
          (handlers-keep_or_unsubscribe m w key t (without_instance k vec))
  ]

  unregister-IsOwned :
      (m : Manager (Marshal H)) (w : Worker) (key : Bytes) (k : ℕ)
      → IsOwned m
      → IsOwned (perform_unregistration m w key k).0
  unregister-IsOwned m w key k h t =
      subst (All Owns) (sym (handlers-perform_unregistration m w key t k)) (
        if_both (All Owns) (text_eq key t) _ _
          (All-without_instance k (entries (find key m.msg_handlers)) (h key)) (h t))

  -- Before the constructor the callbacks wait.
  abbrev pub OwnsState : Option (Manager (Marshal H) × Worker) → Type 0
  OwnsState none = Unit {0}
  OwnsState (some mw) = IsOwned mw.0

  pub record IsSound (s : State H) : Type 0 where
    pub live : OwnsState s.manager
    pub early : All OwnsPending s.pending

  flush-IsOwned :
      (ps : List (Pending (Marshal H))) (mw : Manager (Marshal H) × Worker)
      → All OwnsPending ps
      → IsOwned mw.0
      → IsOwned (flush ps mw).0
  unfolding flush
  flush-IsOwned [] mw hs h = h
  flush-IsOwned (p ∷ ps) mw hs h =
      flush-IsOwned ps (register_on mw p) hs.1 (register-IsOwned mw.0 mw.1 p hs.0 h)

  pub init-IsSound : (s : State H) (id : Bytes) → IsSound s → IsSound (init s id)
  unfolding init make_manager find
  init-IsSound s id v = elim (Option-cases s.manager) [
    | inl fresh ↦
        rw (init, fresh)
          (record {
            live = flush-IsOwned s.pending (make_manager id, make_worker id) v.early (λ t. tt);
            early = tt;
          })
    | inr (mw, made) ↦ rw (init, made) v
  ]

  pub register_internal-IsSound :
      (s : State H) (p : Pending (Marshal H))
      → OwnsPending p
      → IsSound s
      → IsSound (register_internal s p)
  unfolding register_internal
  register_internal-IsSound s p own v = elim (Option-cases s.manager) [
    | inl fresh ↦
        rw (register_internal, fresh)
          (record {
            live = v.live;
            early = All-append OwnsPending s.pending (p ∷ []) v.early (own, tt);
          })
    | inr (mw, made) ↦
        let old : OwnsState (some mw) = subst OwnsState made v.live in
        rw (register_internal, made)
          (record { live = register-IsOwned mw.0 mw.1 p own old; early = v.early })
  ]

  pub unregister_callback-IsSound :
      (s : State H) (key : Bytes) (k : ℕ) → IsSound s → IsSound (unregister_callback s key k)
  unfolding unregister_callback
  unregister_callback-IsSound s key k v = elim (Option-cases s.manager) [
    | inl fresh ↦ rw (unregister_callback, fresh) v
    | inr (mw, made) ↦
        let old : OwnsState (some mw) = subst OwnsState made v.live in
        rw (unregister_callback, made)
          (record { live = unregister-IsOwned mw.0 mw.1 key k old; early = v.early })
  ]
