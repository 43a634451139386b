-- ===== src/Adapter/Removal.antt =====
-- bindings/qt/qtconnectionadapter.h: what a context still gets when it has been unregistered.
use zmq_pubsub_testing.Base.{
  ℕ, ◌≡◌, refl, ap, ◌∙◌, sym, Bytes, List, [], ◌∷◌, ◌++◌, Option, none, some, text_eq,
  if◌then◌else◌, subst, ◌==◌, All, arith, Option-cases, Bool-cases, inl, inr,
}
use zmq_pubsub_testing.Base.Maps.{find}
use zmq_pubsub_testing.Wire.{Envelope}
use zmq_pubsub_testing.Worker.{Worker}
use zmq_pubsub_testing.Client.{
  Manager, CallbackEntry, entries, perform_unregistration, without_instance,
}
use zmq_pubsub_testing.Client.Session.{unregister_callback, waiting}
use zmq_pubsub_testing.Adapter.{
  Qt, Marshal, Event, State, post, post_entry, post_each, posted, register, unregister,
  make_adapter,
}
use zmq_pubsub_testing.Adapter.Owned.{
  handlers-perform_unregistration, OwnsFunc, Owns, IsOwned, OwnsState, IsSound, init-IsSound,
  register_internal-IsSound, unregister_callback-IsSound,
}

-- Calls of the adapter before and behind its constructor.
pub data Call (Q H : Type 0) : Type 0 where
  makes : Bytes → Call Q H
  registers : Q → ℕ → H → Call Q H
  unregisters : Q → ℕ → Call Q H

module _ {H : Type 0} where
  -- The events of other contexts.
  unfoldable pub without_context : {V : Type 0} → ℕ → List (Event H V) → List (Event H V)
  without_context k [] = []
  without_context k (e ∷ es) = (if e.context == k then [] else e ∷ []) ++ without_context k es

module _ {H V : Type 0} (decode : H → Bytes → Option V) where
  unfoldable pub posted_by : State H → Envelope → List (Event H V)
  posted_by s env = elim (s.manager) [ none ↦ [] | some (m, w) ↦ posted decode m env ]

  without_context-append :
      (k : ℕ) (xs ys : List (Event H V))
      → without_context k (xs ++ ys) ≡ without_context k xs ++ without_context k ys
  unfolding without_context
  without_context-append k [] ys = refl
  without_context-append k (x ∷ xs) ys = ground (arith, without_context-append k xs ys)

  without_context-post_entry :
      (k j : ℕ) (f : Option (Marshal H)) (raw : Bytes)
      → OwnsFunc j f
      → without_context k (post_entry decode f raw)
        ≡ (if j == k then [] else post_entry decode f raw)
  unfolding without_context post
  without_context-post_entry k j none raw h = ground arith
  without_context-post_entry k j (some c) raw h = elim (Option-cases (decode c.func raw)) [
    | inl bad ↦ rw (post, bad) (ground arith)
    | inr (v, good) ↦ rw (post, good) (ground (arith, h))
  ]

  without_step :
      (k j : ℕ) (e : CallbackEntry (Marshal H)) (es : List (CallbackEntry (Marshal H)))
      (raw : Bytes)
      → post_each decode ((if j == k then [] else e ∷ []) ++ es) raw
        ≡ (if j == k then [] else post_entry decode e.func raw) ++ post_each decode es raw
  unfolding post_each
  without_step k j e es raw = elim (Bool-cases (j == k)) [
    | inl same ↦ rw same refl
    | inr other ↦ rw other refl
  ]

  post_each-without_instance :
      (k : ℕ) (es : List (CallbackEntry (Marshal H))) (raw : Bytes)
      → All Owns es
      → post_each decode (without_instance k es) raw ≡ without_context k (post_each decode es raw)
  unfolding post_each post without_instance without_context
  post_each-without_instance k [] raw h = refl
  post_each-without_instance k (e ∷ es) raw h =
      let mine = post_entry decode e.func raw in
      without_step k e.instance_key e (without_instance k es) raw
      ∙ ap (λ l. (if e.instance_key == k then [] else mine) ++ l)
          (post_each-without_instance k es raw h.1)
      ∙ ap (λ l. l ++ without_context k (post_each decode es raw))
          (sym (without_context-post_entry k e.instance_key e.func raw h.0))
      ∙ sym (without_context-append k mine (post_each decode es raw))

  posted-perform_unregistration :
      (m : Manager (Marshal H)) (w : Worker) (key : Bytes) (k : ℕ) (env : Envelope)
      → IsOwned m
      → posted decode (perform_unregistration m w key k).0 env ≡ (
          if text_eq key env.header.topic
          then without_context k (posted decode m env)
          else posted decode m env)
  unfolding posted
  posted-perform_unregistration m w key k env own =
      let topic = env.header.topic in
      let raw = env.payload in
      ap (λ es. post_each decode es raw) (handlers-perform_unregistration m w key topic k)
      ∙ elim (Bool-cases (text_eq key topic)) [
        | inl same ↦
            let keys_agree : key ≡ topic = ground (arith, same) in
            rw same (
              post_each-without_instance k (entries (find key m.msg_handlers)) raw (own key)
              ∙ ap (λ t. without_context k (post_each decode (entries (find t m.msg_handlers)) raw))
                  keys_agree)
        | inr other ↦ rw other refl
      ]

-- Calls one after the other, from a program that has not called anything yet.
module _ (qt : Qt) {H : Type 0} where
  unfoldable pub apply_call : State H → Call qt.QString H → State H
  apply_call s (makes id) = make_adapter s id
  apply_call s (registers key context func) = register qt s key context func
  apply_call s (unregisters key context) = unregister qt s key context

  unfoldable pub apply_calls : State H → List (Call qt.QString H) → State H
  apply_calls s [] = s
  apply_calls s (c ∷ cs) = apply_calls (apply_call s c) cs

  apply_call-IsSound : (s : State H) (c : Call qt.QString H) → IsSound s → IsSound (apply_call s c)
  unfolding apply_call make_adapter register unregister
  apply_call-IsSound s (makes id) v = init-IsSound s id v
  apply_call-IsSound s (registers key context func) v = register_internal-IsSound s _ refl v
  apply_call-IsSound s (unregisters key context) v =
      unregister_callback-IsSound s (qt.to_std_string key) context v

  apply_calls-IsSound :
      (cs : List (Call qt.QString H)) (s : State H) → IsSound s → IsSound (apply_calls s cs)
  unfolding apply_calls
  apply_calls-IsSound [] s v = v
  apply_calls-IsSound (c ∷ cs) s v =
      apply_calls-IsSound cs (apply_call s c) (apply_call-IsSound s c v)

  unregister-posted_by :
      {V : Type 0} (decode : H → Bytes → Option V) (s : State H) (key : qt.QString) (context : ℕ)
      (env : Envelope)
      → IsSound s
      → posted_by decode (unregister qt s key context) env ≡ (
          if text_eq (qt.to_std_string key) env.header.topic
          then without_context context (posted_by decode s env)
          else posted_by decode s env)
  unfolding posted_by unregister unregister_callback without_context
  unregister-posted_by decode s key context env v = elim (Option-cases s.manager) [
    | inl fresh ↦ rw (unregister_callback, posted_by, fresh) (ground arith)
    | inr ((m, w), made) ↦
        let old : OwnsState (some (m, w)) = subst OwnsState made v.live in
        rw (unregister_callback, posted_by, made)
          (posted-perform_unregistration decode m w (qt.to_std_string key) context env old)
  ]

  -- After any calls of the adapter's constructor, registerCallback and unregisterCallback, an
  -- unregisterCallback takes from what a message posts exactly the events of that context, if the
  -- message has the key as its topic, and nothing otherwise; the other events keep their order.
  pub posted_by-unregister :
      {V : Type 0} (decode : H → Bytes → Option V) (calls : List (Call qt.QString H))
      (key : qt.QString) (context : ℕ) (env : Envelope)
      → let s = apply_calls (waiting []) calls in
        posted_by decode (unregister qt s key context) env ≡ (
          if text_eq (qt.to_std_string key) env.header.topic
          then without_context context (posted_by decode s env)
          else posted_by decode s env)
  posted_by-unregister decode calls key context env =
      unregister-posted_by decode (apply_calls (waiting []) calls) key context env
        (apply_calls-IsSound calls (waiting []) (record { live = tt; early = tt }))
