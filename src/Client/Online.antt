-- ===== src/Client/Online.antt =====
-- common/zmqworker.cpp and common/connectionmanager.cpp: the worker's online flag, and what the
-- manager knows of it through the status callback.
use zmq_pubsub_testing.Base.{
  ℕ, zero, suc, ◌-◌, ◌≡◌, refl, ◌∙◌, sym, Bytes, Bool, true, false, ◌&&◌, List, [], ◌∷◌, Option,
  none, some, text_eq, if◌then◌else◌, if_both, arith, length, ltb, Bool-cases, inl, inr,
}
use zmq_pubsub_testing.Base.Maps.{Map}
use zmq_pubsub_testing.Keys
use zmq_pubsub_testing.Wire.{Envelope}
use zmq_pubsub_testing.SafeQueue.{try_pop}
use zmq_pubsub_testing.Worker.{
  Worker, heard, receive, beat, check_server, drain_control, drain_outbound, turn, server_timeout,
  sent_first, write_control, write_message,
}
use zmq_pubsub_testing.Client.{
  Manager, CallbackEntry, owner, status_handler, take_inbound, send_raw_envelope, subscribe_each,
  envelope_of, control_envelope,
}

-- What is left of a worker when its queues are put aside.
pub record SameClock (v w : Worker) : Type 0 where
  pub online : v.online ≡ w.online
  pub last_rx : v.last_rx ≡ w.last_rx

SameClock-refl : (w : Worker) → SameClock w w
SameClock-refl w = record { online = refl; last_rx = refl }

SameClock-trans : {u v w : Worker} → SameClock u v → SameClock v w → SameClock u w
SameClock-trans a b = record { online = a.online ∙ b.online; last_rx = a.last_rx ∙ b.last_rx }

send_raw_envelope-SameClock :
    (w : Worker) (env : Envelope) → SameClock (send_raw_envelope w env).0 w
unfolding send_raw_envelope write_control write_message
send_raw_envelope-SameClock w env = record { online = ground arith; last_rx = ground arith }

sent_first-SameClock :
    (env : Option Envelope) (next : Worker → Worker × List Envelope) (w : Worker)
    → ((v : Worker) → SameClock (next v).0 v)
    → SameClock (sent_first env next w).0 w
sent_first-SameClock none next w same = SameClock-refl w
sent_first-SameClock (some env) next w same = same w

drain_control-SameClock : (n : ℕ) (w : Worker) → SameClock (drain_control n w).0 w
unfolding drain_control
drain_control-SameClock zero w = SameClock-refl w
drain_control-SameClock (suc n) w =
    SameClock-trans
      (sent_first-SameClock (try_pop w.control).1 (drain_control n)
        (record w { control = (try_pop w.control).0 }) (λ v. drain_control-SameClock n v))
      (record { online = refl; last_rx = refl })

drain_outbound-SameClock : (n : ℕ) (w : Worker) → SameClock (drain_outbound n w).0 w
unfolding drain_outbound
drain_outbound-SameClock zero w = SameClock-refl w
drain_outbound-SameClock (suc n) w =
    SameClock-trans
      (sent_first-SameClock (try_pop w.outbound).1 (drain_outbound n)
        (record w { outbound = (try_pop w.outbound).0 }) (λ v. drain_outbound-SameClock n v))
      (record { online = refl; last_rx = refl })

subscribe_each-SameClock :
    {F : Type 0} (id : Bytes) (l : Map (List (CallbackEntry F))) (w : Worker)
    → SameClock (subscribe_each id l w) w
unfolding subscribe_each
subscribe_each-SameClock id [] w = SameClock-refl w
subscribe_each-SameClock id ((t, v) ∷ l) w =
    SameClock-trans
      (subscribe_each-SameClock id l (send_raw_envelope w (envelope_of id Keys.subscribe t [])).0)
      (send_raw_envelope-SameClock w (envelope_of id Keys.subscribe t []))

status_handler-SameClock :
    {F : Type 0} (on : Bool) (m : Manager F) (w : Worker) → SameClock (status_handler on m w).1 w
unfolding status_handler
status_handler-SameClock true m w =
    SameClock-trans
      (subscribe_each-SameClock m.client_id m.msg_handlers
        (send_raw_envelope w (control_envelope m Keys.connect [])).0)
      (send_raw_envelope-SameClock w (control_envelope m Keys.connect []))
status_handler-SameClock false m w = SameClock-refl w

-- The manager knows the worker's flag.
abbrev pub Linked : {F : Type 0} → Manager F × Worker → Type 0
Linked (m, w) = m.connected ≡ w.online

status_handler-Linked :
    {F : Type 0} (on : Bool) (m : Manager F) (w : Worker)
    → w.online ≡ on
    → Linked (status_handler on m w)
unfolding status_handler
status_handler-Linked on m w e = sym ((status_handler-SameClock on m w).online ∙ e)

-- Has the worker, though online, not heard the server for longer than its timeout?
abbrev pub is_overdue : ℕ → Worker → Bool
is_overdue now w = w.online && ltb server_timeout (now - w.last_rx)

beat-SameClock : (now : ℕ) (w : Worker) → SameClock (beat now w).0 w
unfolding beat
beat-SameClock now w = record { online = ground arith; last_rx = ground arith }

-- The loops and the heartbeat.
abbrev sending : ℕ → Worker → Worker
sending now w =
    let w2 = (drain_control (length w.control.items) w).0 in
    let w3 = (drain_outbound (length w2.outbound.items) w2).0 in (beat now w3).0

sending-SameClock : (now : ℕ) (w : Worker) → SameClock (sending now w) w
sending-SameClock now w =
    let w2 = (drain_control (length w.control.items) w).0 in
    let w3 = (drain_outbound (length w2.outbound.items) w2).0 in
    SameClock-trans (beat-SameClock now w3) (
      SameClock-trans (drain_outbound-SameClock (length w2.outbound.items) w2)
        (drain_control-SameClock (length w.control.items) w))

module _ {F : Type 0} where
  take_inbound-Linked :
      (env : Envelope) (r : Manager F × Worker) → Linked r → Linked (take_inbound env r.0 r.1)
  unfolding take_inbound
  take_inbound-Linked env r l = l

  heard-Linked :
      (now : ℕ) (env : Envelope) (m : Manager F) (w : Worker)
      → m.connected ≡ w.online
      → Linked (heard (owner F) now env m w)
  unfolding heard
  heard-Linked now env m w e =
      let w1 = record w { last_rx = now } in
      let r = (if w.online then (m, w1) else status_handler true m (record w1 { online = true })) in
      let linked : Linked r =
        if_both Linked w.online (m, w1) (status_handler true m (record w1 { online = true })) e
          (status_handler-Linked true m (record w1 { online = true }) refl) in
      if_both Linked (text_eq env.header.handler_key Keys.heartbeat_ack) r
        (take_inbound env r.0 r.1) linked (take_inbound-Linked env r linked)

  receive-Linked :
      (now : ℕ) (polled : Option Envelope) (m : Manager F) (w : Worker)
      → m.connected ≡ w.online
      → Linked (receive (owner F) now polled m w)
  unfolding receive
  receive-Linked now none m w e = e
  receive-Linked now (some env) m w e = heard-Linked now env m w e

  check_server-Linked :
      (now : ℕ) (m : Manager F) (w : Worker)
      → m.connected ≡ w.online
      → Linked (check_server (owner F) now m w)
        × (is_overdue now (check_server (owner F) now m w).1 ≡ false)
  unfolding check_server
  check_server-Linked now m w e =
      let off = record w { online = false } in
      let same = status_handler-SameClock false m off in
      elim (Bool-cases (w.online && ltb server_timeout (now - w.last_rx))) [
        | inl late ↦
            rw (late, check_server)
              (status_handler-Linked false m off refl, ground (arith, same.online))
        | inr fine ↦ rw (fine, check_server) (e, fine)
      ]

  -- If the manager's connected flag is the worker's online flag, it is so again after a round of
  -- the worker, whatever is received; and after the round the worker is not both online and
  -- without a message from the server for more than ten seconds.
  pub turn-Linked :
      (rx_now now : ℕ) (polled : Option Envelope) (m : Manager F) (w : Worker)
      → m.connected ≡ w.online
      → Linked (turn (owner F) rx_now now polled m w).0
        × (is_overdue now (turn (owner F) rx_now now polled m w).0.1 ≡ false)
  unfolding turn
  turn-Linked rx_now now polled m w e =
      let r = receive (owner F) rx_now polled m w in
      check_server-Linked now r.0 (sending now r.1)
        (receive-Linked rx_now polled m w e ∙ sym (sending-SameClock now r.1).online)
