-- ===== src/Worker.antt =====
-- common/workerinterface.h, common/zmqworker.h and common/zmqworker.cpp: the thread that owns a
-- client's socket. Whoever makes a worker gives it a status callback and a place for the messages
-- that come in; both are an `Owner` here.
pub mod Sends
use zmq_pubsub_testing.Base.{
  ℕ, zero, suc, ◌+◌, ◌-◌, ◌*◌, Bytes, Bool, true, false, ◌&&◌, List, [], ◌∷◌, ◌++◌, Option, none,
  some, text_eq, length, ltb, if◌then◌else◌,
}
use zmq_pubsub_testing.Keys
use zmq_pubsub_testing.SafeQueue.{Queue, Outcome, returns, waits, make, push_for, try_pop}
use zmq_pubsub_testing.Wire.{no_header, Envelope}

-- `heartbeat_after` is `lastHeartbeat + HEARTBEAT_INTERVAL`, so that the first one needs no
-- negative time.
pub record Worker : Type 0 where
  pub client_id : Bytes
  pub running : Bool
  pub control : Queue Envelope
  pub outbound : Queue Envelope
  pub online : Bool
  pub last_rx : ℕ
  pub heartbeat_after : ℕ

abbrev pub heartbeat_interval : ℕ
heartbeat_interval = 3 * 1000000000

abbrev pub server_timeout : ℕ
server_timeout = 10 * 1000000000

-- The constructor; the queues have the default limit of `SafeQueue`.
unfoldable pub make_worker : Bytes → Worker
make_worker client_id = record {
  client_id = client_id;
  running = false;
  control = make 5000;
  outbound = make 5000;
  online = false;
  last_rx = 0;
  heartbeat_after = 0;
}

-- A `push` at the moment at which its wait ends, by a free place or by the timeout.
abbrev pub settle : Queue Envelope → Outcome (Queue Envelope × Bool) → Queue Envelope × Bool
settle q (returns r) = r
settle q waits = (q, false)

unfoldable pub write_message : Worker → Envelope → Worker × Bool
write_message w env =
    let (q, done) = settle w.outbound (push_for w.outbound env true) in
    (record w { outbound = q }, done)

unfoldable pub write_control : Worker → Envelope → Worker × Bool
write_control w env =
    let (q, done) = settle w.control (push_for w.control env true) in
    (record w { control = q }, done)

-- What a worker calls: the status callback, and for a message the inbound queue or the message
-- callback. A missing callback leaves everything as it is.
pub record Owner : Type 1 where
  pub State : Type 0
  pub on_status : Bool → State → Worker → State × Worker
  pub on_message : Envelope → State → Worker → State × Worker

-- `sendHeartbeat`.
abbrev pub heartbeat_of : Worker → Envelope
heartbeat_of w = record {
  header = record no_header { handler_key = Keys.heartbeat; sender_id = w.client_id };
  payload = [];
}

-- The loops over the queues: what they send, in order, in at most the given number of rounds.
abbrev pub sent_first :
    Option Envelope → (Worker → Worker × List Envelope) → Worker → Worker × List Envelope
sent_first none next w = (w, [])
sent_first (some env) next w = let (w', sent) = next w in (w', env ∷ sent)

unfoldable pub drain_control : ℕ → Worker → Worker × List Envelope
drain_control zero w = (w, [])
drain_control (suc fuel) w =
    let (q, env) = try_pop w.control in
    sent_first env (drain_control fuel) (record w { control = q })

unfoldable pub drain_outbound : ℕ → Worker → Worker × List Envelope
drain_outbound zero w = (w, [])
drain_outbound (suc fuel) w =
    let (q, env) = try_pop w.outbound in
    sent_first env (drain_outbound fuel) (record w { outbound = q })

-- The start of `run`: the worker is offline, says so, and owes a heartbeat.
unfoldable pub begin_run : (o : Owner) → ℕ → o.State → Worker → o.State × Worker
begin_run o now s w =
    o.on_status false s
      (record w { running = true; online = false; last_rx = now; heartbeat_after = now })

-- A message that `wire::recv` gave.
unfoldable pub heard : (o : Owner) → ℕ → Envelope → o.State → Worker → o.State × Worker
heard o now env s w =
    let w1 = record w { last_rx = now } in
    let (s2, w2) =
      (if w.online then (s, w1) else o.on_status true s (record w1 { online = true })) in
    if text_eq env.header.handler_key Keys.heartbeat_ack then (s2, w2) else o.on_message env s2 w2

-- `none`: nothing came in, or nothing that decodes.
unfoldable pub receive : (o : Owner) → ℕ → Option Envelope → o.State → Worker → o.State × Worker
receive o now none s w = (s, w)
receive o now (some env) s w = heard o now env s w

unfoldable pub beat : ℕ → Worker → Worker × List Envelope
beat now w =
    if ltb w.heartbeat_after now
    then (record w { heartbeat_after = now + heartbeat_interval }, heartbeat_of w ∷ [])
    else (w, [])

unfoldable pub check_server : (o : Owner) → ℕ → o.State → Worker → o.State × Worker
check_server o now s w =
    if w.online && ltb server_timeout (now - w.last_rx)
    then o.on_status false s (record w { online = false })
    else (s, w)

-- One round of the loop; the clock is read at the receipt and behind the loops.
unfoldable pub turn :
    (o : Owner) → ℕ → ℕ → Option Envelope → o.State → Worker → (o.State × Worker) × List Envelope
turn o rx_now now polled s w =
    let (s1, w1) = receive o rx_now polled s w in
    let (w2, control) = drain_control (length w1.control.items) w1 in
    let (w3, messages) = drain_outbound (length w2.outbound.items) w2 in
    let (w4, beats) = beat now w3 in (check_server o now s1 w4, control ++ messages ++ beats)

-- `stop`, and the final drain behind the loop.
unfoldable pub finish_run : Worker → Worker × List Envelope
finish_run w = drain_control (length w.control.items) (record w { running = false })
