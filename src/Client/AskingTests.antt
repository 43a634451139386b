-- ===== src/Client/AskingTests.antt =====
-- A request at concrete inputs.
use zmq_pubsub_testing.Base.{
  ◌≡◌, refl, ℕ, Bytes, Bytes-discrete, ℕ_discrete, false, List, [], ◌∷◌, ◌++◌, codes, some, arith,
}
use zmq_pubsub_testing.Base.Maps.{find, assign}
use zmq_pubsub_testing.Keys
use zmq_pubsub_testing.Keys.{is_control_message}
use zmq_pubsub_testing.SafeQueue.{make}
use zmq_pubsub_testing.Wire.{Envelope}
use zmq_pubsub_testing.Worker.{Worker, make_worker}
use zmq_pubsub_testing.Client.{Manager, make_manager, perform_registration, envelope_of, entries}
use zmq_pubsub_testing.Client.Asking.{send_request, first_reply, has_instance, send_request_lem}
use zmq_pubsub_testing.Client.Early.{handlers_of}
use zmq_pubsub_testing.Client.Session.{holding}

program : Unit {0}
unfolding find assign Bytes-discrete ℕ_discrete make make_worker make_manager perform_registration
    Keys.connect Keys.disconnect Keys.reset Keys.heartbeat Keys.heartbeat_ack Keys.subscribe
    Keys.unsubscribe is_control_message first_reply has_instance
program = tt

abbrev news : Bytes
news = codes "news"

-- A client with a handler for the news.
abbrev client : Manager ℕ × Worker
client =
    perform_registration (make_manager (codes "alice")) (make_worker (codes "alice")) news (some 1)
      0

-- The user's code notes what it gets in the client's name.
abbrev noted : ℕ → Bytes → Manager ℕ → Worker → Manager ℕ × Worker
noted f payload m w = (record m { client_id = m.client_id ++ payload }, w)

-- While the request waits, some news come in, and then the reply.
abbrev handled : List Envelope
handled =
    envelope_of (codes "bob") news news (codes "n")
    ∷ envelope_of (codes "bob") (codes "ask-1") (codes "ask-1") (codes "!x")
    ∷ []

alone : (t : Bytes) → has_instance 9 (entries (find t client.0.msg_handlers)) ≡ false
unfolding program
alone t = ground arith

send_request_lem_example :
    let r =
      send_request noted
        (holding client [])
        (codes "ask")
        (codes "ask-1")
        (codes "x")
        7
        9
        handled in
    (r.1 ≡ some (codes "!x")) × (handlers_of r.0 news ≡ entries (find news client.0.msg_handlers))
unfolding program
send_request_lem_example =
    send_request_lem noted (λ f raw m w. refl) (holding client []) client.0 client.1 (codes "ask")
      (codes "ask-1") (codes "x") news 7 9 handled refl refl alone
