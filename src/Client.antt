-- ===== src/Client.antt =====
-- common/connectionmanager.h and common/connectionmanager.cpp: the client's `ConnectionManager`. A
-- callback is a value of a type `F`; what the user's code does when it is called is a parameter. The
-- worker is a state of its own, which the manager's functions change by their writes.
pub mod Session
pub mod Handlers
pub mod Agreement
pub mod Conversation
pub mod Online
pub mod Requests
pub mod Foreign
pub mod Payload
pub mod Typed
pub mod Mixed
pub mod Early
pub mod Asking
mod Tests
mod TypedTests
mod AskingTests
use zmq_pubsub_testing.Base.{
  ℕ, ◌+◌, Bytes, Bool, true, false, not, List, [], ◌∷◌, ◌++◌, Option, none, some, text_eq, is_empty,
  if◌then◌else◌, ◌==◌,
}
use zmq_pubsub_testing.Base.Maps.{Map, find, assign, erase}
use zmq_pubsub_testing.Keys
use zmq_pubsub_testing.Keys.{is_control_message}
use zmq_pubsub_testing.SafeQueue.{Queue, make, push_for}
use zmq_pubsub_testing.Wire.{Header, no_header, Envelope}
use zmq_pubsub_testing.Worker.{Worker, Owner, settle, write_message, write_control}

-- `instance` is an address, 0 the null pointer; `func` is `none` for an empty `std::function`.
pub record CallbackEntry (F : Type 0) : Type 0 where
  pub instance_key : ℕ
  pub func : Option F

-- `reply_topic` is the thread-local variable of the processing thread.
pub record Manager (F : Type 0) : Type 0 where
  pub client_id : Bytes
  pub queue : Queue Envelope
  pub running : Bool
  pub connected : Bool
  pub msg_handlers : Map (List (CallbackEntry F))
  pub reply_topic : Bytes

-- `createControlEnvelope`, and the envelopes of data, with a key that is also the topic.
abbrev pub envelope_of : Bytes → Bytes → Bytes → Bytes → Envelope
envelope_of client_id key topic payload = record {
  header = record no_header { handler_key = key; sender_id = client_id; topic = topic };
  payload = payload;
}

-- `sendRawEnvelope`. `ZMQ` is the only protocol, so the worker exists.
unfoldable pub send_raw_envelope : Worker → Envelope → Worker × Bool
send_raw_envelope w env =
    if is_control_message env.header.handler_key then write_control w env else write_message w env

module _ {F : Type 0} where
  -- The constructor.
  unfoldable pub make_manager : Bytes → Manager F
  make_manager client_id = record {
    client_id = client_id;
    queue = make 5000;
    running = true;
    connected = false;
    msg_handlers = [];
    reply_topic = [];
  }

  abbrev pub control_envelope : Manager F → Bytes → Bytes → Envelope
  control_envelope m key topic = envelope_of m.client_id key topic []

  unfoldable pub send_data_internal : Manager F → Worker → Bytes → Bytes → Worker × Bool
  send_data_internal m w key payload = send_raw_envelope w (envelope_of m.client_id key key payload)

  -- What `operator[]` reads.
  abbrev pub entries : Option (List (CallbackEntry F)) → List (CallbackEntry F)
  entries none = []
  entries (some l) = l

  unfoldable pub perform_registration :
      Manager F → Worker → Bytes → Option F → ℕ → Manager F × Worker
  perform_registration m w key callback instance_key =
      let entry : CallbackEntry F = record { instance_key = instance_key; func = callback } in
      (
        record m {
          msg_handlers =
              assign key (entries (find key m.msg_handlers) ++ entry ∷ []) m.msg_handlers;
        },
        if m.connected then (send_raw_envelope w (control_envelope m Keys.subscribe key)).0 else w,
      )

  -- `remove_if` and `erase`.
  unfoldable pub without_instance : ℕ → List (CallbackEntry F) → List (CallbackEntry F)
  without_instance k [] = []
  without_instance k (e ∷ es) =
      (if e.instance_key == k then [] else e ∷ []) ++ without_instance k es

  -- The entries that are left, or none: then the key goes, and the broker is told.
  abbrev pub keep_or_unsubscribe :
      Manager F → Worker → Bytes → List (CallbackEntry F) → Manager F × Worker
  keep_or_unsubscribe m w key [] = (
    record m { msg_handlers = erase key m.msg_handlers },
    if m.connected then (send_raw_envelope w (control_envelope m Keys.unsubscribe key)).0 else w,
  )
  keep_or_unsubscribe m w key (e ∷ es) =
      (record m { msg_handlers = assign key (e ∷ es) m.msg_handlers }, w)

  unfoldable pub perform_unregistration : Manager F → Worker → Bytes → ℕ → Manager F × Worker
  perform_unregistration m w key instance_key = elim (find key m.msg_handlers) [
    | none ↦ (m, w)
    | some vec ↦ keep_or_unsubscribe m w key (without_instance instance_key vec)
  ]

  -- The loops that send a SUBSCRIBE for each topic.
  unfoldable pub subscribe_each : Bytes → List (Bytes × List (CallbackEntry F)) → Worker → Worker
  subscribe_each client_id [] w = w
  subscribe_each client_id ((topic, handlers) ∷ rest) w =
      subscribe_each client_id rest
        (send_raw_envelope w (envelope_of client_id Keys.subscribe topic [])).0

  unfoldable pub resubscribe_all : Manager F → Worker → Worker
  resubscribe_all m w = subscribe_each m.client_id m.msg_handlers w

  -- The lambda `statusHandler`.
  unfoldable pub status_handler : Bool → Manager F → Worker → Manager F × Worker
  status_handler connected m w = (
    record m { connected = connected },
    if connected
        then subscribe_each m.client_id m.msg_handlers
            (send_raw_envelope w (control_envelope m Keys.connect [])).0
        else w,
  )

  -- The inbound queue of the worker: one timed attempt, and the message is dropped if it fails.
  unfoldable pub take_inbound : Envelope → Manager F → Worker → Manager F × Worker
  take_inbound env m w = (record m { queue = (settle m.queue (push_for m.queue env true)).0 }, w)

  unfoldable pub send_reply_envelope : Manager F → Worker → Bytes → Worker × Bool
  send_reply_envelope m w payload =
      if is_empty m.reply_topic
      then (w, false)
      else send_raw_envelope w (envelope_of m.client_id m.reply_topic m.reply_topic payload)

  -- The `shutdown` of an instance that exists.
  unfoldable pub say_goodbye : Manager F → Worker → Manager F × Worker
  say_goodbye m w = (
    record m { running = false },
    if m.connected then (write_control w (control_envelope m Keys.disconnect [])).0 else w,
  )

  -- The envelope that `sendRequest` sends.
  abbrev pub request_of : Manager F → Bytes → Bytes → Bytes → Envelope
  request_of m topic reply_topic payload = record {
    header = record no_header {
      handler_key = topic;
      sender_id = m.client_id;
      topic = topic;
      reply_topic = reply_topic;
    };
    payload = payload;
  }

  -- The two halves of `sendRequest`, before and behind the wait for the reply.
  unfoldable pub begin_request :
      Manager F → Worker → Bytes → Bytes → Bytes → F → ℕ → Manager F × Worker
  begin_request m w topic reply_topic payload set_value promise_key =
      let (m', w') = perform_registration m w reply_topic (some set_value) promise_key in
      (m', (send_raw_envelope w' (request_of m topic reply_topic payload)).0)

  unfoldable pub end_request : Manager F → Worker → Bytes → ℕ → Manager F × Worker
  end_request m w reply_topic promise_key = perform_unregistration m w reply_topic promise_key

-- How a worker reports to the manager that made it.
abbrev pub owner : (F : Type 0) → Owner
owner F = record { State = Manager F; on_status = status_handler; on_message = take_inbound }

module _ {F : Type 0} (user : F → Bytes → Manager F → Worker → Manager F × Worker) where
  -- A callback that is an empty function is not called.
  abbrev pub call_entry : Option F → Bytes → Manager F → Worker → Manager F × Worker
  call_entry none payload m w = (m, w)
  call_entry (some f) payload m w = user f payload m w

  -- The loop of `handleMessage` over its copy of the callbacks; exceptions end in the loop.
  unfoldable pub call_each :
      List (CallbackEntry F) → Bytes → Manager F → Worker → Manager F × Worker
  call_each [] payload m w = (m, w)
  call_each (e ∷ es) payload m w =
      let (m', w') = call_entry e.func payload m w in call_each es payload m' w'

  unfoldable pub handle_message : Envelope → Manager F → Worker → Manager F × Worker
  handle_message env m w =
      let callbacks = entries (find env.header.topic m.msg_handlers) in
      let (m', w') =
        call_each callbacks env.payload (record m { reply_topic = env.header.reply_topic }) w in
      (record m' { reply_topic = [] }, w')

  -- A message of the inbound queue in `processingLoop`.
  unfoldable pub process_envelope : Envelope → Manager F → Worker → Manager F × Worker
  process_envelope env m w =
      if text_eq env.header.handler_key Keys.reset
      then (m, resubscribe_all m w)
      else handle_message env m w
