-- ===== src/Adapter.antt =====
-- bindings/qt/qtconnectionadapter.h: `QtConnectionAdapter` over the client's manager. What is used of
-- Qt is a parameter: strings, JSON, and an event queue that runs what is posted to it in order.
pub mod Ordering
pub mod Owned
pub mod Removal
mod Tests
use zmq_pubsub_testing.Base.{
  ℕ, ◌%◌, ◌^◌, Bytes, Bool, true, false, List, [], ◌∷◌, ◌++◌, Option, none, some, length, ltb, ◌==◌,
  if◌then◌else◌,
}
use zmq_pubsub_testing.Base.Maps.{find}
use zmq_pubsub_testing.Wire.{Envelope}
use zmq_pubsub_testing.Worker.{Worker}
use zmq_pubsub_testing.Client.{Manager, CallbackEntry, entries}
use zmq_pubsub_testing.Client.Asking
use zmq_pubsub_testing.Client.Payload.{Encoding, Value, specialized, decode_payload}
use zmq_pubsub_testing.Client.Session.{
  Process, Pending, init, shutdown, register_internal, unregister_callback,
}
use zmq_pubsub_testing.Client.Typed.{send_value, reply_value, decode_reply}

-- `QString`, and `QJsonObject` with `toJson` and `fromJson(...).object()`, which never fail.
pub record Qt : Type 1 where
  pub QString : Type 0
  pub to_std_string : QString → Bytes
  pub from_std_string : Bytes → QString
  pub QJsonObject : Type 0
  pub to_json : QJsonObject → Bytes
  pub object_of : Bytes → QJsonObject

-- The bytes before the first null.
unfoldable pub until_null : Bytes → Bytes
until_null [] = []
until_null (c ∷ cs) = let rest = until_null cs in if c == 0 then [] else c ∷ rest

-- `QByteArray(data, int(size))`, which reads up to the terminator if the size is negative.
unfoldable pub byte_array : Bytes → Bytes
byte_array bytes = if ltb (length bytes % 2 ^ 32) (2 ^ 31) then bytes else until_null bytes

-- The `DataSerializer` of a byte array.
abbrev pub byte_array_encoding : Encoding
byte_array_encoding = specialized Bytes (λ b. b) (λ raw. some (byte_array raw))

module _ (qt : Qt) where
  abbrev pub string_encoding : Encoding
  string_encoding = specialized qt.QString qt.to_std_string (λ raw. some (qt.from_std_string raw))

  abbrev pub json_encoding : Encoding
  json_encoding =
      specialized qt.QJsonObject qt.to_json (λ raw. some (qt.object_of (byte_array raw)))

-- The lambda of `registerCallback`: the context's address, and the function that is to run on the
-- thread of the context.
pub record Marshal (H : Type 0) : Type 0 where
  pub context : ℕ
  pub func : H

-- What `invokeMethod` posts: the context, the function and its copy of the value.
pub record Event (H V : Type 0) : Type 0 where
  pub context : ℕ
  pub func : H
  pub value : V

-- `decode` is `decodePayload` for the type of the function's argument. A function without an argument
-- takes any payload.
module _ {H V : Type 0} (decode : H → Bytes → Option V) where
  abbrev pub post_value : Marshal H → Option V → List (Event H V)
  post_value c none = []
  post_value c (some value) = record { context = c.context; func = c.func; value = value } ∷ []

  unfoldable pub post : Marshal H → Bytes → List (Event H V)
  post c raw = post_value c (decode c.func raw)

  abbrev pub post_entry : Option (Marshal H) → Bytes → List (Event H V)
  post_entry none raw = []
  post_entry (some c) raw = post c raw

  -- The loop of `handleMessage` over the callbacks of a topic, as the event queue sees it: the
  -- lambdas touch nothing else.
  unfoldable pub post_each : List (CallbackEntry (Marshal H)) → Bytes → List (Event H V)
  post_each [] raw = []
  post_each (e ∷ es) raw = post_entry e.func raw ++ post_each es raw

  unfoldable pub posted : Manager (Marshal H) → Envelope → List (Event H V)
  posted m env = post_each (entries (find env.header.topic m.msg_handlers)) env.payload

abbrev pub State : Type 0 → Type 0
State H = Process (Marshal H)

module _ {H : Type 0} where
  -- The constructor and the destructor.
  unfoldable pub make_adapter : State H → Bytes → State H
  make_adapter s client_id = init s client_id

  unfoldable pub destroy_adapter : State H → State H × Option (Manager (Marshal H) × Worker)
  destroy_adapter s = shutdown s

  unfoldable pub reply : State H → (e : Encoding) → Value e → State H × Bool
  reply s e payload = reply_value s e payload

module _ (qt : Qt) where
  -- `sendRequest`, behind the wait for the reply.
  unfoldable pub string_reply : Option Bytes → Option qt.QString
  string_reply none = none
  string_reply (some response) = some (qt.from_std_string response)

  -- `sendRequest` of texts; `user` and `handled` are the manager's code and messages in the meantime.
  unfoldable pub send_request :
      {H : Type 0}
      → (Marshal H → Bytes → Manager (Marshal H) → Worker → Manager (Marshal H) × Worker)
      → State H
      → qt.QString
      → Bytes
      → qt.QString
      → Marshal H
      → ℕ
      → List Envelope
      → State H × Option qt.QString
  unfolding string_reply
  send_request user s topic reply_topic payload set_value promise_key handled =
      let (s', response) =
        Asking.send_request user s (qt.to_std_string topic) reply_topic (qt.to_std_string payload)
          set_value promise_key handled in
      (s', string_reply response)

module _ (qt : Qt) {H : Type 0} where
  unfoldable pub send_message : State H → qt.QString → (e : Encoding) → Value e → State H × Bool
  send_message s key e payload = send_value s (qt.to_std_string key) e payload

  unfoldable pub unregister : State H → qt.QString → ℕ → State H
  unregister s key context = unregister_callback s (qt.to_std_string key) context

  -- The three `registerCallback`s: the context is also the key of the instance.
  unfoldable pub register : State H → qt.QString → ℕ → H → State H
  register s key context func = register_internal s (record {
    key = qt.to_std_string key;
    callback = some (record { context = context; func = func });
    instance_key = context;
  })
