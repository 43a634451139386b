-- ===== src/Client/Mixed.antt =====
-- common/connectionmanager.h: callbacks of several kinds on one topic, and a payload that not all of
-- them take.
use zmq_pubsub_testing.Base.{
  ◌≡◌, refl, ap, ◌∙◌, sym, ℕ, Bytes, List, [], ◌∷◌, ◌++◌, Option, none, some, length, ℕ_discrete,
}
use zmq_pubsub_testing.Base.Maps.{find}
use zmq_pubsub_testing.Wire.{Envelope}
use zmq_pubsub_testing.Worker.{Worker}
use zmq_pubsub_testing.Client.{
  Manager, CallbackEntry, entries, call_entry, call_each, handle_message,
}
use zmq_pubsub_testing.Client.Payload.{
  Encoding, Value, Object, specialized, message, text, copied, copy_object, try_unpack,
  encode_payload, decode_payload, ℕ_set,
}
use zmq_pubsub_testing.Client.Typed.{
  call_decoded, typed_callback, plain_callback, replying, settled, call_all,
}

abbrev pub Action : Type 0 → Type 0
Action F = Manager F → Worker → Manager F × Worker

-- What `registerCallback` is given: a function of a value, or one that takes nothing.
pub data Callable (F : Type 0) : Type 1 where
  takes : (e : Encoding) → (Value e → Action F) → Callable F
  plain : Option (Action F) → Callable F

unfoldable pub invoke : {F : Type 0} → Callable F → Bytes → Action F
invoke (takes e func) raw = typed_callback e func raw
invoke (plain func) raw = plain_callback func raw

-- A serializer of the user's throws, and protobuf parses the bytes neither as an Any nor as the type.
abbrev pub IsForeign : {F : Type 0} → Bytes → Callable F → Type 0
IsForeign raw (takes (specialized T serialize deserialize) func) = deserialize raw ≡ none
IsForeign raw (takes (message T p) func) = (p.parse_any raw ≡ none) × (p.parse raw ≡ none)
IsForeign raw (takes text func) = Unit {0}
IsForeign raw (takes (copied size) func) = Unit {0}
IsForeign raw (plain func) = Unit {0}

call_all-append :
    {F : Type 0} (fs gs : List (Action F)) (r : Manager F × Worker)
    → call_all (fs ++ gs) r ≡ call_all gs (call_all fs r)
unfolding call_all
call_all-append [] gs r = refl
call_all-append (f ∷ fs) gs r = call_all-append fs gs (f r.0 r.1)

module _ {F : Type 0} (size : ℕ) (v : Object size) where
  abbrev same_size : {n : ℕ} → (Object n → Action F) → Dec (size ≡ n) → List (Action F)
  same_size func (yes same) = func (record { bytes = v.bytes; sized = v.sized ∙ same }) ∷ []
  same_size func (no differs) = []

  -- The functions that a struct reaches: those without an argument, those of a string, which get its
  -- bytes, and those of a struct of the same size.
  abbrev pub reached : Callable F → List (Action F)
  reached (plain none) = []
  reached (plain (some func)) = func ∷ []
  reached (takes (specialized T serialize deserialize) func) = []
  reached (takes (message T p) func) = []
  reached (takes text func) = func v.bytes ∷ []
  reached (takes (copied n) func) = same_size func (ℕ_discrete size n)

  invoke-same_size :
      {n : ℕ} (func : Object n → Action F) (m : Manager F) (w : Worker)
      (d : Dec (length v.bytes ≡ n)) (e : Dec (size ≡ n))
      → call_decoded func (copy_object n v.bytes d) m w ≡ call_all (same_size func e) (m, w)
  unfolding call_all
  invoke-same_size {n = n} func m w (yes fits) (yes same) =
      ap (λ q. func (record { bytes = v.bytes; sized = q }) m w)
        (ℕ_set (length v.bytes) n fits (v.sized ∙ same))
  invoke-same_size func m w (yes fits) (no differs) = absurd (differs (sym v.sized ∙ fits))
  invoke-same_size func m w (no differs) (yes same) = absurd (differs (v.sized ∙ same))
  invoke-same_size func m w (no differs) (no other) = refl

  module _ (callable_of : F → Callable F) where
    abbrev reached_by : Option F → List (Action F)
    reached_by none = []
    reached_by (some f) = reached (callable_of f)

    abbrev pub all_reached : List (CallbackEntry F) → List (Action F)
    all_reached [] = []
    all_reached (c ∷ cs) = reached_by c.func ++ all_reached cs

    abbrev IsForeignEntry : Option F → Type 0
    IsForeignEntry none = Unit {0}
    IsForeignEntry (some f) = IsForeign v.bytes (callable_of f)

    abbrev pub AreForeign : List (CallbackEntry F) → Type 0
    AreForeign [] = Unit {0}
    AreForeign (c ∷ cs) = IsForeignEntry c.func × AreForeign cs

    abbrev pub user : F → Bytes → Action F
    user f = invoke (callable_of f)

    invoke-reached :
        (k : Callable F) (m : Manager F) (w : Worker)
        → IsForeign v.bytes k
        → invoke k v.bytes m w ≡ call_all (reached k) (m, w)
    unfolding invoke call_all typed_callback plain_callback decode_payload try_unpack
    invoke-reached (plain none) m w foreign = refl
    invoke-reached (plain (some func)) m w foreign = refl
    invoke-reached (takes (specialized T serialize deserialize) func) m w foreign = rw foreign refl
    invoke-reached (takes (message T p) func) m w foreign =
        rw (try_unpack, foreign.0, foreign.1) refl
    invoke-reached (takes text func) m w foreign = refl
    invoke-reached (takes (copied n) func) m w foreign =
        invoke-same_size func m w (ℕ_discrete (length v.bytes) n) (ℕ_discrete size n)

    call_entry-reached_by :
        (o : Option F) (m : Manager F) (w : Worker)
        → IsForeignEntry o
        → call_entry user o v.bytes m w ≡ call_all (reached_by o) (m, w)
    unfolding call_all
    call_entry-reached_by none m w foreign = refl
    call_entry-reached_by (some f) m w foreign = invoke-reached (callable_of f) m w foreign

    call_each-all_reached :
        (cs : List (CallbackEntry F)) (m : Manager F) (w : Worker)
        → AreForeign cs
        → call_each user cs v.bytes m w ≡ call_all (all_reached cs) (m, w)
    unfolding call_each call_all
    call_each-all_reached [] m w foreign = refl
    call_each-all_reached (c ∷ cs) m w foreign =
        let r = call_entry user c.func v.bytes m w in
        call_each-all_reached cs r.0 r.1 foreign.1
        ∙ ap (call_all (all_reached cs)) (call_entry-reached_by c.func m w foreign.0)
        ∙ sym (call_all-append (reached_by c.func) (all_reached cs) (m, w))

    -- The payload of a message is an encoded struct, and the topic has callbacks of any kinds. If
    -- the deserializers of the DataSerializers among them throw on these bytes, and protobuf
    -- parses them neither as an Any nor as a message of the types of the protobuf callbacks, then
    -- handleMessage calls, in the order of registration and each on what the one before has left,
    -- exactly the callbacks without an argument that are not empty, those of a string, with the
    -- struct's bytes, and those of a struct of the same size, with the same bytes, and clears the
    -- reply topic behind them; it skips all others.
    pub handle_message-all_reached :
        (env : Envelope) (m : Manager F) (w : Worker)
        → env.payload ≡ encode_payload (copied size) v
        → AreForeign (entries (find env.header.topic m.msg_handlers))
        → handle_message user env m w
          ≡ settled (
              call_all
                (all_reached (entries (find env.header.topic m.msg_handlers)))
                (replying m env.header.reply_topic, w))
    unfolding handle_message encode_payload
    handle_message-all_reached env m w e foreign =
        let cs = entries (find env.header.topic m.msg_handlers) in
        ap settled (
          ap (λ raw. call_each user cs raw (replying m env.header.reply_topic) w) e
          ∙ call_each-all_reached cs (replying m env.header.reply_topic) w foreign)
