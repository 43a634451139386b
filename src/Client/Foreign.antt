-- ===== src/Client/Foreign.antt =====
-- common/connectionapi.h and common/connectionapi.cpp: the C interface. A pointer is an `Option`,
-- with `none` for the null pointer; strings are the bytes up to the terminator.
use zmq_pubsub_testing.Base.{
  ℕ, ◌-◌, ◌%◌, ◌^◌, ◌<◌, ◌≡◌, refl, Bytes, Bool, true, false, Option, none, some, codes, length,
  ltb, if◌then◌else◌, arith,
}
use zmq_pubsub_testing.Base.Decimal.{ℤ, pos, negsuc}
use zmq_pubsub_testing.Client.Session.{
  Process, init, register_internal, send_message, reply_to_sender,
}

-- `Connection_Error_Code`.
pub data ErrorCode : Type 0 where
  success error_generic error_no_connection error_invalid_args error_send_failed : ErrorCode

-- The number of the enumerator.
abbrev pub code_number : ErrorCode → ℤ
code_number success = pos 0
code_number error_generic = negsuc 0
code_number error_no_connection = negsuc 1
code_number error_invalid_args = negsuc 2
code_number error_send_failed = negsuc 3

-- The fields of `Connection_Config` that the client reads.
pub record ForeignConfig : Type 0 where
  pub address : Option Bytes
  pub client_id : Option Bytes

abbrev pub or_default : Option Bytes → Bytes
or_default none = codes "DefaultClientName"
or_default (some id) = id

abbrev pub code_of : Bool → ErrorCode
code_of done = if done then success else error_no_connection

module _ {F : Type 0} where
  unfoldable pub init_connection : Process F → Option ForeignConfig → Process F × ErrorCode
  init_connection s none = (s, error_invalid_args)
  init_connection s (some config) = elim (config.address) [
    | none ↦ (s, error_invalid_args)
    | some address ↦ (init s (or_default config.client_id), success)
  ]

  -- `sendMessage` and `sendData`: a topic and a text.
  unfoldable pub send_foreign : Process F → Option Bytes → Option Bytes → Process F × ErrorCode
  send_foreign s (some topic) (some text) =
      let (s', done) = send_message s topic text in (s', code_of done)
  send_foreign s (some topic) none = (s, error_invalid_args)
  send_foreign s none text = (s, error_invalid_args)

  unfoldable pub reply_foreign : Process F → Option Bytes → Process F × ErrorCode
  reply_foreign s none = (s, error_invalid_args)
  reply_foreign s (some payload) = let (s', done) = reply_to_sender s payload in (s', code_of done)

  -- `registerCallback`: `wrap` is the lambda around the C function.
  unfoldable pub register_foreign : Process F → Option Bytes → Option F → Process F
  register_foreign s (some topic) (some wrapped) =
      register_internal s (record { key = topic; callback = some wrapped; instance_key = 0 })
  register_foreign s (some topic) none = s
  register_foreign s none callback = s

-- What `sendRequest` writes: the code, and the bytes in the buffer if it writes any. `response` is
-- the outcome of `ConnectionManager::sendRequest`; the size is cast to a 32-bit `int`.
abbrev pub to_int : ℕ → ℤ
to_int n = let m = n % 2 ^ 32 in if ltb m 2147483648 then pos m else negsuc (4294967295 - m)

abbrev pub above : ℤ → ℤ → Bool
above (pos m) (pos n) = ltb n m
above (pos m) (negsuc n) = true
above (negsuc m) (pos n) = false
above (negsuc m) (negsuc n) = ltb m n

unfoldable pub store_response : Option Bytes → ℤ → ErrorCode × Option Bytes
store_response none cap = (error_generic, none)
store_response (some response) cap =
    if above (to_int (length response)) cap
    then (error_invalid_args, none)
    else (success, some response)

-- `sendRequest`: `outcome` is what `ConnectionManager::sendRequest` gives for a topic and a payload,
-- the flags tell whether the pointers to the buffer and to its length are set.
unfoldable pub request_foreign :
    (Bytes → Bytes → Option Bytes)
    → Option Bytes
    → Option Bytes
    → Bool
    → Bool
    → ℤ
    → ErrorCode × Option Bytes
request_foreign outcome (some topic) (some payload) true true cap =
    store_response (outcome topic payload) cap
request_foreign outcome _ _ _ _ cap = (error_invalid_args, none)

to_int-small : (n : ℕ) → n < 2147483648 → to_int n ≡ pos n
to_int-small n small = let e : n % 2 ^ 32 ≡ n = omega arith in rw e (ground arith)

pub request_foreign-fits :
    (outcome : Bytes → Bytes → Option Bytes) (topic payload response : Bytes) (cap : ℕ)
    → outcome topic payload ≡ some response
    → length response < 2147483648
    → request_foreign outcome (some topic) (some payload) true true (pos cap)
      ≡ (if ltb cap (length response) then (error_invalid_args, none) else (success, some response))
unfolding request_foreign store_response
request_foreign-fits outcome topic payload response cap e small =
    rw (e, store_response, to_int-small (length response) small) refl
