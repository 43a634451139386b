-- ===== src/Client/Payload.antt =====
-- common/connectionmanager.h, namespace `detail`: how a C++ value becomes a payload and back. The
-- branch of `if constexpr` that a type takes is its `Encoding`.
use zmq_pubsub_testing.Base.{
  ℕ, ◌≡◌, refl, ap, Bytes, Bool, true, false, Option, none, some, codes, length, ◌==◌,
  if◌then◌else◌, arith, is_some, ℕ_discrete,
}
use zmq_pubsub_testing.Broker.Peers.{starts_with}

-- What is used of protobuf: `google::protobuf::Any`, and a message type `T`.
pub record Protocol (T : Type 0) : Type 1 where
  pub Any : Type 0
  pub parse_any : Bytes → Option Any
  pub serialize_any : Any → Bytes
  pub type_url : Any → Bytes
  pub pack : T → Any
  pub is_type : Any → Bool
  pub unpack : Any → Option T
  pub parse : Bytes → Option T

-- A trivially copyable object of a size is its bytes.
pub record Object (size : ℕ) : Type 0 where
  pub bytes : Bytes
  pub sized : length bytes ≡ size

-- The branch of `if constexpr` that a type takes: a `DataSerializer`, whose `deserialize` may throw; a
-- protobuf message; `std::string`; a trivially copyable struct of a size.
pub data Encoding : Type 1 where
  specialized : (T : Type 0) → (T → Bytes) → (Bytes → Option T) → Encoding
  message : (T : Type 0) → Protocol T → Encoding
  text : Encoding
  copied : ℕ → Encoding

-- The type itself.
abbrev pub Value : Encoding → Type 0
Value (specialized T serialize deserialize) = T
Value (message T p) = T
Value text = Bytes
Value (copied size) = Object size

abbrev pub any_prefix : Bytes
any_prefix = codes "type.googleapis.com/"

-- Bytes that are an Any are taken as one, whatever comes of it.
unfoldable pub try_unpack : {T : Type 0} → Protocol T → Bytes → Option T
try_unpack p raw = elim (p.parse_any raw) [
  | none ↦ p.parse raw
  | some any ↦
      if starts_with any_prefix (p.type_url any)
      then (if p.is_type any then p.unpack any else none)
      else p.parse raw
]

unfoldable pub encode_payload : (e : Encoding) → Value e → Bytes
encode_payload (specialized T serialize deserialize) value = serialize value
encode_payload (message T p) value = p.serialize_any (p.pack value)
encode_payload text value = value
encode_payload (copied size) value = value.bytes

-- `memcpy`, if the size fits.
abbrev pub copy_object : (size : ℕ) (raw : Bytes) → Dec (length raw ≡ size) → Option (Object size)
copy_object size raw (yes fits) = some (record { bytes = raw; sized = fits })
copy_object size raw (no differs) = none

unfoldable pub decode_payload : (e : Encoding) → Bytes → Option (Value e)
decode_payload (specialized T serialize deserialize) raw = deserialize raw
decode_payload (message T p) raw = try_unpack p raw
decode_payload text raw = some raw
decode_payload (copied size) raw = copy_object size raw (ℕ_discrete (length raw) size)

-- What protobuf documents of Any.
pub record IsProtocol {T : Type 0} (p : Protocol T) : Type 0 where
  pub parses : (any : p.Any) → p.parse_any (p.serialize_any any) ≡ some any
  pub prefixed : (v : T) → starts_with any_prefix (p.type_url (p.pack v)) ≡ true
  pub typed : (v : T) → p.is_type (p.pack v) ≡ true
  pub unpacks : (v : T) → p.unpack (p.pack v) ≡ some v

-- What is asked of each kind of type: a serializer of the user's reads back what it has written.
abbrev pub IsEncoding : Encoding → Type 0
IsEncoding (specialized T serialize deserialize) = (v : T) → deserialize (serialize v) ≡ some v
IsEncoding (message T p) = IsProtocol p
IsEncoding text = Unit {0}
IsEncoding (copied size) = Unit {0}

pub ℕ_set : IsSet ℕ
ℕ_set = hlevel

copy_object-fits :
    (size : ℕ) (v : Object size) (d : Dec (length v.bytes ≡ size))
    → copy_object size v.bytes d ≡ some v
copy_object-fits size v (yes fits) =
    ap (λ q. some (record { bytes = v.bytes; sized = q }))
      (ℕ_set (length v.bytes) size fits v.sized)
copy_object-fits size v (no differs) = absurd (differs v.sized)

pub decode_payload-encoded :
    (e : Encoding) (v : Value e) → IsEncoding e → decode_payload e (encode_payload e v) ≡ some v
unfolding encode_payload decode_payload try_unpack
decode_payload-encoded (specialized T serialize deserialize) v law = law v
decode_payload-encoded (message T p) v law =
    rw (try_unpack, law.parses (p.pack v), law.prefixed v, law.typed v) (law.unpacks v)
decode_payload-encoded text v law = refl
decode_payload-encoded (copied size) v law =
    copy_object-fits size v (ℕ_discrete (length v.bytes) size)

-- A type that the namespace encodes itself.
abbrev pub IsBuiltIn : Encoding → Type 0
IsBuiltIn (specialized T serialize deserialize) = ⊥
IsBuiltIn (message T p) = IsProtocol p
IsBuiltIn text = Unit {0}
IsBuiltIn (copied size) = Unit {0}

IsBuiltIn-IsEncoding : (e : Encoding) → IsBuiltIn e → IsEncoding e
IsBuiltIn-IsEncoding (specialized T serialize deserialize) b = elim b [ ]
IsBuiltIn-IsEncoding (message T p) b = b
IsBuiltIn-IsEncoding text b = b
IsBuiltIn-IsEncoding (copied size) b = b

copy_object-is_some :
    (size : ℕ) (raw : Bytes) (d : Dec (length raw ≡ size))
    → is_some (copy_object size raw d) ≡ (length raw == size)
copy_object-is_some size raw (yes fits) = ground (arith, fits)
copy_object-is_some size raw (no differs) = ground (arith, differs)

-- For a protobuf message, given what protobuf documents of Any, for a string and for a trivially
-- copyable struct of any size, decodePayload gives back the value that encodePayload encoded; a
-- receiver that decodes the same payload as a string gets its bytes, and one that decodes it as a
-- struct of some size succeeds exactly if the payload has that size.
pub decode_payload-encode_payload :
    (e : Encoding) (v : Value e) (size : ℕ)
    → IsBuiltIn e
    → let raw = encode_payload e v in
      (decode_payload e raw ≡ some v)
      × (decode_payload text raw ≡ some raw)
      × (is_some (decode_payload (copied size) raw) ≡ (length raw == size))
unfolding decode_payload
decode_payload-encode_payload e v size built_in =
    let raw = encode_payload e v in
    (
      decode_payload-encoded e v (IsBuiltIn-IsEncoding e built_in),
      refl,
      copy_object-is_some size raw (ℕ_discrete (length raw) size),
    )

-- An Any of another type is refused, though its bytes might parse as a bare message.
pub try_unpack-other :
    {T : Type 0} (p : Protocol T) (any : p.Any)
    → p.parse_any (p.serialize_any any) ≡ some any
    → starts_with any_prefix (p.type_url any) ≡ true
    → p.is_type any ≡ false
    → try_unpack p (p.serialize_any any) ≡ none
unfolding try_unpack
try_unpack-other p any parses prefixed other = rw (try_unpack, parses, prefixed, other) refl
