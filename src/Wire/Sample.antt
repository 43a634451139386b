-- ===== src/Wire/Sample.antt =====
-- A small codec for headers, which loses nothing: it shows that what is asked of protobuf can hold.
use zmq_pubsub_testing.Base.{
  ◌≡◌, refl, ℕ, zero, suc, Bytes, [], ◌∷◌, ◌++◌, Option, some, none, length,
}
use zmq_pubsub_testing.Wire.{Header, Codec, protobuf}

-- A codec that puts the length in front of each text.
abbrev put : Bytes → Bytes → Bytes
put field rest = length field ∷ (field ++ rest)

take_text : ℕ → Bytes → Option (Bytes × Bytes)
take_text zero xs = some ([], xs)
take_text (suc n) [] = none
take_text (suc n) (x ∷ xs) = elim (take_text n xs) [
  | none ↦ none
  | some (field, rest) ↦ some (x ∷ field, rest)
]

take_text-append :
    (field rest : Bytes) → take_text (length field) (field ++ rest) ≡ some (field, rest)
unfolding take_text
take_text-append [] rest = refl
take_text-append (x ∷ field) rest = rw (take_text, take_text-append field rest)

infixl 5 ◌>>=◌
abbrev ◌>>=◌ {ℓ} : {A B : Type ℓ} → Option A → (A → Option B) → Option B
none >>= f = none
some a >>= f = f a

take_field : Bytes → Option (Bytes × Bytes)
take_field [] = none
take_field (n ∷ xs) = take_text n xs

take_field-put : (field rest : Bytes) → take_field (put field rest) ≡ some (field, rest)
unfolding take_field
take_field-put field rest = take_text-append field rest

take_numbers : Bytes → Option (ℕ × ℕ × Bytes)
take_numbers (a ∷ b ∷ rest) = some (a, b, rest)
take_numbers _ = none

unfoldable pub encode : Header → Bytes
encode h = put h.handler_key (
    put h.sender_id (
      put h.topic (
        put h.origin_broker_id (
          put h.message_uuid
            (put h.transfer_id (h.sequence_number ∷ h.sequence_count ∷ put h.reply_topic []))))))

unfoldable pub decode : Bytes → Option Header
unfolding take_numbers take_field take_text
decode bytes = do
  (key, r1) ← take_field bytes
  (sender, r2) ← take_field r1
  (topic, r3) ← take_field r2
  (origin, r4) ← take_field r3
  (uuid, r5) ← take_field r4
  (transfer, r6) ← take_field r5
  (number, count, r7) ← take_numbers r6
  (reply, r8) ← take_field r7
  some (record {
    handler_key = key;
    sender_id = sender;
    topic = topic;
    origin_broker_id = origin;
    message_uuid = uuid;
    transfer_id = transfer;
    sequence_number = number;
    sequence_count = count;
    reply_topic = reply;
  })

pub decode-encode : (h : Header) → decode (encode h) ≡ some h
unfolding decode encode
decode-encode h = simp take_field-put

abbrev pub codec : Codec
codec = record {
  format = protobuf;
  encode = encode;
  decode = decode;
  byte_size = λ h. length (encode h);
}
