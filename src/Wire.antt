-- ===== src/Wire.antt =====
-- common/wireframe.h: an envelope as two frames of a multipart message. The protobuf codec and
-- the sockets are parameters.
pub mod Sockets
pub mod Receive
pub mod Atomic
pub mod Sample
mod Tests
use zmq_pubsub_testing.Base.{
  ℕ, zero, suc, Bytes, Bool, true, false, Option, none, some, List, [], ◌∷◌, ◌++◌, is_empty,
  if◌then◌else◌, ◌≡◌, ◌==◌,
}
use Sockets.{Sender, Receiver, SendResult, sent, again, failed, last, more}

-- common/proto/broker.proto. The `int32` fields are bit patterns, which nothing here reads.
pub record Header : Type 0 where
  pub handler_key : Bytes
  pub sender_id : Bytes
  pub topic : Bytes
  pub origin_broker_id : Bytes
  pub message_uuid : Bytes
  pub transfer_id : Bytes
  pub sequence_number : ℕ
  pub sequence_count : ℕ
  pub reply_topic : Bytes

-- A default-constructed header.
abbrev pub no_header : Header
no_header = record {
  handler_key = [];
  sender_id = [];
  topic = [];
  origin_broker_id = [];
  message_uuid = [];
  transfer_id = [];
  sequence_number = 0;
  sequence_count = 0;
  reply_topic = [];
}

pub record Envelope : Type 0 where
  pub header : Header
  pub payload : Bytes

pub data Format : Type 0 where
  protobuf : Format

-- The number of the enumerator.
abbrev pub format_byte : Format → ℕ
format_byte protobuf = 1

-- `HeaderCodec`: what protobuf's generated code does for a header.
pub record Codec : Type 0 where
  pub format : Format
  pub encode : Header → Bytes
  pub decode : Bytes → Option Header
  pub byte_size : Header → ℕ

abbrev pub default_format : Format
default_format = protobuf

module _ (codec : Codec) where
  -- `codecFor` of an enumerator's number: `none` is the null pointer.
  unfoldable pub codec_for : ℕ → Option Codec
  codec_for byte = if byte == format_byte protobuf then some codec else none

  -- The codec of the default format exists, so the last case is never taken.
  unfoldable pub encode_header : Header → Bytes
  unfolding codec_for
  encode_header header = elim (codec_for (format_byte default_format)) [
    | some c ↦ format_byte c.format ∷ c.encode header
    | none ↦ []
  ]

  -- The header that a header frame holds: format byte, then the codec's bytes.
  unfoldable pub decode_frame : Bytes → Option Header
  unfolding codec_for
  decode_frame [] = none
  decode_frame (byte ∷ bytes) = elim (codec_for byte) [ none ↦ none | some c ↦ c.decode bytes ]

-- `sendFrames`: `sent` is its `true`, `again` its `false`, `failed` an exception.
unfoldable pub send_frames : (s : Sender) → s.State → Bytes → Bytes → s.State × SendResult
send_frames s st header_frame payload =
    if is_empty payload
    then s.send st header_frame last
    else (let (st', result) = s.send st header_frame more in
        elim result [
          | sent ↦ s.send st' payload last
          | again ↦ (st', again)
          | failed ↦ (st', failed)
        ])

-- `wire::send` of a header and a payload.
unfoldable pub send : (s : Sender) → Codec → s.State → Envelope → s.State × SendResult
send s codec st env = send_frames s st (encode_header codec env.header) env.payload

-- `drainMultipart`, in at most the given number of rounds.
unfoldable pub drain : (r : Receiver) → ℕ → r.State → r.State
drain r zero st = st
drain r (suc fuel) st = elim (r.rcvmore st) [ true ↦ drain r fuel (r.recv st).0 | false ↦ st ]

abbrev pub or_nothing : Option Bytes → Bytes
or_nothing none = []
or_nothing (some bytes) = bytes

-- The part of `wire::recv` behind a good header.
unfoldable pub recv_payload : (r : Receiver) → ℕ → r.State → Header → r.State × Option Envelope
recv_payload r fuel st header = elim (r.rcvmore st) [
  | true ↦
      let (st', frame) = r.recv st in
      (drain r fuel st', some (record { header = header; payload = or_nothing frame }))
  | false ↦ (st, some (record { header = header; payload = [] }))
]

-- The part of `wire::recv` behind the receipt of the first frame.
unfoldable pub recv_header :
    (r : Receiver) → Codec → ℕ → r.State → Option Bytes → r.State × Option Envelope
recv_header r codec fuel st none = (st, none)
recv_header r codec fuel st (some bytes) = elim (decode_frame codec bytes) [
  | none ↦ (drain r fuel st, none)
  | some header ↦ recv_payload r fuel st header
]

-- `wire::recv`; `none` is its `false`.
unfoldable pub recv : (r : Receiver) → Codec → ℕ → r.State → r.State × Option Envelope
recv r codec fuel st = let (st', frame) = r.recv st in recv_header r codec fuel st' frame
