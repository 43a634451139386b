-- ===== src/Wire/Receive.antt =====
-- common/wireframe.h: `wire::recv` on a message of any number of frames.
use zmq_pubsub_testing.Base.{
  ℕ, zero, suc, ◌≤◌, Bytes, true, false, Option, none, some, List, [], ◌∷◌, ◌≡◌, refl, arith,
  length, Option-cases, inl, inr, ap, ◌∙◌,
}
use zmq_pubsub_testing.Wire.Sockets.{Receiver}
use zmq_pubsub_testing.Wire.{
  Header, Envelope, Codec, protobuf, encode_header, decode_frame, drain, recv_payload, recv_header,
  recv, Format, format_byte,
}

format_byte_one : (f : Format) → format_byte f ≡ 1
format_byte_one protobuf = refl

decode_frame-encode_header :
    (codec : Codec) (h : Header)
    → decode_frame codec (encode_header codec h) ≡ codec.decode (codec.encode h)
unfolding decode_frame encode_header
decode_frame-encode_header codec h = rw (format_byte_one codec.format)

-- The frames behind the header frame, as `send_frames` puts them out.
abbrev pub payload_frames : Bytes → List Bytes
payload_frames [] = []
payload_frames (b ∷ bs) = (b ∷ bs) ∷ []

length-payload_frames :
    (payload : Bytes) (fuel : ℕ) → 1 ≤ fuel → length (payload_frames payload) ≤ fuel
length-payload_frames [] fuel h = omega arith
length-payload_frames (b ∷ bs) fuel h = omega arith

module _ (r : Receiver) where
  -- ZeroMQ delivers a message whole: the frames `fs` follow, then `t` is between two messages.
  abbrev pub Rest : r.State → List Bytes → r.State → Type 0
  Rest s [] t = (r.rcvmore s ≡ false) × (s ≡ t)
  Rest s (f ∷ fs) t =
      (r.rcvmore s ≡ true) × ((u : r.State) × (r.recv s ≡ (u, some f)) × Rest u fs t)

  -- The next message of the socket has the frames `f` and `fs`.
  abbrev pub Delivers : r.State → Bytes → List Bytes → r.State → Type 0
  Delivers s f fs t = (u : r.State) × (r.recv s ≡ (u, some f)) × Rest u fs t

  drain-Rest :
      (fuel : ℕ) (s : r.State) (fs : List Bytes) (t : r.State)
      → Rest s fs t
      → length fs ≤ fuel
      → drain r fuel s ≡ t
  unfolding drain
  drain-Rest zero s [] t h le = h.1
  drain-Rest (suc fuel) s [] t h le = rw (h.0, drain) h.1
  drain-Rest zero s (f ∷ fs) t h le = absurd (omega arith)
  drain-Rest (suc fuel) s (f ∷ fs) t h le =
      rw (h.0, drain, h.1.1) (drain-Rest fuel h.1.0 fs t h.1.2 (omega arith))

  -- What a message means: its first frame is the header, its second the payload, the rest nothing.
  unfoldable pub meaning : Codec → Bytes → List Bytes → Option Envelope
  meaning codec f fs = elim (decode_frame codec f) [
    | none ↦ none
    | some header ↦ some (record { header = header; payload = elim fs [ [] ↦ [] | p ∷ rest ↦ p ] })
  ]

  recv_payload-Rest :
      (fuel : ℕ) (s : r.State) (fs : List Bytes) (t : r.State) (h : Header)
      → Rest s fs t
      → length fs ≤ fuel
      → recv_payload r fuel s h
        ≡ (t, some (record { header = h; payload = elim fs [ [] ↦ [] | p ∷ rest ↦ p ] }))
  unfolding recv_payload
  recv_payload-Rest fuel s [] t h d le = rw (d.0, recv_payload) (ground arith)
  recv_payload-Rest fuel s (p ∷ fs) t h d le =
      rw (d.0, recv_payload, d.1.1, drain-Rest fuel d.1.0 fs t d.1.2 (omega arith))

  recv_header-Rest :
      (codec : Codec) (fuel : ℕ) (s : r.State) (f : Bytes) (fs : List Bytes) (t : r.State)
      → Rest s fs t
      → length fs ≤ fuel
      → recv_header r codec fuel s (some f) ≡ (t, meaning codec f fs)
  unfolding recv_header meaning
  recv_header-Rest codec fuel s f fs t d le = elim (Option-cases (decode_frame codec f)) [
    | inl e ↦ rw (recv_header, meaning, e, drain-Rest fuel s fs t d le)
    | inr (h, e) ↦ rw (recv_header, meaning, e) (recv_payload-Rest fuel s fs t h d le)
  ]

  -- If the socket's next message has a first frame and some more, at most as many as the bound on
  -- the rounds of draining, then recv consumes exactly that message, well formed or not, and
  -- returns what it means: nothing if the header frame does not decode, otherwise the header with
  -- the second frame as payload, or an empty payload if there is none.
  pub recv-Delivers :
      (codec : Codec) (fuel : ℕ) (s t : r.State) (f : Bytes) (fs : List Bytes)
      → Delivers s f fs t
      → length fs ≤ fuel
      → recv r codec fuel s ≡ (t, meaning codec f fs)
  unfolding recv
  recv-Delivers codec fuel s t f fs d le = rw d.1 (recv_header-Rest codec fuel d.0 f fs t d.2 le)

  meaning-payload_frames :
      (codec : Codec) (h : Header) (payload : Bytes)
      → codec.decode (codec.encode h) ≡ some h
      → meaning codec (encode_header codec h) (payload_frames payload)
        ≡ some (record { header = h; payload = payload })
  unfolding meaning
  meaning-payload_frames codec h [] e = rw (meaning, decode_frame-encode_header codec h, e)
  meaning-payload_frames codec h (b ∷ bs) e = rw (meaning, decode_frame-encode_header codec h, e)

  -- If the codec decodes each header that it encodes, then recv returns the envelope whose
  -- frames, header and payload as sendFrames sends them, are the socket's next message, and
  -- consumes exactly that message.
  pub recv-encode_header :
      (codec : Codec) (fuel : ℕ) (s t : r.State) (env : Envelope)
      → ((h : Header) → codec.decode (codec.encode h) ≡ some h)
      → Delivers s (encode_header codec env.header) (payload_frames env.payload) t
      → 1 ≤ fuel
      → recv r codec fuel s ≡ (t, some env)
  recv-encode_header codec fuel s t env inverse d le =
      recv-Delivers codec fuel s t (encode_header codec env.header) (payload_frames env.payload) d
        (length-payload_frames env.payload fuel le)
      ∙ ap (λ m. (t, m)) (meaning-payload_frames codec env.header env.payload (inverse env.header))
