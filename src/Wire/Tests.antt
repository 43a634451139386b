-- ===== src/Wire/Tests.antt =====
-- The wire format over a small codec and over sockets that are lists.
use zmq_pubsub_testing.Base.{
  ◌≡◌, refl, ℕ, ◌-◌, Bytes, Bool, true, false, List, [], ◌∷◌, ◌++◌, Option, some, none, arith,
  codes, is_empty, if◌then◌else◌, ltb, ◌&&◌,
}
use zmq_pubsub_testing.Wire.{no_header, Envelope, encode_header, decode_frame, recv}
use zmq_pubsub_testing.Wire.Sample.{codec}
use zmq_pubsub_testing.Wire.Sockets.{Sender, Receiver, SendResult, sent, again, Flag, last, more}
use zmq_pubsub_testing.Wire.Receive.{Delivers, meaning, recv-Delivers, payload_frames}
use zmq_pubsub_testing.Wire.Atomic.{IsMultipart, Whole, send_to_client, send_to_client-Whole}

-- A socket that holds frames, each with whether more follow.
record Inbox : Type 0 where
  last_more : Bool
  frames : List (Bytes × Bool)

receive_next : Bool → List (Bytes × Bool) → Inbox × Option Bytes
receive_next m [] = (record { last_more = m; frames = [] }, none)
receive_next m ((f, more_follow) ∷ fs) = (record { last_more = more_follow; frames = fs }, some f)

abbrev inbox : Receiver
inbox = record {
  State = Inbox;
  recv = λ s. receive_next s.last_more s.frames;
  rcvmore = λ s. s.last_more;
}

abbrev greeting : Envelope
greeting = record {
  header = record no_header { handler_key = codes "hello"; topic = codes "news" };
  payload = codes "hi";
}

abbrev after_all : Inbox
after_all = record { last_more = false; frames = [] }

greeting_frames : Inbox
greeting_frames = record {
  last_more = false;
  frames = (encode_header codec greeting.header, true) ∷ (codes "hi", false) ∷ [];
}

greeting_arrives :
    Delivers inbox greeting_frames
      (encode_header codec greeting.header)
      (payload_frames (codes "hi"))
      after_all
unfolding receive_next greeting_frames
greeting_arrives = (_, refl, (refl, (_, refl, (refl, refl))))

-- Two frames of garbage behind an unknown format byte: nothing is returned, nothing is left over.
garbage_frames : Inbox
garbage_frames = record {
  last_more = false;
  frames = (9 ∷ 9 ∷ [], true) ∷ (codes "x", true) ∷ (codes "y", false) ∷ [];
}

garbage_arrives : Delivers inbox garbage_frames (9 ∷ 9 ∷ []) (codes "x" ∷ codes "y" ∷ []) after_all
unfolding receive_next garbage_frames
garbage_arrives = (_, refl, (refl, (_, refl, (refl, (_, refl, (refl, refl))))))

recv-Delivers_example : recv inbox codec 2 garbage_frames ≡ (after_all, none)
unfolding meaning decode_frame
recv-Delivers_example =
    recv-Delivers inbox codec 2 garbage_frames after_all (9 ∷ 9 ∷ []) (codes "x" ∷ codes "y" ∷ [])
      garbage_arrives (omega arith)

-- A pipe with room for so many messages.
record Outbox : Type 0 where
  messages : List (List Bytes)
  partial : List Bytes
  room : ℕ

put_frame : Outbox → Bytes → Flag → Outbox × SendResult
put_frame s f more = (record s { partial = s.partial ++ f ∷ [] }, sent)
put_frame s f last = (
  record s { messages = s.messages ++ (s.partial ++ f ∷ []) ∷ []; partial = []; room = s.room - 1 },
  sent,
)

offer : Outbox → Bytes → Flag → Outbox × SendResult
unfolding put_frame
offer s f flag = if is_empty s.partial && ltb s.room 1 then (s, again) else put_frame s f flag

abbrev outbox : Sender
outbox = record { State = Outbox; send = offer }

outbox-IsMultipart : IsMultipart outbox
unfolding offer
outbox-IsMultipart = record {
  messages = λ s. s.messages;
  partial = λ s. s.partial;
  accept_more = λ st f h. ground arith;
  accept_last = λ st f h. ground arith;
  refuse = λ st f flag h. ground arith;
  continue = λ st f flag h. ground arith;
}

abbrev ready : Outbox
ready = record { messages = []; partial = []; room = 1 }

send_to_client-Whole_example :
    Whole outbox outbox-IsMultipart ready
      (send_to_client outbox ready (codes "alice") (codes "h") (codes "p"))
      (codes "alice" ∷ codes "h" ∷ codes "p" ∷ [])
      true
unfolding outbox-IsMultipart send_to_client offer
send_to_client-Whole_example =
    send_to_client-Whole outbox outbox-IsMultipart ready (codes "alice") (codes "h") (codes "p")
      refl
