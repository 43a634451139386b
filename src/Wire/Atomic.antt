-- ===== src/Wire/Atomic.antt =====
-- `wire::sendFrames` of common/wireframe.h and `sendToClient` of server/zmqbroker.cpp.
use zmq_pubsub_testing.Base.{
  Bytes, Bool, true, false, List, [], ◌∷◌, ◌++◌, ◌≡◌, ◌≢◌, arith, is_empty, if◌then◌else◌, not,
}
use zmq_pubsub_testing.Wire.Sockets.{Sender, SendResult, sent, again, failed, Flag, last, more}
use zmq_pubsub_testing.Wire.{send_frames}

-- server/zmqbroker.cpp: the identity frame gates the group, and exceptions are swallowed.
unfoldable pub send_to_client : (s : Sender) → s.State → Bytes → Bytes → Bytes → s.State
send_to_client s st client header_bytes payload =
    let (st1, identity) = s.send st client more in
    let (st2, header) = s.send st1 header_bytes (if not (is_empty payload) then more else last) in
    elim identity [
      | sent ↦ elim header [
        | failed ↦ st2
        | _ ↦ if is_empty payload then st2 else (s.send st2 payload last).0
      ]
      | _ ↦ st1
    ]

-- What ZeroMQ documents of multipart messages: the frames of an unfinished message are kept back,
-- a refused frame changes nothing, and once a frame is accepted the rest of its message is.
pub record IsMultipart (s : Sender) : Type 0 where
  pub messages : s.State → List (List Bytes)
  pub partial : s.State → List Bytes
  pub accept_more :
      (st : s.State) (f : Bytes)
      → (s.send st f more).1 ≡ sent
      → (messages (s.send st f more).0 ≡ messages st)
        × (partial (s.send st f more).0 ≡ partial st ++ f ∷ [])
  pub accept_last :
      (st : s.State) (f : Bytes)
      → (s.send st f last).1 ≡ sent
      → (messages (s.send st f last).0 ≡ messages st ++ (partial st ++ f ∷ []) ∷ [])
        × (partial (s.send st f last).0 ≡ [])
  pub refuse :
      (st : s.State) (f : Bytes) (flag : Flag)
      → (s.send st f flag).1 ≢ sent
      → (messages (s.send st f flag).0 ≡ messages st) × (partial (s.send st f flag).0 ≡ partial st)
  pub continue :
      (st : s.State) (f : Bytes) (flag : Flag) → partial st ≢ [] → (s.send st f flag).1 ≡ sent

-- The frames of a message: those before the payload, and the payload frame if it is not empty.
abbrev pub with_payload : List Bytes → Bytes → List Bytes
with_payload fs [] = fs
with_payload fs (b ∷ bs) = fs ++ (b ∷ bs) ∷ []

abbrev pub is_sent : SendResult → Bool
is_sent sent = true
is_sent again = false
is_sent failed = false

module _ (s : Sender) (law : IsMultipart s) where
  open law use {messages, partial}

  -- Nothing is left half sent, and the message is either queued whole or not at all.
  abbrev pub Whole : s.State → s.State → List Bytes → Bool → Type 0
  Whole st st' message done =
      (partial st' ≡ [])
      × (messages st' ≡ (if done then messages st ++ message ∷ [] else messages st))

  -- On a socket that keeps the documented law of multipart messages and has no message half sent,
  -- sendFrames queues header and payload as one whole message if it returns true, queues nothing
  -- otherwise, and leaves no message half sent.
  pub send_frames-Whole :
      (st : s.State) (header payload : Bytes)
      → partial st ≡ []
      → Whole st
          (send_frames s st header payload).0
          (with_payload (header ∷ []) payload)
          (is_sent (send_frames s st header payload).1)
  unfolding send_frames
  send_frames-Whole st header [] clean =
      ground (arith, law.accept_last st header, law.refuse st header last)
  send_frames-Whole st header (b ∷ bs) clean =
      let st1 = (s.send st header more).0 in
      ground (
        arith,
        law.accept_more st header,
        law.refuse st header more,
        law.continue st1 (b ∷ bs) last,
        law.accept_last st1 (b ∷ bs),
      )

  -- On a socket that keeps the documented law of multipart messages and has no message half sent,
  -- sendToClient queues identity, header and payload as one whole message if the identity frame
  -- is accepted, queues nothing otherwise, and leaves no message half sent.
  pub send_to_client-Whole :
      (st : s.State) (id header payload : Bytes)
      → partial st ≡ []
      → Whole st
          (send_to_client s st id header payload)
          (with_payload (id ∷ header ∷ []) payload)
          (is_sent (s.send st id more).1)
  unfolding send_to_client
  send_to_client-Whole st id header [] clean =
      let st1 = (s.send st id more).0 in
      ground (
        arith,
        law.accept_more st id,
        law.refuse st id more,
        law.continue st1 header last,
        law.accept_last st1 header,
      )
  send_to_client-Whole st id header (b ∷ bs) clean =
      let st1 = (s.send st id more).0 in
      let st2 = (s.send st1 header more).0 in
      ground (
        arith,
        law.accept_more st id,
        law.refuse st id more,
        law.continue st1 header more,
        law.accept_more st1 header,
        law.continue st2 (b ∷ bs) last,
        law.accept_last st2 (b ∷ bs),
      )
