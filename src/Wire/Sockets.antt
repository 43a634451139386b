-- ===== src/Wire/Sockets.antt =====
-- What the program uses of ZeroMQ sockets (zmq.hpp and libzmq), as interfaces.
use zmq_pubsub_testing.Base.{Bytes, Bool, Option}

-- Whether a frame is the last of its message or more follow (`ZMQ_SNDMORE`).
pub data Flag : Type 0 where
  last more : Flag

-- A non-blocking send: the frame is taken, `EAGAIN`, or an exception `zmq::error_t`.
pub data SendResult : Type 0 where
  sent again failed : SendResult

pub record Sender : Type 1 where
  pub State : Type 0
  pub send : State → Bytes → Flag → State × SendResult

-- `recv` gives `none` for `EAGAIN`; `rcvmore` is the socket option `ZMQ_RCVMORE`.
pub record Receiver : Type 1 where
  pub State : Type 0
  pub recv : State → State × Option Bytes
  pub rcvmore : State → Bool
