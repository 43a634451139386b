-- ===== src/Keys.antt =====
-- common/messagekeys.h: the reserved handler keys and their classes.
use zmq_pubsub_testing.Base.{
  Bytes, Bool, false, ◌||◌, codes, text_eq, ◌≡◌, refl, Bytes-discrete, ℕ_discrete, arith, ◌≢◌, ap,
  ℕ, ◌∷◌,
}

unfoldable pub connect : Bytes
connect = codes "__CONNECT__"

unfoldable pub disconnect : Bytes
disconnect = codes "__DISCONNECT__"

unfoldable pub reset : Bytes
reset = codes "__RESET__"

unfoldable pub heartbeat : Bytes
heartbeat = codes "__HEARTBEAT__"

unfoldable pub heartbeat_ack : Bytes
heartbeat_ack = codes "__HEARTBEAT_ACK__"

unfoldable pub subscribe : Bytes
subscribe = codes "__SUBSCRIBE__"

unfoldable pub unsubscribe : Bytes
unsubscribe = codes "__UNSUBSCRIBE__"

unfoldable pub sys_stats : Bytes
sys_stats = codes "__SYS_STATS__"

unfoldable pub is_system_packet : Bytes → Bool
is_system_packet key =
    text_eq key heartbeat
    || text_eq key heartbeat_ack
    || text_eq key connect
    || text_eq key disconnect
    || text_eq key reset

unfoldable pub is_control_message : Bytes → Bool
is_control_message key =
    text_eq key heartbeat
    || text_eq key heartbeat_ack
    || text_eq key subscribe
    || text_eq key unsubscribe
    || text_eq key connect
    || text_eq key disconnect
    || text_eq key reset

-- Control messages are the system packets and the two subscription keys.
pub is_control_message_lem :
    (key : Bytes)
    → is_control_message key
      ≡ (is_system_packet key || (text_eq key subscribe || text_eq key unsubscribe))
unfolding is_control_message is_system_packet
is_control_message_lem key = ground arith

-- The stats key is an ordinary one.
pub sys_stats_ordinary : is_control_message sys_stats ≡ false
unfolding is_control_message connect disconnect reset heartbeat heartbeat_ack subscribe unsubscribe
    sys_stats Bytes-discrete ℕ_discrete
sys_stats_ordinary = refl

-- The byte behind the underscores, in which the keys differ.
abbrev third_byte : Bytes → ℕ
third_byte (a ∷ b ∷ c ∷ rest) = c
third_byte _ = 0

-- The keys that `processMessage` tests one after the other are different texts.
pub subscribe-ne-disconnect : subscribe ≢ disconnect
unfolding subscribe disconnect
subscribe-ne-disconnect = λ e. omega (arith, ap third_byte e)

pub subscribe-ne-connect : subscribe ≢ connect
unfolding subscribe connect
subscribe-ne-connect = λ e. omega (arith, ap third_byte e)

pub subscribe-ne-heartbeat : subscribe ≢ heartbeat
unfolding subscribe heartbeat
subscribe-ne-heartbeat = λ e. omega (arith, ap third_byte e)

pub unsubscribe-ne-disconnect : unsubscribe ≢ disconnect
unfolding unsubscribe disconnect
unsubscribe-ne-disconnect = λ e. omega (arith, ap third_byte e)

pub unsubscribe-ne-connect : unsubscribe ≢ connect
unfolding unsubscribe connect
unsubscribe-ne-connect = λ e. omega (arith, ap third_byte e)

pub unsubscribe-ne-heartbeat : unsubscribe ≢ heartbeat
unfolding unsubscribe heartbeat
unsubscribe-ne-heartbeat = λ e. omega (arith, ap third_byte e)

pub unsubscribe-ne-subscribe : unsubscribe ≢ subscribe
unfolding unsubscribe subscribe
unsubscribe-ne-subscribe = λ e. omega (arith, ap third_byte e)

pub heartbeat-ne-disconnect : heartbeat ≢ disconnect
unfolding heartbeat disconnect
heartbeat-ne-disconnect = λ e. omega (arith, ap third_byte e)

pub connect-ne-disconnect : connect ≢ disconnect
unfolding connect disconnect
connect-ne-disconnect = λ e. omega (arith, ap third_byte e)

pub connect-ne-heartbeat : connect ≢ heartbeat
unfolding connect heartbeat
connect-ne-heartbeat = λ e. omega (arith, ap third_byte e)
