-- ===== src/Broker/Ports.antt =====
-- server/zmqbroker.cpp: `parseTcpPort` on bind addresses.
use zmq_pubsub_testing.Base.{
  ℕ, ◌≤◌, ◌≡◌, refl, ◌∙◌, ap, Bytes, true, List, [], ◌∷◌, ◌++◌, none, some, codes, arith, All,
}
use zmq_pubsub_testing.Base.Decimal.{to_string, is_digit, to_string-AllDigits, stoi-to_string}
use zmq_pubsub_testing.Broker.Peers.{
  behind_colon, starts_with, valid_port, port_behind, tcp_port, or_else, parse_tcp_port,
}

behind_colon-digits : (xs : Bytes) → All (λ c. is_digit c ≡ true) xs → behind_colon xs ≡ none
unfolding behind_colon
behind_colon-digits [] h = refl
behind_colon-digits (c ∷ xs) h = ground (arith, behind_colon-digits xs h.1)

-- The last colon wins: what stands in front of it does not matter.
behind_colon-append :
    (host port : Bytes) → behind_colon port ≡ none → behind_colon (host ++ b':' ∷ port) ≡ some port
unfolding behind_colon
behind_colon-append [] port h = ground arith
behind_colon-append (c ∷ host) port h = ground (arith, behind_colon-append host port h)

-- A TCP address of any host, with a port.
abbrev pub tcp_address : Bytes → ℕ → Bytes
tcp_address host port = codes "tcp://" ++ (host ++ b':' ∷ to_string port)

tcp_port-tcp_address :
    (host : Bytes) (port : ℕ)
    → 1 ≤ port
    → port ≤ 65535
    → tcp_port (tcp_address host port) ≡ some port
unfolding tcp_port starts_with
tcp_port-tcp_address host port lo hi =
    ap port_behind (
      behind_colon-append (codes "tcp://" ++ host) (to_string port)
        (behind_colon-digits (to_string port) (to_string-AllDigits port)))
    ∙ ap valid_port (stoi-to_string port (omega arith))
    ∙ ground arith

-- If none of the addresses before it gives a port, an address tcp://<host>:<port> with a port
-- between 1 and 65535 and any host gives the port that parseTcpPort returns, whatever addresses
-- follow.
pub parse_tcp_port-found :
    (before : List Bytes) (host : Bytes) (port : ℕ) (after : List Bytes)
    → All (λ a. tcp_port a ≡ none) before
    → 1 ≤ port
    → port ≤ 65535
    → parse_tcp_port (before ++ tcp_address host port ∷ after) ≡ port
unfolding parse_tcp_port
parse_tcp_port-found [] host port after skip lo hi = rw (tcp_port-tcp_address host port lo hi)
parse_tcp_port-found (a ∷ before) host port after skip lo hi =
    rw skip.0 (parse_tcp_port-found before host port after skip.1 lo hi)

valid_port-le : (a : Bytes) (rest : ℕ) → rest ≤ 65535 → or_else (tcp_port a) rest ≤ 65535
unfolding tcp_port
valid_port-le a rest h = ground arith

-- What is advertised always fits the field of a beacon.
pub parse_tcp_port-le : (addresses : List Bytes) → parse_tcp_port addresses ≤ 65535
unfolding parse_tcp_port
parse_tcp_port-le [] = omega arith
parse_tcp_port-le (a ∷ addresses) =
    valid_port-le a (parse_tcp_port addresses) (parse_tcp_port-le addresses)
