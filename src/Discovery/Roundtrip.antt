-- ===== src/Discovery/Roundtrip.antt =====
-- server/discovery.cpp: `encodeBeacon` and `decodeBeacon` together.
use zmq_pubsub_testing.Base.{
  ℕ, ◌≤◌, ◌≡◌, ap, sym, ◌∙◌, Bytes, Bytes-discrete, ℕ_discrete, Bool, true, false, [], ◌∷◌, ◌++◌,
  some, codes, ◌==◌, arith, All, append_assoc, append-nil,
}
use zmq_pubsub_testing.Base.Decimal.{to_string, stoi, is_digit, to_string-AllDigits, stoi-to_string}
use zmq_pubsub_testing.Discovery.Beacon.{
  encode_beacon, split_from, in_range, from_fields, decode_beacon,
}

abbrev pub is_bar : ℕ → Bool
is_bar c = c == b'|'

-- A text with no '|'.
abbrev pub BarFree : Bytes → Type 0
BarFree = All (λ c. is_bar c ≡ false)

split_from-BarFree : (field xs : Bytes) → BarFree xs → split_from field xs ≡ (field ++ xs) ∷ []
unfolding split_from
split_from-BarFree field [] h = ap (λ l. l ∷ []) (sym (append-nil field))
split_from-BarFree field (c ∷ xs) h = rw h.0 (
    split_from-BarFree (field ++ c ∷ []) xs h.1 ∙ ap (λ l. l ∷ []) (append_assoc field (c ∷ []) xs))

split_from-bar :
    (field xs rest : Bytes)
    → BarFree xs
    → split_from field (xs ++ b'|' ∷ rest) ≡ (field ++ xs) ∷ split_from [] rest
unfolding split_from
split_from-bar field [] rest h = ap (λ l. l ∷ split_from [] rest) (sym (append-nil field))
split_from-bar field (c ∷ xs) rest h = rw h.0 (
    split_from-bar (field ++ c ∷ []) xs rest h.1
    ∙ ap (λ l. l ∷ split_from [] rest) (append_assoc field (c ∷ []) xs))

BarFree-of_digits : (xs : Bytes) → All (λ c. is_digit c ≡ true) xs → BarFree xs
BarFree-of_digits [] h = tt
BarFree-of_digits (c ∷ xs) h = (ground (arith, h.0), BarFree-of_digits xs h.1)

split_from-encode_beacon :
    (cluster uuid : Bytes) (port : ℕ)
    → BarFree cluster
    → BarFree uuid
    → split_from [] (encode_beacon cluster uuid port)
      ≡ codes "WISP" ∷ codes "1" ∷ cluster ∷ uuid ∷ to_string port ∷ []
unfolding encode_beacon
split_from-encode_beacon cluster uuid port c u =
    split_from-bar [] (codes "WISP") _ (ground arith)
    ∙ ap (λ l. codes "WISP" ∷ l)
        (split_from-bar [] (codes "1") _ (ground arith)
          ∙ ap (λ l. codes "1" ∷ l)
              (split_from-bar [] cluster _ c
                ∙ ap (λ l. cluster ∷ l)
                    (split_from-bar [] uuid _ u
                      ∙ ap (λ l. uuid ∷ l)
                          (split_from-BarFree [] (to_string port)
                            (BarFree-of_digits (to_string port) (to_string-AllDigits port))))))

from_fields-good :
    (cluster uuid port : Bytes) (n : ℕ)
    → in_range (stoi port) ≡ some n
    → from_fields (codes "WISP" ∷ codes "1" ∷ cluster ∷ uuid ∷ port ∷ [])
      ≡ some (record { cluster = cluster; uuid = uuid; router_port = n })
unfolding Bytes-discrete ℕ_discrete
from_fields-good cluster uuid port n e = rw e

-- A beacon whose cluster and uuid hold no bar and whose port is between 1 and 65535 decodes to
-- what was encoded.
pub decode_beacon-encode_beacon :
    (cluster uuid : Bytes) (port : ℕ)
    → BarFree cluster
    → BarFree uuid
    → 1 ≤ port
    → port ≤ 65535
    → decode_beacon (encode_beacon cluster uuid port)
      ≡ some (record { cluster = cluster; uuid = uuid; router_port = port })
unfolding decode_beacon
decode_beacon-encode_beacon cluster uuid port c u lo hi =
    ap from_fields (split_from-encode_beacon cluster uuid port c u)
    ∙ from_fields-good cluster uuid (to_string port) port
        (rw (stoi-to_string port (omega arith)) (ground arith))
