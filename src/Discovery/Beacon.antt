-- ===== src/Discovery/Beacon.antt =====
-- The wire form of a beacon, "WISP|1|<cluster>|<uuid>|<port>".
use zmq_pubsub_testing.Base.{
  ℕ, Bytes, ◌&&◌, List, [], ◌∷◌, ◌++◌, Option, none, some, codes, text_eq, leb, ◌==◌, if◌then◌else◌,
}
use zmq_pubsub_testing.Base.Decimal.{ℤ, pos, negsuc, to_string, stoi}

-- `BrokerDiscovery::Beacon`.
pub record Heard : Type 0 where
  pub cluster : Bytes
  pub uuid : Bytes
  pub router_port : ℕ

unfoldable pub encode_beacon : Bytes → Bytes → ℕ → Bytes
encode_beacon cluster uuid port =
    codes "WISP|1|" ++ (cluster ++ (codes "|" ++ (uuid ++ (codes "|" ++ to_string port))))

-- The fields between the bars; `field` holds the bytes since the last bar.
unfoldable pub split_from : Bytes → Bytes → List Bytes
split_from field [] = field ∷ []
split_from field (c ∷ cs) =
    let next = split_from [] cs in
    let same = split_from (field ++ c ∷ []) cs in if c == b'|' then field ∷ next else same

-- A port between 1 and 65535; `none` covers the exceptions of `stoi`.
abbrev pub in_range : Option ℤ → Option ℕ
in_range (some (pos n)) = if leb 1 n && leb n 65535 then some n else none
in_range (some (negsuc n)) = none
in_range none = none

abbrev pub with_port : Bytes → Bytes → Option ℕ → Option Heard
with_port cluster uuid none = none
with_port cluster uuid (some port) =
    some (record { cluster = cluster; uuid = uuid; router_port = port })

-- Five fields, of which the first two are the magic and the version.
abbrev pub from_fields : List Bytes → Option Heard
from_fields (magic ∷ version ∷ cluster ∷ uuid ∷ port ∷ []) =
    if text_eq magic (codes "WISP") && text_eq version (codes "1")
    then with_port cluster uuid (in_range (stoi port))
    else none
from_fields _ = none

unfoldable pub decode_beacon : Bytes → Option Heard
decode_beacon bytes = from_fields (split_from [] bytes)
