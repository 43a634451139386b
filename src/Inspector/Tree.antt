-- ===== src/Inspector/Tree.antt =====
-- inspector/protoutils.h: a message as a tree of fields and values, and what is shown of a packet.
-- Of protobuf's reflection, `Fields` are the fields of a message as its descriptor lists them:
-- single or repeated, messages or values, a value as TextFormat prints it, and a single field that
-- `HasField` denies. The type pool and the Any are parameters.
pub mod Reading
pub mod Drawing
use zmq_pubsub_testing.Base.{
  ℕ, zero, suc, ◌+◌, ◌≡◌, Bytes, Bool, true, false, ◌&&◌, List, [], ◌∷◌, ◌++◌, Option, none, some,
  codes, length, is_empty, ◌==◌, if◌then◌else◌,
}
use zmq_pubsub_testing.Base.Decimal.{to_string}
use zmq_pubsub_testing.Broker.Peers.{starts_with}
use zmq_pubsub_testing.Client.Payload.{any_prefix}
use zmq_pubsub_testing.Wire.{Header}

mutual
  pub data Fields : Type 0 where
    end : Fields
    absent : Bytes → Fields → Fields
    single_message : Bytes → Fields → Fields → Fields
    single_value : Bytes → Bytes → Fields → Fields
    repeated_messages : Bytes → Messages → Fields → Fields
    repeated_values : Bytes → List Bytes → Fields → Fields

  pub data Messages : Type 0 where
    no_more : Messages
    one_more : Fields → Messages → Messages

-- `QTreeWidgetItem`s side by side: the two columns and the children of the first, and the others.
pub data Items : Type 0 where
  leaf : Items
  node : Bytes → Bytes → Items → Items → Items

-- The last character goes if it is a newline: `back` and `pop_back`.
unfoldable pub chomp : Bytes → Bytes
chomp [] = []
chomp (c ∷ []) = if c == 10 then [] else c ∷ []
chomp (c ∷ d ∷ cs) = c ∷ chomp (d ∷ cs)

unfoldable pub count_messages : Messages → ℕ
count_messages no_more = 0
count_messages (one_more m ms) = suc (count_messages ms)

abbrev pub items_text : ℕ → Bytes
items_text n = codes "[" ++ (to_string n ++ codes " items]")

abbrev pub place_text : ℕ → Bytes
place_text j = codes "[" ++ (to_string j ++ codes "]")

-- The loop over repeated values, from place `j` on.
unfoldable pub populate_values : ℕ → List Bytes → Items
populate_values j [] = leaf
populate_values j (v ∷ vs) = node (place_text j) (chomp v) leaf (populate_values (suc j) vs)

unfoldable mutual
  pub populate : Fields → Items
  populate end = leaf
  populate (absent name rest) = populate rest
  populate (single_message name m rest) = node name (codes "{...}") (populate m) (populate rest)
  populate (single_value name v rest) = node name (chomp v) leaf (populate rest)
  populate (repeated_messages name ms rest) =
      node name (items_text (count_messages ms)) (populate_messages 0 ms) (populate rest)
  populate (repeated_values name vs rest) =
      node name (items_text (length vs)) (populate_values 0 vs) (populate rest)

  pub populate_messages : ℕ → Messages → Items
  populate_messages j no_more = leaf
  populate_messages j (one_more m ms) =
      node (place_text j) [] (populate m) (populate_messages (suc j) ms)

-- `substr(find_last_of('/') + 1)`: the whole text if it has no slash.
abbrev first_some : Option Bytes → Option Bytes → Option Bytes
first_some (some text) other = some text
first_some none other = other

unfoldable pub behind_slash : Bytes → Option Bytes
behind_slash [] = none
behind_slash (c ∷ cs) = first_some (behind_slash cs) (if c == b'/' then some cs else none)

abbrev or_whole : Option Bytes → Bytes → Bytes
or_whole (some text) whole = text
or_whole none whole = whole

unfoldable pub type_name_of : Bytes → Bytes
type_name_of url = or_whole (behind_slash url) url

-- What is used of protobuf: the Any, the pool of linked types with their prototypes, and unpacking
-- into a message of such a type.
pub record Reflection : Type 1 where
  pub Any : Type 0
  pub parse_any : Bytes → Option Any
  pub type_url : Any → Bytes
  pub Descriptor : Type 0
  pub find_message_type : Bytes → Option Descriptor
  pub has_prototype : Descriptor → Bool
  pub unpack_to : Descriptor → Any → Option Fields
  pub type_name : Descriptor → Bytes
  -- How TextFormat prints a string and an `int32`.
  pub print_string : Bytes → Bytes
  pub print_int : ℕ → Bytes

-- A string field, and a number, that `HasField` denies at its default.
abbrev string_field : (Bytes → Bytes) → Bytes → Bytes → Fields → Fields
string_field print name [] rest = absent name rest
string_field print name (c ∷ cs) rest = single_value name (print (c ∷ cs)) rest

abbrev int_field : (ℕ → Bytes) → Bytes → ℕ → Fields → Fields
int_field print name zero rest = absent name rest
int_field print name (suc n) rest = single_value name (print (suc n)) rest

module _ (r : Reflection) where
  open r use {
    Any, parse_any, type_url, Descriptor, find_message_type, has_prototype, unpack_to, type_name,
    print_string, print_int,
  }

  -- A header as reflection sees it.
  unfoldable pub header_fields : Header → Fields
  header_fields h = string_field print_string (codes "handler_key") h.handler_key (
      string_field print_string (codes "sender_id") h.sender_id (
        string_field print_string (codes "topic") h.topic (
          string_field print_string (codes "origin_broker_id") h.origin_broker_id (
            string_field print_string (codes "message_uuid") h.message_uuid (
              string_field print_string (codes "transfer_id") h.transfer_id (
                int_field print_int (codes "sequence_number") h.sequence_number (
                  int_field print_int (codes "sequence_count") h.sequence_count
                    (string_field print_string (codes "reply_topic") h.reply_topic end))))))))

  -- The message with its type's name.
  unfoldable pub dynamically_unpack : Any → Option (Bytes × Fields)
  dynamically_unpack any = elim (find_message_type (type_name_of (type_url any))) [
    | none ↦ none
    | some d ↦
        if has_prototype d
        then (elim (unpack_to d any) [ none ↦ none | some fs ↦ some (type_name d, fs) ])
        else none
  ]

  abbrev payload_root : Option (Bytes × Fields) → Items
  payload_root (some (name, fs)) = node name [] (populate fs) leaf
  payload_root none =
      node (codes "[Unknown Protobuf Schema]") (codes "Link .pb.cc file to view") leaf leaf

  abbrev raw_root : Bytes → Items
  raw_root payload =
      node (codes "Raw Payload") (codes "[" ++ (to_string (length payload) ++ codes " bytes]")) leaf
        leaf

  -- A packed Any is taken as one, all else is bytes.
  unfoldable pub draw_payload : Bytes → Items
  draw_payload payload = elim (parse_any payload) [
    | none ↦ raw_root payload
    | some any ↦
        if starts_with any_prefix (type_url any)
        then payload_root (dynamically_unpack any)
        else raw_root payload
  ]

  -- The roots of the tree.
  unfoldable pub draw_envelope_and_payload : Header → Bytes → Items
  draw_envelope_and_payload h payload =
      node (codes "Message Header") [] (populate (header_fields h))
        (if is_empty payload then leaf else draw_payload payload)
