-- ===== src/Inspector/Tree/Reading.antt =====
-- inspector/protoutils.h: what a tree tells of the message that it was made from.
use zmq_pubsub_testing.Base.{
  ℕ, suc, ◌≡◌, refl, ap, Bytes, Bool, false, List, [], ◌∷◌, is_empty, ◌==◌, if◌then◌else◌, All,
}
use zmq_pubsub_testing.Inspector.Tree.{
  Fields, end, absent, single_message, single_value, repeated_messages, repeated_values, Messages,
  no_more, one_more, Items, leaf, node, chomp, populate, populate_messages, populate_values,
}

-- How a text begins.
abbrev begins : ℕ → Bytes → Bool
begins b [] = false
begins b (c ∷ cs) = c == b

-- The texts of nodes side by side.
unfoldable pub texts : Items → List Bytes
texts leaf = []
texts (node name text kids rest) = text ∷ texts rest

-- Items of an array of messages have no text.
unfoldable pub holds_messages : Items → Bool
holds_messages leaf = false
holds_messages (node name text kids rest) = is_empty text

-- A value is no text that a message or an array has.
abbrev pub IsPlain : Bytes → Type 0
IsPlain v =
    (is_empty (chomp v) ≡ false) × (begins b'{' (chomp v) ≡ false) × (begins b'[' (chomp v) ≡ false)

unfoldable pub chomped : List Bytes → List Bytes
chomped [] = []
chomped (v ∷ vs) = chomp v ∷ chomped vs

-- The message without the fields that are absent, its values without a final newline; of an empty
-- array it is not told whether it is one of messages.
unfoldable mutual
  pub shown : Fields → Fields
  shown end = end
  shown (absent name rest) = shown rest
  shown (single_message name m rest) = single_message name (shown m) (shown rest)
  shown (single_value name v rest) = single_value name (chomp v) (shown rest)
  shown (repeated_messages name no_more rest) = repeated_values name [] (shown rest)
  shown (repeated_messages name (one_more m ms) rest) =
      repeated_messages name (one_more (shown m) (shown_messages ms)) (shown rest)
  shown (repeated_values name vs rest) = repeated_values name (chomped vs) (shown rest)

  pub shown_messages : Messages → Messages
  shown_messages no_more = no_more
  shown_messages (one_more m ms) = one_more (shown m) (shown_messages ms)

-- Every value in the message is plain.
abbrev mutual
  pub IsPrinted : Fields → Type 0
  IsPrinted end = Unit {0}
  IsPrinted (absent name rest) = IsPrinted rest
  IsPrinted (single_message name m rest) = IsPrinted m × IsPrinted rest
  IsPrinted (single_value name v rest) = IsPlain v × IsPrinted rest
  IsPrinted (repeated_messages name ms rest) = ArePrinted ms × IsPrinted rest
  IsPrinted (repeated_values name vs rest) = All IsPlain vs × IsPrinted rest

  pub ArePrinted : Messages → Type 0
  ArePrinted no_more = Unit {0}
  ArePrinted (one_more m ms) = IsPrinted m × ArePrinted ms

-- Reading a node by its text: its children as fields and as messages, and the rest.
abbrev read_node : Bytes → Bytes → Items → Fields → Messages → Fields → Fields
read_node name text kids fields messages rest =
    if begins b'{' text
    then single_message name fields rest
    else if begins b'[' text
    then (if holds_messages kids
        then repeated_messages name messages rest
        else repeated_values name (texts kids) rest)
    else single_value name text rest

unfoldable mutual
  pub read : Items → Fields
  read leaf = end
  read (node name text kids rest) =
      read_node name text kids (read kids) (read_messages kids) (read rest)

  pub read_messages : Items → Messages
  read_messages leaf = no_more
  read_messages (node name text kids rest) = one_more (read kids) (read_messages rest)

texts-populate_values : (j : ℕ) (vs : List Bytes) → texts (populate_values j vs) ≡ chomped vs
unfolding texts populate_values chomped
texts-populate_values j [] = refl
texts-populate_values j (v ∷ vs) = ap (λ l. chomp v ∷ l) (texts-populate_values (suc j) vs)

no_messages :
    (j : ℕ) (vs : List Bytes) → All IsPlain vs → holds_messages (populate_values j vs) ≡ false
unfolding holds_messages populate_values
no_messages j [] h = refl
no_messages j (v ∷ vs) h = h.0.0

mutual
  unfolding read shown populate texts holds_messages

  read-populate_lem : (fs : Fields) → IsPrinted fs → read (populate fs) ≡ shown fs
  read-populate_lem end h = refl
  read-populate_lem (absent name rest) h = read-populate_lem rest h
  read-populate_lem (single_message name m rest) h =
      cc (read-populate_lem m h.0, read-populate_lem rest h.1)
  read-populate_lem (single_value name v rest) h =
      rw (h.0.1, h.0.2) (ap (single_value name (chomp v)) (read-populate_lem rest h.1))
  read-populate_lem (repeated_messages name no_more rest) h =
      ap (repeated_values name []) (read-populate_lem rest h.1)
  read-populate_lem (repeated_messages name (one_more m ms) rest) h =
      cc (read-populate_lem m h.0.0, read_messages-populate 1 ms h.0.1, read-populate_lem rest h.1)
  read-populate_lem (repeated_values name vs rest) h =
      rw (no_messages 0 vs h.0, texts-populate_values 0 vs)
        (ap (repeated_values name (chomped vs)) (read-populate_lem rest h.1))

  read_messages-populate :
      (j : ℕ) (ms : Messages)
      → ArePrinted ms
      → read_messages (populate_messages j ms) ≡ shown_messages ms
  read_messages-populate j no_more h = refl
  read_messages-populate j (one_more m ms) h =
      cc (read-populate_lem m h.0, read_messages-populate (suc j) ms h.1)

-- If every value in a message is plain, that is, it is more than a newline and starts with no
-- brace or bracket, then the tree reads back as the message: only absent fields, the final
-- newline of a value, and whether an empty array is one of messages are lost.
pub read-populate : (fs : Fields) → IsPrinted fs → read (populate fs) ≡ shown fs
read-populate fs h = read-populate_lem fs h
