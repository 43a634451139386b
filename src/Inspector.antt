-- ===== src/Inspector.antt =====
-- inspector/mainwindow.cpp, inspector/packettablemodel.cpp, inspector/inspectorworker.cpp and
-- inspector/datamodel.h: the packets that the inspector keeps, the rows that its table announces to
-- the view, and the filter. `lower` is `QString::toLower`.
pub mod Filter
pub mod Rows
pub mod Panes
pub mod Watching
pub mod Accepting
pub mod Hex
pub mod Table
pub mod Tree
mod Tests
mod ViewTests
use zmq_pubsub_testing.Base.{
  ℕ, zero, suc, ◌+◌, ◌-◌, Bytes, Bool, true, false, not, ◌&&◌, ◌||◌, List, [], ◌∷◌, ◌++◌, Option,
  none, some, codes, length, get_elem?, ltb, is_empty, contains, text_eq, if◌then◌else◌,
}
use zmq_pubsub_testing.Base.Maps.{Map, find, assign, keys}
use zmq_pubsub_testing.Broker.Peers.{starts_with}
use zmq_pubsub_testing.Keys
use zmq_pubsub_testing.Keys.{is_system_packet, is_control_message}
use zmq_pubsub_testing.Wire.{Header, Envelope, Codec}
use zmq_pubsub_testing.Worker.{Worker, write_message, write_control}

pub record InspectorPacket : Type 0 where
  pub timestamp : Bytes
  pub sender_id : Bytes
  pub key : Bytes
  pub topic : Bytes
  pub size_bytes : ℕ
  pub header : Header
  pub payload : Bytes

-- The packet that `InspectorWorker::run` makes of an envelope.
unfoldable pub packet_of : Codec → Bytes → Envelope → InspectorPacket
packet_of codec timestamp env = record {
  timestamp = timestamp;
  sender_id = env.header.sender_id;
  key = env.header.handler_key;
  topic = env.header.topic;
  size_bytes = codec.byte_size env.header + length env.payload;
  header = env.header;
  payload = env.payload;
}

abbrev pub max_packet_history : ℕ
max_packet_history = 100000

abbrev pub trim_chunk : ℕ
trim_chunk = 10000

-- `menu` has the actions of `m_pTopicMenu`, checked or not; its keys are `m_knownTopics`. The
-- other two are the proxy model's.
pub record Window : Type 0 where
  pub packet_history : List InspectorPacket
  pub menu : Map Bool
  pub filter_text : Bytes
  pub search_text : Bytes
  pub allowed_topics : List Bytes

-- What the table model tells its view: rows that were inserted, rows that are about to go, and that
-- they are gone.
pub data RowSignal : Type 0 where
  inserted removing : ℕ → ℕ → RowSignal
  removed : RowSignal

-- `erase(begin(), begin() + n)`.
unfoldable pub drop_packets : ℕ → List InspectorPacket → List InspectorPacket
drop_packets zero ps = ps
drop_packets (suc n) [] = []
drop_packets (suc n) (p ∷ ps) = drop_packets n ps

-- The history and the table's signals in `onNewPacket`.
unfoldable pub add_packet :
    List InspectorPacket → InspectorPacket → List InspectorPacket × List RowSignal
add_packet history packet =
    let grown = history ++ packet ∷ [] in
    let added = inserted (length grown - 1) (length grown - 1) in
    if ltb max_packet_history (length grown)
    then (drop_packets trim_chunk grown, added ∷ removing 0 (trim_chunk - 1) ∷ removed ∷ [])
    else (grown, added ∷ [])

abbrev pub shown_topic : Bytes → Bytes
shown_topic topic = if is_empty topic then codes "[Empty]" else topic

-- The texts of the checked actions.
unfoldable pub checked_topics : Map Bool → List Bytes
checked_topics [] = []
checked_topics ((topic, on) ∷ menu) = (if on then topic ∷ [] else []) ++ checked_topics menu

-- `QString::contains` of a text, and a `find` of `std::string` that is not `npos`.
unfoldable pub has_text : Bytes → Bytes → Bool
has_text part [] = is_empty part
has_text part (c ∷ cs) = let rest = has_text part cs in starts_with part (c ∷ cs) || rest

module _ (lower : Bytes → Bytes) where
  unfoldable pub apply_filters : Window → Window
  apply_filters w = record w {
    search_text = lower w.filter_text;
    allowed_topics = checked_topics w.menu;
  }

  -- A topic that is new gets a checked action.
  unfoldable pub learn_topic : Window → Bytes → Window
  learn_topic w topic =
      if contains topic (keys w.menu)
      then w
      else apply_filters (record w { menu = assign topic true w.menu })

  unfoldable pub on_new_packet : Window → InspectorPacket → Window × List RowSignal
  on_new_packet w packet =
      let (history, signals) = add_packet w.packet_history packet in
      (learn_topic (record w { packet_history = history }) (shown_topic packet.topic), signals)

  -- The user checks or unchecks an action, or types into the filter bar.
  unfoldable pub toggle_topic : Window → Bytes → Bool → Window
  toggle_topic w topic on = apply_filters (record w { menu = assign topic on w.menu })

  unfoldable pub edit_filter : Window → Bytes → Window
  edit_filter w text = apply_filters (record w { filter_text = text })

  -- `filterAcceptsRow`, for the packet of the row.
  unfoldable pub accepts : Window → InspectorPacket → Bool
  accepts w p =
      let topic = shown_topic p.topic in
      contains topic w.allowed_topics
      && (is_empty w.search_text
          || (has_text w.search_text (lower p.sender_id)
              || (has_text w.search_text (lower p.key) || has_text w.search_text (lower topic))))

-- The background of a row, for `Qt::BackgroundRole`: red, green, blue and alpha.
pub record Color : Type 0 where
  pub red : ℕ
  pub green : ℕ
  pub blue : ℕ
  pub alpha : ℕ

abbrev pub rgba : ℕ → ℕ → ℕ → ℕ → Option Color
rgba r g b a = some (record { red = r; green = g; blue = b; alpha = a })

unfoldable pub background : Bytes → Option Color
background key =
    if text_eq key Keys.connect
    then rgba 0 128 0 100
    else if text_eq key Keys.disconnect
    then rgba 128 0 0 100
    else if text_eq key Keys.subscribe
    then rgba 0 0 128 100
    else if text_eq key Keys.unsubscribe
    then rgba 0 128 128 100
    else if text_eq key Keys.sys_stats
    then rgba 128 128 0 100
    else if is_system_packet key
    then rgba 50 50 50 100
    else none

-- The new start state of the window.
abbrev pub new_window : Window
new_window = record {
  packet_history = [];
  menu = [];
  filter_text = [];
  search_text = [];
  allowed_topics = [];
}

-- The envelope that `replaySelectedMessage` injects for a row, and through which queue.
unfoldable pub replayed : Bytes → InspectorPacket → Envelope
replayed fresh p =
    let original = p.header.sender_id in
    record {
      header = record (p.header) {
        message_uuid = fresh;
        sender_id =
            if has_text (codes "REPLAY_") original then original else codes "REPLAY_" ++ original;
      };
      payload = p.payload;
    }

unfoldable pub inject : Worker → Envelope → Worker × Bool
inject w env =
    if is_control_message env.header.handler_key then write_control w env else write_message w env

unfoldable pub replay_row : Window → Worker → Bytes → ℕ → Worker
replay_row win w fresh row = elim (get_elem? win.packet_history row) [
  | none ↦ w
  | some p ↦ (inject w (replayed fresh p)).0
]
