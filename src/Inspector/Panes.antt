-- ===== src/Inspector/Panes.antt =====
-- inspector/mainwindow.cpp: the labels with the broker's statistics, the panes about the packet that
-- is selected, and `onNewPacket` as a whole.
use zmq_pubsub_testing.Base.{
  ℕ, ◌+◌, ◌-◌, ◌^◌, ◌≡◌, refl, ap, ◌∙◌, Bytes, Bool, true, List, [], ◌∷◌, ◌++◌, Option, none, some,
  codes, get_elem?, text_eq, ltb, if◌then◌else◌, arith,
}
use zmq_pubsub_testing.Base.Decimal.{to_string}
use zmq_pubsub_testing.Keys
use zmq_pubsub_testing.Broker.Loop.{SystemStats}
use zmq_pubsub_testing.Inspector.Hex.{generate_hex_dump}
use zmq_pubsub_testing.Inspector.Tree.{Items, Reflection, draw_envelope_and_payload}
use zmq_pubsub_testing.Inspector.{InspectorPacket, Window, RowSignal, on_new_packet}

-- The texts of the seven labels.
pub record Labels : Type 0 where
  pub broker_id : Bytes
  pub uptime : Bytes
  pub clients : Bytes
  pub peers : Bytes
  pub msgs_sec : Bytes
  pub kb_sec : Bytes
  pub total_msgs : Bytes

-- `setupSysStatsView`.
abbrev pub first_labels : Labels
first_labels = record {
  broker_id = codes "Broker ID: --";
  uptime = codes "Uptime: -- s";
  clients = codes "Clients: 0";
  peers = codes "Peers: 0";
  msgs_sec = codes "Msgs/sec: 0";
  kb_sec = codes "KB/sec: 0.00";
  total_msgs = codes "Total Msgs: 0";
}

-- A bit pattern of `w` bits as a signed number, given half its modulus.
abbrev signed_text : ℕ → ℕ → Bytes
signed_text half n = if ltb n half then to_string n else codes "-" ++ to_string (half + half - n)

abbrev int32_text : ℕ → Bytes
int32_text n = signed_text (2 ^ 31) n

abbrev int64_text : ℕ → Bytes
int64_text n = signed_text (2 ^ 63) n

-- The hex dump and the tree.
pub record Details : Type 0 where
  pub hex_dump : Bytes
  pub proto_tree : Items

-- `print_kb` prints a number of bytes as kilobytes with two decimals; `parse_stats` reads an Any and
-- unpacks it into a `SystemStats`; `lower` is `QString::toLower`.
module _ (print_kb : ℕ → Bytes) (parse_stats : Bytes → Option SystemStats) (lower : Bytes → Bytes)
    (r : Reflection) where
  unfoldable pub labels_of : SystemStats → Labels
  labels_of s = record {
    broker_id = codes "Broker ID: " ++ s.broker_id;
    uptime = codes "Uptime: " ++ (int64_text s.uptime_sec ++ codes " s");
    clients = codes "Clients: " ++ int32_text s.clients_count;
    peers = codes "Peers: " ++ int32_text s.peers_count;
    msgs_sec = codes "Msgs/sec: " ++ int32_text s.msgs_per_sec;
    kb_sec = codes "KB/sec: " ++ print_kb s.kb_per_sec;
    total_msgs = codes "Total Msgs: " ++ int64_text s.total_msgs;
  }

  abbrev labels_or : Labels → Option SystemStats → Labels
  labels_or old none = old
  labels_or old (some s) = labels_of s

  unfoldable pub show_stats : Labels → InspectorPacket → Labels
  show_stats labels packet =
      if text_eq packet.topic Keys.sys_stats
      then labels_or labels (parse_stats packet.payload)
      else labels

  -- The window, the labels and the panes.
  pub record Screen : Type 0 where
    pub window : Window
    pub labels : Labels
    pub details : Details

  -- `onNewPacket`, where the view is at its bottom or not: the table's signals, and whether the view
  -- is scrolled down.
  unfoldable pub take_packet : Screen → Bool → InspectorPacket → Screen × List RowSignal × Bool
  take_packet s at_bottom packet =
      let (window, signals) = on_new_packet lower s.window packet in
      (record s { window = window; labels = show_stats s.labels packet }, signals, at_bottom)

  abbrev details_of : Details → Option InspectorPacket → Details
  details_of old none = old
  details_of old (some p) = record {
    hex_dump = generate_hex_dump p.payload;
    proto_tree = draw_envelope_and_payload r p.header p.payload;
  }

  -- `onSelectionChanged`, with the selected row of the source model, if there is one. The row of a
  -- view is one of the history; the other case is a read out of bounds.
  unfoldable pub on_selection_changed : Screen → Option ℕ → Screen
  on_selection_changed s none = s
  on_selection_changed s (some row) = record s {
    details = details_of s.details (get_elem? s.window.packet_history row);
  }

  -- Packets one after the other.
  unfoldable pub take_packets : Screen → List InspectorPacket → Screen
  take_packets s [] = s
  take_packets s (p ∷ ps) = take_packets (take_packet s true p).0 ps

  -- The statistics that came last, of the packets that have some.
  abbrev later_of : Option SystemStats → Option SystemStats → Option SystemStats
  later_of none first = first
  later_of (some s) first = some s

  unfoldable pub stats_in : InspectorPacket → Option SystemStats
  stats_in p = if text_eq p.topic Keys.sys_stats then parse_stats p.payload else none

  unfoldable pub latest_stats : List InspectorPacket → Option SystemStats
  latest_stats [] = none
  latest_stats (p ∷ ps) = later_of (latest_stats ps) (stats_in p)

  show_stats-stats_in :
      (l : Labels) (p : InspectorPacket) → show_stats l p ≡ labels_or l (stats_in p)
  unfolding show_stats stats_in
  show_stats-stats_in l p = ground arith

  labels_or-later_of :
      (l : Labels) (a b : Option SystemStats)
      → labels_or (labels_or l b) a ≡ labels_or l (later_of a b)
  labels_or-later_of l none b = refl
  labels_or-later_of l (some s) b = refl

  -- x
  pub labels-take_packets :
      (ps : List InspectorPacket) (s : Screen)
      → (take_packets s ps).labels ≡ labels_or s.labels (latest_stats ps)
  unfolding take_packets take_packet latest_stats
  labels-take_packets [] s = refl
  labels-take_packets (p ∷ ps) s =
      labels-take_packets ps (take_packet s true p).0
      ∙ ap (λ l. labels_or l (latest_stats ps)) (show_stats-stats_in s.labels p)
      ∙ labels_or-later_of s.labels (latest_stats ps) (stats_in p)
