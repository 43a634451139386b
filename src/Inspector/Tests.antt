-- ===== src/Inspector/Tests.antt =====
-- The inspector's window at concrete packets.
use zmq_pubsub_testing.Base.{
  ◌≡◌, refl, ◌≤◌, Bytes, Bytes-discrete, ℕ_discrete, true, false, List, [], ◌∷◌, codes, arith,
  count, contains, length,
}
use zmq_pubsub_testing.Base.Maps.{find, assign}
use zmq_pubsub_testing.Broker.Peers.{starts_with}
use zmq_pubsub_testing.Wire.{no_header}
use zmq_pubsub_testing.Inspector.{
  InspectorPacket, new_window, add_packet, accepts, apply_filters, learn_topic, on_new_packet,
  toggle_topic, edit_filter, checked_topics, has_text, max_packet_history, replayed,
}
use zmq_pubsub_testing.Inspector.Filter.{Event, arrives, toggles, edits, step, run}
use zmq_pubsub_testing.Inspector.Rows.{observe, add_packets, observe-add_packets}

abbrev packet : Bytes → InspectorPacket
packet topic = record {
  timestamp = codes "12:00:00.000";
  sender_id = codes "alice";
  key = topic;
  topic = topic;
  size_bytes = 10;
  header = record no_header { sender_id = codes "alice" };
  payload = [];
}

-- Letters stay as they are.
abbrev same : Bytes → Bytes
same b = b

abbrev news_off : List Event
news_off =
    arrives (packet (codes "news"))
    ∷ arrives (packet [])
    ∷ toggles (codes "news") false
    ∷ edits (codes "Empty")
    ∷ []

-- The packet with no topic is shown, the news are not.
rows_shown :
    (accepts same (run same new_window news_off) (packet []) ≡ true)
    × (accepts same (run same new_window news_off) (packet (codes "news")) ≡ false)
unfolding accepts run step on_new_packet learn_topic apply_filters toggle_topic edit_filter
    checked_topics add_packet find assign count contains Bytes-discrete ℕ_discrete has_text
    starts_with
rows_shown = (refl, refl)

observe-add_packets_example :
    (observe (record { rows = 0; going = 0 }) (add_packets [] (packet [] ∷ [])).1
      ≡ record { rows = length (add_packets [] (packet [] ∷ [])).0; going = 0 })
    × (length (add_packets [] (packet [] ∷ [])).0 ≤ max_packet_history)
observe-add_packets_example = observe-add_packets [] (packet [] ∷ []) (omega arith)

replayed_once : (replayed (codes "u") (packet [])).header.sender_id ≡ codes "REPLAY_alice"
unfolding replayed has_text starts_with
replayed_once = refl
