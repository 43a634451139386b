-- ===== src/Inspector/Accepting.antt =====
-- inspector/packettablemodel.cpp and inspector/mainwindow.cpp: the rows that the filter lets through
-- after anything that may happen to the window.
use zmq_pubsub_testing.Base.{
  ℕ, ◌≡◌, refl, ap, ◌∙◌, Bytes, Bool, true, false, ◌&&◌, List, [], ◌∷◌, Option, none, some,
  get_elem?, contains, arith, Option-cases, inl, inr,
}
use zmq_pubsub_testing.Base.Maps.{find, find-assign}
use zmq_pubsub_testing.Inspector.{
  InspectorPacket, Window, new_window, shown_topic, on_new_packet, learn_topic, apply_filters,
  toggle_topic, edit_filter,
}
use zmq_pubsub_testing.Inspector.Filter.{
  Event, arrives, toggles, edits, step, run, is_on, found, accepts-run, allowed-run,
}
use zmq_pubsub_testing.Inspector.Table.{
  cell_text-outside, filter_accepts_row, filter_accepts_row-packet,
}

module _ (lower : Bytes → Bytes) where
  -- No topic is shown as the empty text.
  unnamed_step :
      (w : Window) (e : Event) → find [] w.menu ≡ none → find [] (step lower w e).menu ≡ none
  unfolding step on_new_packet learn_topic apply_filters toggle_topic edit_filter
  unnamed_step w (arrives p) h = ground (arith, find-assign (shown_topic p.topic) [] true w.menu)
  unnamed_step w (toggles t on) h = ground (arith, find-assign t [] on w.menu)
  unnamed_step w (edits text) h = h

  unnamed_run :
      (es : List Event) (w : Window) → find [] w.menu ≡ none → find [] (run lower w es).menu ≡ none
  unfolding run
  unnamed_run [] w h = h
  unnamed_run (e ∷ es) w h = unnamed_run es (step lower w e) (unnamed_step w e h)

  -- What the menu and the filter bar say of the row.
  abbrev pub row_passes : Window → Option InspectorPacket → Bool
  row_passes w none = false
  row_passes w (some p) = is_on (find (shown_topic p.topic) w.menu) && found lower w p

  module _ (print_kb : ℕ → Bytes) where
    filter_accepts_row-outside :
        (w : Window) (row : ℕ)
        → contains [] w.allowed_topics ≡ false
        → get_elem? w.packet_history row ≡ none
        → filter_accepts_row print_kb lower w row ≡ false
    unfolding filter_accepts_row
    filter_accepts_row-outside w row none_empty outside =
        rw (cell_text-outside print_kb w.packet_history row 3 outside, none_empty) refl

    -- If lower-casing leaves the empty text empty, then after any packets, toggled topics and
    -- edits of the filter bar filterAcceptsRow accepts a row exactly if it is a row of the
    -- history, the action of its packet's topic is checked, and the filter text, in lower case,
    -- is empty or occurs in the packet's sender, key or topic.
    pub filter_accepts_row-run :
        (es : List Event) (row : ℕ)
        → lower [] ≡ []
        → let w = run lower new_window es in
          filter_accepts_row print_kb lower w row ≡ row_passes w (get_elem? w.packet_history row)
    unfolding find
    filter_accepts_row-run es row h =
        let w = run lower new_window es in
        elim (Option-cases (get_elem? w.packet_history row)) [
          | inl outside ↦ rw outside (
              filter_accepts_row-outside w row
                (allowed-run lower es h [] ∙ ap is_on (unnamed_run es new_window refl)) outside)
          | inr (p, inside) ↦ rw inside (
              filter_accepts_row-packet print_kb lower w row p inside
              ∙ (accepts-run lower es p h).0)
        ]
