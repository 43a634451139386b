-- ===== src/Inspector/Filter.antt =====
-- inspector/mainwindow.cpp and inspector/packettablemodel.cpp: the menu of topics, and the rows that
-- the filter lets through.
use zmq_pubsub_testing.Base.{
  ℕ, zero, suc, ◌≤◌, ◌≡◌, refl, ◌∙◌, sym, Bytes, Bool, true, false, ◌&&◌, ◌||◌, List, [], ◌∷◌, ◌++◌,
  Option, none, some, is_some, is_empty, contains, count, count-append, ltb, if◌then◌else◌, if_both,
  All, All-append, Bool-cases, inl, inr, arith, length,
}
use zmq_pubsub_testing.Base.Maps.{
  Map, find, assign, keys, count-keys, count-keys-assign, find-assign,
}
use zmq_pubsub_testing.Inspector.{
  InspectorPacket, Window, new_window, add_packet, drop_packets, trim_chunk, max_packet_history,
  shown_topic, checked_topics, apply_filters, learn_topic, on_new_packet, toggle_topic, edit_filter,
  accepts, has_text,
}

-- What happens to the window. Only an action that is in the menu can be toggled.
pub data Event : Type 0 where
  arrives : InspectorPacket → Event
  toggles : Bytes → Bool → Event
  edits : Bytes → Event

-- Is the topic's action checked?
abbrev pub is_on : Option Bool → Bool
is_on none = false
is_on (some on) = on

contains-checked_topics :
    (menu : Map Bool) (t : Bytes)
    → count t (keys menu) ≤ 1
    → contains t (checked_topics menu) ≡ is_on (find t menu)
unfolding contains count checked_topics find
contains-checked_topics [] t h = refl
contains-checked_topics ((k, on) ∷ menu) t h = ground (
  arith,
  contains-checked_topics menu t,
  count-keys t menu,
  count-append t (if on then k ∷ [] else []) (checked_topics menu),
)

All-map : {A : Type 0} {P Q : A → Type 0} (l : List A) → ((x : A) → P x → Q x) → All P l → All Q l
All-map [] f h = tt
All-map (x ∷ l) f h = (f x h.0, All-map l f h.1)

All-drop_packets :
    (P : InspectorPacket → Type 0) (n : ℕ) (ps : List InspectorPacket)
    → All P ps
    → All P (drop_packets n ps)
unfolding drop_packets
All-drop_packets P zero ps h = h
All-drop_packets P (suc n) [] h = tt
All-drop_packets P (suc n) (p ∷ ps) h = All-drop_packets P n ps h.1

All-add_packet :
    (P : InspectorPacket → Type 0) (history : List InspectorPacket) (p : InspectorPacket)
    → All P history
    → P p
    → All P (add_packet history p).0
unfolding add_packet
All-add_packet P history p h new =
    let grown = All-append P history (p ∷ []) h (new, tt) in
    elim (Bool-cases (ltb max_packet_history (length (history ++ p ∷ [])))) [
      | inl long ↦ rw (long, add_packet) (All-drop_packets P trim_chunk (history ++ p ∷ []) grown)
      | inr short ↦ rw (short, add_packet) grown
    ]

-- The packet's topic has an action.
abbrev pub HasAction : Map Bool → InspectorPacket → Type 0
HasAction menu p = is_some (find (shown_topic p.topic) menu) ≡ true

module _ (lower : Bytes → Bytes) where
  unfoldable pub step : Window → Event → Window
  step w (arrives p) = (on_new_packet lower w p).0
  step w (toggles t on) = if is_some (find t w.menu) then toggle_topic lower w t on else w
  step w (edits text) = edit_filter lower w text

  unfoldable pub run : Window → List Event → Window
  run w [] = w
  run w (e ∷ es) = run (step w e) es

  -- The filter is that of the menu and of the filter bar, and no kept packet lacks an action.
  pub record IsCurrent (w : Window) : Type 0 where
    pub once : (t : Bytes) → count t (keys w.menu) ≤ 1
    pub allowed : w.allowed_topics ≡ checked_topics w.menu
    pub searched : w.search_text ≡ lower w.filter_text
    pub kept : All (HasAction w.menu) w.packet_history

  assigned-once :
      (menu : Map Bool) (t : Bytes) (on : Bool)
      → ((u : Bytes) → count u (keys menu) ≤ 1)
      → (u : Bytes) → count u (keys (assign t on menu)) ≤ 1
  assigned-once menu t on once u =
      ground (arith, once u, count-keys-assign t u on menu, count-keys t menu)

  assigned-HasAction :
      (menu : Map Bool) (t : Bytes) (on : Bool) (p : InspectorPacket)
      → HasAction menu p
      → HasAction (assign t on menu) p
  assigned-HasAction menu t on p h = ground (arith, find-assign t (shown_topic p.topic) on menu)

  toggle_topic-IsCurrent :
      (w : Window) (t : Bytes) (on : Bool) → IsCurrent w → IsCurrent (toggle_topic lower w t on)
  unfolding toggle_topic apply_filters
  toggle_topic-IsCurrent w t on c = record {
    once = assigned-once w.menu t on c.once;
    allowed = refl;
    searched = refl;
    kept = All-map w.packet_history (assigned-HasAction w.menu t on) c.kept;
  }

  on_new_packet-IsCurrent :
      (w : Window) (p : InspectorPacket) → IsCurrent w → IsCurrent (on_new_packet lower w p).0
  unfolding on_new_packet learn_topic apply_filters contains
  on_new_packet-IsCurrent w p c =
      let topic = shown_topic p.topic in
      elim (Bool-cases (contains topic (keys w.menu))) [
        | inl old ↦
            rw (old, learn_topic)
              (record {
                once = c.once;
                allowed = c.allowed;
                searched = c.searched;
                kept = All-add_packet _ w.packet_history p c.kept (count-keys topic w.menu ∙ old);
              })
        | inr new ↦
            rw (new, learn_topic)
              (record {
                once = assigned-once w.menu topic true c.once;
                allowed = refl;
                searched = refl;
                kept =
                    All-add_packet _ w.packet_history p
                      (All-map w.packet_history (assigned-HasAction w.menu topic true) c.kept)
                      (ground (arith, find-assign topic topic true w.menu));
              })
      ]

  step-IsCurrent : (w : Window) (e : Event) → IsCurrent w → IsCurrent (step w e)
  unfolding step edit_filter apply_filters
  step-IsCurrent w (arrives p) c = on_new_packet-IsCurrent w p c
  step-IsCurrent w (toggles t on) c =
      if_both IsCurrent (is_some (find t w.menu)) (toggle_topic lower w t on) w
        (toggle_topic-IsCurrent w t on c) c
  step-IsCurrent w (edits text) c = record {
    once = c.once;
    allowed = refl;
    searched = refl;
    kept = c.kept;
  }

  run-IsCurrent : (es : List Event) (w : Window) → IsCurrent w → IsCurrent (run w es)
  unfolding run
  run-IsCurrent [] w c = c
  run-IsCurrent (e ∷ es) w c = run-IsCurrent es (step w e) (step-IsCurrent w e c)

  new_window-IsCurrent : lower [] ≡ [] → IsCurrent new_window
  unfolding checked_topics count
  new_window-IsCurrent h = record {
    once = λ t. omega arith;
    allowed = refl;
    searched = sym h;
    kept = tt;
  }

  -- The text of the filter bar occurs in a field.
  abbrev pub found : Window → InspectorPacket → Bool
  found w p =
      let text = lower w.filter_text in
      is_empty text
      || (has_text text (lower p.sender_id)
          || (has_text text (lower p.key) || has_text text (lower (shown_topic p.topic))))

  pub allowed-run :
      (es : List Event)
      → lower [] ≡ []
      → let w = run new_window es in
        (t : Bytes) → contains t w.allowed_topics ≡ is_on (find t w.menu)
  allowed-run es h t =
      let c = run-IsCurrent es new_window (new_window-IsCurrent h) in
      rw c.allowed (contains-checked_topics (run new_window es).menu t (c.once t))

  -- If lower-casing leaves the empty text empty, then after any packets, toggled topics and edits
  -- of the filter bar a row is accepted exactly if its topic's action is checked and the filter
  -- text, in lower case, is empty or occurs in the sender, the key or the topic; and each packet
  -- that is kept has an action for its topic.
  pub accepts-run :
      (es : List Event) (p : InspectorPacket)
      → lower [] ≡ []
      → let w = run new_window es in
        (accepts lower w p ≡ (is_on (find (shown_topic p.topic) w.menu) && found w p))
        × All (HasAction w.menu) w.packet_history
  unfolding accepts
  accepts-run es p h =
      let w = run new_window es in
      let c = run-IsCurrent es new_window (new_window-IsCurrent h) in
      (
        rw
            (
              c.allowed,
              c.searched,
              contains-checked_topics w.menu (shown_topic p.topic) (c.once (shown_topic p.topic)),
            )
            refl,
        c.kept,
      )
