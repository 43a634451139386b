-- ===== src/Inspector/Table.antt =====
-- inspector/packettablemodel.cpp: what the table says of a cell, and the filter by rows.
use zmq_pubsub_testing.Base.{
  ℕ, zero, suc, ◌≡◌, refl, Bytes, Bool, true, false, ◌&&◌, ◌||◌, List, [], ◌∷◌, ◌++◌, Option, none,
  some, codes, length, get_elem?, is_empty, contains, ltb, ◌==◌, if◌then◌else◌, arith, Bool-cases,
  inl, inr,
}
use zmq_pubsub_testing.Base.Decimal.{to_string}
use zmq_pubsub_testing.Inspector.{
  InspectorPacket, Window, Color, background, shown_topic, has_text, accepts,
}

-- `Qt::ItemDataRole`.
pub data Role : Type 0 where
  display : Role
  text_alignment : Role
  background_role : Role
  other_role : ℕ → Role

-- `QVariant`: nothing, a text, `Qt::AlignRight | Qt::AlignVCenter`, or a color.
pub data Variant : Type 0 where
  nothing : Variant
  text : Bytes → Variant
  align_right : Variant
  color : Color → Variant

-- `toString` of a text, and of nothing.
abbrev pub text_of : Variant → Bytes
text_of (text t) = t
text_of _ = []

abbrev color_or_nothing : Option Color → Variant
color_or_nothing none = nothing
color_or_nothing (some c) = color c

unfoldable pub column_count : ℕ
column_count = 6

-- `none` is a read behind the array.
unfoldable pub header_data : ℕ → Bool → Role → Option Variant
header_data section horizontal display =
    if horizontal
    then get_elem?
        (text (codes "Time")
          ∷ text (codes "Sender")
          ∷ text (codes "Key")
          ∷ text (codes "Topic")
          ∷ text (codes "Msg size")
          ∷ text (codes "Payload size")
          ∷ [])
        section
    else some nothing
header_data section horizontal text_alignment = some nothing
header_data section horizontal background_role = some nothing
header_data section horizontal (other_role n) = some nothing

-- `print_kb` is `QString::number(bytes / 1024.0, 'f', 2)`.
module _ (print_kb : ℕ → Bytes) where
  unfoldable pub format_byte_size : ℕ → Bytes
  format_byte_size bytes =
      if ltb bytes 1024 then to_string bytes ++ codes " B" else print_kb bytes ++ codes " KB"

  unfoldable pub display_text : InspectorPacket → ℕ → Variant
  unfolding format_byte_size
  display_text p column =
      if column == 0
      then text p.timestamp
      else if column == 1
      then text p.sender_id
      else if column == 2
      then text p.key
      else if column == 3
      then text (shown_topic p.topic)
      else if column == 4
      then text (format_byte_size p.size_bytes)
      else if column == 5
      then text (format_byte_size (length p.payload))
      else nothing

  unfoldable pub cell : InspectorPacket → ℕ → Role → Variant
  cell p column display = display_text p column
  cell p column text_alignment = if column == 4 || column == 5 then align_right else nothing
  cell p column background_role = color_or_nothing (background p.key)
  cell p column (other_role n) = nothing

  -- `data`, where an index names a row and a column or is not valid.
  unfoldable pub data_at : List InspectorPacket → Option (ℕ × ℕ) → Role → Variant
  data_at history none role = nothing
  data_at history (some (row, column)) role = elim (get_elem? history row) [
    | none ↦ nothing
    | some p ↦ cell p column role
  ]

  -- `QAbstractTableModel::index` is valid within the table.
  unfoldable pub index_of : List InspectorPacket → ℕ → ℕ → Option (ℕ × ℕ)
  index_of history row column =
      if ltb row (length history) && ltb column column_count then some (row, column) else none

  unfoldable pub cell_text : List InspectorPacket → ℕ → ℕ → Bytes
  cell_text history row column = text_of (data_at history (index_of history row column) display)

  -- `filterAcceptsRow`; `lower` is `QString::toLower`.
  unfoldable pub filter_accepts_row : (Bytes → Bytes) → Window → ℕ → Bool
  filter_accepts_row lower w row =
      let topic = cell_text w.packet_history row 3 in
      if contains topic w.allowed_topics
      then (if is_empty w.search_text
          then true
          else (let sender = lower (cell_text w.packet_history row 1) in
              let key = lower (cell_text w.packet_history row 2) in
              has_text w.search_text sender
              || (has_text w.search_text key || has_text w.search_text (lower topic))))
      else false

  get_elem-lt :
      (history : List InspectorPacket) (row : ℕ) (p : InspectorPacket)
      → get_elem? history row ≡ some p
      → ltb row (length history) ≡ true
  get_elem-lt [] row p h = cc
  get_elem-lt (q ∷ history) zero p h = ground arith
  get_elem-lt (q ∷ history) (suc row) p h = ground (arith, get_elem-lt history row p h)

  cell_text-lem :
      (history : List InspectorPacket) (row column : ℕ) (p : InspectorPacket)
      → get_elem? history row ≡ some p
      → ltb column 6 ≡ true
      → cell_text history row column ≡ text_of (display_text p column)
  unfolding cell_text data_at index_of cell column_count
  cell_text-lem history row column p h small =
      rw (index_of, get_elem-lt history row p h, small, data_at, h) refl

  pub cell_text-outside :
      (history : List InspectorPacket) (row column : ℕ)
      → get_elem? history row ≡ none
      → cell_text history row column ≡ []
  unfolding cell_text data_at index_of column_count
  cell_text-outside history row column h =
      elim (Bool-cases (ltb row (length history) && ltb column 6)) [
        | inl valid ↦ rw (index_of, valid, data_at, h) refl
        | inr invalid ↦ rw (index_of, invalid) refl
      ]

  -- Row by row the filter is that of the packets.
  pub filter_accepts_row-packet :
      (lower : Bytes → Bytes) (w : Window) (row : ℕ) (p : InspectorPacket)
      → get_elem? w.packet_history row ≡ some p
      → filter_accepts_row lower w row ≡ accepts lower w p
  unfolding filter_accepts_row accepts display_text
  filter_accepts_row-packet lower w row p h =
      rw
        (
          cell_text-lem w.packet_history row 3 p h refl,
          cell_text-lem w.packet_history row 1 p h refl,
          cell_text-lem w.packet_history row 2 p h refl,
        )
        (ground arith)
