-- ===== src/Inspector/Hex.antt =====
-- inspector/hexutils.h: `generateHexDump`. Numbers are written in base 16 with the digits of
-- `std::hex`; bytes are below 256.
use zmq_pubsub_testing.Base.{
  ℕ, zero, suc, ◌+◌, ◌-◌, ◌*◌, ◌/◌, ◌%◌, ◌≤◌, ◌≡◌, refl, Bytes, ◌&&◌, List, [], ◌∷◌, ◌++◌, codes,
  length, length-append, ltb, leb, ◌==◌, if◌then◌else◌, arith,
}
use zmq_pubsub_testing.Uuid.{hex_char}

-- The digits of a number, the lowest last, in at most the given number of places.
unfoldable pub hex_digits : ℕ → ℕ → Bytes → Bytes
hex_digits zero n acc = acc
hex_digits (suc fuel) n acc =
    let more = hex_digits fuel (n / 16) (hex_char (n % 16) ∷ acc) in
    if ltb n 16 then hex_char n ∷ acc else more

-- `setfill('0')` and `setw`.
unfoldable pub fill_zeros : ℕ → Bytes → Bytes
fill_zeros zero text = text
fill_zeros (suc n) text = b'0' ∷ fill_zeros n text

-- A 64-bit offset has at most 16 digits.
unfoldable pub hex_offset : ℕ → Bytes
hex_offset i = let digits = hex_digits 16 i [] in fill_zeros (4 - length digits) digits

unfoldable pub hex_byte : ℕ → Bytes
hex_byte b = let digits = hex_digits 2 b [] in fill_zeros (2 - length digits) digits

abbrev pub center_gap : ℕ → Bytes
center_gap j = if j == 7 then codes " " else []

-- The hex column from place `j` on, `n` places wide; the bytes are those from there on.
unfoldable pub hex_column : ℕ → ℕ → Bytes → Bytes
hex_column zero j bytes = []
hex_column (suc n) j [] = codes "   " ++ (center_gap j ++ hex_column n (j + 1) [])
hex_column (suc n) j (b ∷ bytes) =
    hex_byte b ++ (codes " " ++ (center_gap j ++ hex_column n (j + 1) bytes))

-- A `char` that is negative is not printable.
abbrev pub shown_char : ℕ → ℕ
shown_char c = if leb 32 c && leb c 126 then c else b'.'

unfoldable pub text_column : ℕ → Bytes → Bytes
text_column zero bytes = []
text_column (suc n) [] = []
text_column (suc n) (b ∷ bytes) = shown_char b ∷ text_column n bytes

unfoldable pub drop_bytes : ℕ → Bytes → Bytes
drop_bytes zero bytes = bytes
drop_bytes (suc n) [] = []
drop_bytes (suc n) (b ∷ bytes) = drop_bytes n bytes

unfoldable pub dump_row : ℕ → Bytes → Bytes
dump_row i bytes =
    hex_offset i
    ++ (codes "  "
        ++ (hex_column 16 0 bytes ++ (codes "  |" ++ (text_column 16 bytes ++ (b'|' ∷ 10 ∷ [])))))

-- The rows from the offset `i` on.
unfoldable pub dump_rows : ℕ → ℕ → Bytes → List Bytes
dump_rows zero i bytes = []
dump_rows (suc fuel) i [] = []
dump_rows (suc fuel) i (b ∷ bytes) =
    dump_row i (b ∷ bytes) ∷ dump_rows fuel (i + 16) (drop_bytes 16 (b ∷ bytes))

unfoldable pub joined : List Bytes → Bytes
joined [] = []
joined (row ∷ rows) = row ++ joined rows

-- One row for each byte would be enough.
unfoldable pub generate_hex_dump : Bytes → Bytes
generate_hex_dump bytes = joined (dump_rows (length bytes) 0 bytes)

length-fill_zeros : (n : ℕ) (text : Bytes) → length (fill_zeros n text) ≡ n + length text
unfolding fill_zeros
length-fill_zeros zero text = omega arith
length-fill_zeros (suc n) text = omega (arith, length-fill_zeros n text)

length-hex_byte : (b : ℕ) → length (hex_byte b) ≡ 2
unfolding hex_byte hex_digits
length-hex_byte b =
    ground (arith, length-fill_zeros (2 - length (hex_digits 2 b [])) (hex_digits 2 b []))

-- Wherever the bytes end, the column has its full width: three for a place, one for the gap.
length-hex_column :
    (n j : ℕ) (bytes : Bytes)
    → length (hex_column n j bytes) ≡ 3 * n + (if leb j 7 && ltb 7 (j + n) then 1 else 0)
unfolding hex_column
length-hex_column zero j bytes = ground arith
length-hex_column (suc n) j [] =
    ground (
      arith,
      length-hex_column n (j + 1) [],
      length-append (center_gap j) (hex_column n (j + 1) []),
    )
length-hex_column (suc n) j (b ∷ bytes) = ground (
  arith,
  length-hex_byte b,
  length-hex_column n (j + 1) bytes,
  length-append (hex_byte b) (codes " " ++ (center_gap j ++ hex_column n (j + 1) bytes)),
  length-append (center_gap j) (hex_column n (j + 1) bytes),
)

length-text_column :
    (n : ℕ) (bytes : Bytes)
    → length (text_column n bytes) ≡ (if ltb n (length bytes) then n else length bytes)
unfolding text_column
length-text_column zero bytes = ground arith
length-text_column (suc n) [] = ground arith
length-text_column (suc n) (b ∷ bytes) = ground (arith, length-text_column n bytes)

length-drop_bytes : (n : ℕ) (bytes : Bytes) → length (drop_bytes n bytes) ≡ length bytes - n
unfolding drop_bytes
length-drop_bytes zero bytes = omega arith
length-drop_bytes (suc n) [] = omega arith
length-drop_bytes (suc n) (b ∷ bytes) = omega (arith, length-drop_bytes n bytes)

pub length-dump_rows :
    (fuel i : ℕ) (bytes : Bytes)
    → length bytes ≤ fuel
    → length (dump_rows fuel i bytes) ≡ (length bytes + 15) / 16
unfolding dump_rows
length-dump_rows zero i [] h = refl
length-dump_rows zero i (b ∷ bytes) h = absurd (omega arith)
length-dump_rows (suc fuel) i [] h = refl
length-dump_rows (suc fuel) i (b ∷ bytes) h =
    let rest = length-drop_bytes 16 (b ∷ bytes) in
    omega (
      arith,
      rest,
      length-dump_rows fuel (i + 16) (drop_bytes 16 (b ∷ bytes)) (omega (arith, rest, h)),
    )

pub length-dump_row :
    (i : ℕ) (bytes : Bytes)
    → length (dump_row i bytes)
      ≡ length (hex_offset i) + 56 + (if ltb 16 (length bytes) then 16 else length bytes)
unfolding dump_row
length-dump_row i bytes =
    let line_end : Bytes = b'|' ∷ 10 ∷ [] in
    let text = text_column 16 bytes in
    let cells = hex_column 16 0 bytes in
    omega (
      arith,
      length-append (hex_offset i) (codes "  " ++ (cells ++ (codes "  |" ++ (text ++ line_end)))),
      length-append cells (codes "  |" ++ (text ++ line_end)),
      length-append text line_end,
      length-hex_column 16 0 bytes,
      length-text_column 16 bytes,
    )
