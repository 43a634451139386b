-- ===== src/Uuid.antt =====
-- common/uuidhelper.h: `generateUUID`. The draws of the two distributions are parameters.
mod Tests
use zmq_pubsub_testing.Base.{
  ℕ, zero, suc, ◌+◌, ◌≤◌, ◌<◌, ◌≡◌, refl, Bytes, Bool, true, false, ◌&&◌, ◌||◌, List, [], ◌∷◌,
  codes, get_elem?, Option, none, some, ◌==◌, leb, ltb, length, ◌⊎◌, inl, inr, if◌then◌else◌, arith,
  All,
}
use zmq_pubsub_testing.Discovery.Roundtrip.{BarFree, is_bar}

abbrev pub hex_chars : Bytes
hex_chars = codes "0123456789abcdef"

-- `hex_chars[n]`, and 0 where the source would read past the end.
abbrev pub at_or_zero : Option ℕ → ℕ
at_or_zero none = 0
at_or_zero (some c) = c

unfoldable pub hex_char : ℕ → ℕ
hex_char n = at_or_zero (get_elem? hex_chars n)

-- `uuid[i] = c`.
unfoldable pub set_at : ℕ → ℕ → Bytes → Bytes
set_at i c [] = []
set_at zero c (x ∷ xs) = c ∷ xs
set_at (suc i) c (x ∷ xs) = x ∷ set_at i c xs

-- The loops of `set_hex`: `n` places from `i` on take the draws from the `k`-th on.
unfoldable pub set_hexes : ℕ → ℕ → ℕ → (ℕ → ℕ) → Bytes → Bytes
set_hexes zero i k draw uuid = uuid
set_hexes (suc n) i k draw uuid =
    set_hexes n (i + 1) (k + 1) draw (set_at i (hex_char (draw k)) uuid)

unfoldable pub spaces : ℕ → Bytes
spaces zero = []
spaces (suc n) = b' ' ∷ spaces n

unfoldable pub generate_uuid : (ℕ → ℕ) → ℕ → Bytes
generate_uuid draw variant =
    let dashes = set_at 23 b'-' (set_at 18 b'-' (set_at 13 b'-' (set_at 8 b'-' (spaces 36)))) in
    let front = set_hexes 4 9 8 draw (set_hexes 8 0 0 draw dashes) in
    let middle = set_hexes 3 15 12 draw (set_at 14 b'4' front) in
    let back = set_hexes 3 20 15 draw (set_at 19 (hex_char variant) middle) in
    set_hexes 12 24 18 draw back

-- A random UUID of version 4: "xxxxxxxx-xxxx-4xxx-yxxx-xxxxxxxxxxxx".
pub data Place : Type 0 where
  hex dash four high : Place

abbrev pub is_hex : ℕ → Bool
is_hex c = (leb b'0' c && leb c b'9') || (leb b'a' c && leb c b'f')

abbrev pub fits : Place → ℕ → Bool
fits hex c = is_hex c
fits dash c = c == b'-'
fits four c = c == b'4'
fits high c = (c == b'8') || (c == b'9') || (c == b'a') || (c == b'b')

-- The bytes fit the places, one for one.
abbrev pub Fits : List Place → Bytes → Type 0
Fits [] [] = Unit
Fits [] (c ∷ cs) = ⊥
Fits (p ∷ ps) [] = ⊥
Fits (p ∷ ps) (c ∷ cs) = (fits p c ≡ true) × Fits ps cs

abbrev pub version_4 : List Place
version_4 =
    hex ∷ hex ∷ hex ∷ hex ∷ hex ∷ hex ∷ hex ∷ hex ∷ dash ∷ hex ∷ hex ∷ hex ∷ hex ∷ dash ∷ four ∷ hex
    ∷ hex ∷ hex ∷ dash ∷ high ∷ hex ∷ hex ∷ hex ∷ dash ∷ hex ∷ hex ∷ hex ∷ hex ∷ hex ∷ hex ∷ hex
    ∷ hex ∷ hex ∷ hex ∷ hex ∷ hex ∷ []

-- What holds of every byte of a table holds of each that is read from it.
All-get :
    (P : ℕ → Type 0) (table : Bytes) (n : ℕ)
    → All P table
    → n < length table
    → P (at_or_zero (get_elem? table n))
All-get P [] n h lt = absurd (omega arith)
All-get P (x ∷ xs) zero h lt = h.0
All-get P (x ∷ xs) (suc n) h lt = All-get P xs n h.1 (omega arith)

hex_char-hex : (n : ℕ) → n ≤ 15 → is_hex (hex_char n) ≡ true
unfolding hex_char
hex_char-hex n h = All-get (λ c. is_hex c ≡ true) hex_chars n (ground arith) (omega arith)

eight_to_eleven : (n : ℕ) → 8 ≤ n → n ≤ 11 → (n ≡ 8) ⊎ ((n ≡ 9) ⊎ ((n ≡ 10) ⊎ (n ≡ 11)))
eight_to_eleven n lo hi = ground arith

hex_char-variant : (n : ℕ) → 8 ≤ n → n ≤ 11 → fits high (hex_char n) ≡ true
unfolding hex_char
hex_char-variant n lo hi = elim (eight_to_eleven n lo hi) [
  | inl e ↦ rw e refl
  | inr (inl e) ↦ rw e refl
  | inr (inr (inl e)) ↦ rw e refl
  | inr (inr (inr e)) ↦ rw e refl
]

-- `n` hexadecimal digits, from the `k`-th draw on, and then `R`.
abbrev Run : (ℕ → ℕ) → ℕ → ℕ → Type 0 → Type 0
Run draw zero k R = R
Run draw (suc n) k R = (is_hex (hex_char (draw k)) ≡ true) × Run draw n (k + 1) R

digits_then : (draw : ℕ → ℕ) → ((k : ℕ) → draw k ≤ 15) → (n k : ℕ) {R : Type 0} → R → Run draw n k R
digits_then draw low zero k r = r
digits_then draw low (suc n) k r = (hex_char-hex (draw k) (low k), digits_then draw low n (k + 1) r)

-- With draws within the ranges of the two distributions, generateUUID returns 36 bytes of the
-- form xxxxxxxx-xxxx-4xxx-yxxx-xxxxxxxxxxxx with hexadecimal digits for x and one of 8, 9, a and
-- b for y.
pub generate_uuid-version_4 :
    (draw : ℕ → ℕ) (variant : ℕ)
    → ((k : ℕ) → draw k ≤ 15)
    → 8 ≤ variant
    → variant ≤ 11
    → Fits version_4 (generate_uuid draw variant)
unfolding generate_uuid set_hexes set_at spaces
generate_uuid-version_4 draw variant low lo hi = digits_then draw low 8 0 (
  refl,
  digits_then draw low 4 8 (
    refl,
    (
      refl,
      digits_then draw low 3 12 (
        refl,
        (
          hex_char-variant variant lo hi,
          digits_then draw low 3 15 (refl, digits_then draw low 12 18 tt),
        ),
      ),
    ),
  ),
)

-- So a broker's id can stand in a beacon: it has no bar.
Fits-BarFree : (ps : List Place) (cs : Bytes) → Fits ps cs → BarFree cs
Fits-BarFree [] [] f = tt
Fits-BarFree [] (c ∷ cs) f = absurd f
Fits-BarFree (p ∷ ps) [] f = absurd f
Fits-BarFree (hex ∷ ps) (c ∷ cs) f = (ground (arith, f.0), Fits-BarFree ps cs f.1)
Fits-BarFree (dash ∷ ps) (c ∷ cs) f = (ground (arith, f.0), Fits-BarFree ps cs f.1)
Fits-BarFree (four ∷ ps) (c ∷ cs) f = (ground (arith, f.0), Fits-BarFree ps cs f.1)
Fits-BarFree (high ∷ ps) (c ∷ cs) f = (ground (arith, f.0), Fits-BarFree ps cs f.1)

pub generate_uuid-BarFree :
    (draw : ℕ → ℕ) (variant : ℕ)
    → ((k : ℕ) → draw k ≤ 15)
    → 8 ≤ variant
    → variant ≤ 11
    → BarFree (generate_uuid draw variant)
generate_uuid-BarFree draw variant low lo hi =
    Fits-BarFree version_4 (generate_uuid draw variant)
      (generate_uuid-version_4 draw variant low lo hi)
