-- ===== src/Base/Decimal.antt =====
-- `std::to_string` of an unsigned number and `std::stoi`.
use Prim.Native.Nat.{ℕ, zero, suc, ◌+◌, ◌-◌, ◌*◌, ◌/◌, ◌%◌, ◌≤◌, ◌<◌}
use mathlib.Core.Path.{◌≡◌, refl, ap, sym, ◌∙◌}
use mathlib.Core.Logic.{inl, inr}
use zmq_pubsub_testing.Base.Lists.{All}
use mathlib.Core.Bool.{Bool, true, ◌&&◌, ◌||◌}
use mathlib.Core.Option.{Option, none, some}
use mathlib.Core.List.{[], ◌∷◌}
use native.Mathlib.Omega.{arith}
use zmq_pubsub_testing.Base.Logic.{ltb, leb, ◌==◌, if◌then◌else◌, Bool-cases}
use zmq_pubsub_testing.Base.Texts.{Bytes}

-- The digits of `n` in front of `rest`; each round drops a digit, so `suc n` rounds are enough.
unfoldable pub digits : ℕ → ℕ → Bytes → Bytes
digits zero n rest = rest
digits (suc fuel) n rest =
    let more = digits fuel (n / 10) ((48 + n % 10) ∷ rest) in
    if ltb n 10 then (48 + n) ∷ rest else more

unfoldable pub to_string : ℕ → Bytes
unfolding digits
to_string n = digits (suc n) n []

abbrev pub is_digit : ℕ → Bool
is_digit c = leb 48 c && leb c 57

abbrev pub is_space : ℕ → Bool
is_space c = (c == 32) || (leb 9 c && leb c 13)

-- The value of the digits at the front, behind those that were read; what follows is ignored.
unfoldable pub read_digits : ℕ → Bytes → ℕ
read_digits acc [] = acc
read_digits acc (c ∷ cs) = if is_digit c then read_digits (acc * 10 + (c - 48)) cs else acc

-- A value of type `int` by its sign.
pub data ℤ : Type 0 where
  pos negsuc : ℕ → ℤ

-- The number -n.
abbrev pub neg : ℕ → ℤ
neg zero = pos 0
neg (suc n) = negsuc n

abbrev pub in_int : ℤ → Option ℤ
in_int (pos n) = if leb n 2147483647 then some (pos n) else none
in_int (negsuc n) = if leb n 2147483647 then some (negsuc n) else none

-- A number that starts with a digit, or `invalid_argument`.
abbrev pub number : (ℕ → ℤ) → Bytes → Option ℤ
number sign [] = none
number sign (c ∷ cs) = if is_digit c then in_int (sign (read_digits 0 (c ∷ cs))) else none

abbrev pub signed : Bytes → Option ℤ
signed [] = none
signed (c ∷ cs) =
    if c == b'-' then number neg cs else if c == b'+' then number pos cs else number pos (c ∷ cs)

-- `none` is an exception.
unfoldable pub stoi : Bytes → Option ℤ
stoi [] = none
stoi (c ∷ cs) = if is_space c then stoi cs else signed (c ∷ cs)

read_digits-digits :
    (fuel n : ℕ) (rest : Bytes) → n < fuel → read_digits 0 (digits fuel n rest) ≡ read_digits n rest
unfolding read_digits digits
read_digits-digits zero n rest h = absurd (omega arith)
read_digits-digits (suc fuel) n rest h =
    ground (arith, read_digits-digits fuel (n / 10) ((48 + n % 10) ∷ rest))

digits-head :
    (fuel n : ℕ) (rest : Bytes)
    → n < fuel
    → (c : ℕ) × (cs : Bytes) × (digits fuel n rest ≡ c ∷ cs) × (is_digit c ≡ true)
unfolding digits
digits-head zero n rest h = absurd (omega arith)
digits-head (suc fuel) n rest h = elim (Bool-cases (ltb n 10)) [
  | inl small ↦ (48 + n, rest, rw small, ground arith)
  | inr large ↦ rw large (digits-head fuel (n / 10) ((48 + n % 10) ∷ rest) (ground arith))
]

-- Every byte is a digit.
pub digits-AllDigits :
    (fuel n : ℕ) (rest : Bytes)
    → All (λ c. is_digit c ≡ true) rest
    → All (λ c. is_digit c ≡ true) (digits fuel n rest)
unfolding digits
digits-AllDigits zero n rest h = h
digits-AllDigits (suc fuel) n rest h = elim (Bool-cases (ltb n 10)) [
  | inl small ↦ rw small (ground arith, h)
  | inr large ↦ rw large (digits-AllDigits fuel (n / 10) ((48 + n % 10) ∷ rest) (ground arith, h))
]

stoi-digit :
    (c : ℕ) (cs : Bytes) → is_digit c ≡ true → stoi (c ∷ cs) ≡ in_int (pos (read_digits 0 (c ∷ cs)))
unfolding stoi
stoi-digit c cs h = ground arith

-- A printed number reads back as itself, if it fits an `int`.
pub stoi-to_string : (n : ℕ) → n ≤ 2147483647 → stoi (to_string n) ≡ some (pos n)
unfolding to_string
stoi-to_string n h =
    let (c, cs, e, d) = digits-head (suc n) n [] (omega arith) in
    let r = read_digits-digits (suc n) n [] (omega arith) in
    rw e (
      stoi-digit c cs d
      ∙ ap (λ x. in_int (pos x)) (ap (read_digits 0) (sym e) ∙ r ∙ read_digits-nil n)
      ∙ ground arith)
  where
    read_digits-nil : (m : ℕ) → read_digits m [] ≡ m
    read_digits-nil m = unfold read_digits in refl

pub to_string-AllDigits : (n : ℕ) → All (λ c. is_digit c ≡ true) (to_string n)
unfolding to_string
to_string-AllDigits n = digits-AllDigits (suc n) n [] tt
