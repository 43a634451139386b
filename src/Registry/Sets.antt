-- ===== src/Registry/Sets.antt =====
-- The containers of the registry: `std::set<std::string>` as an ascending list, and the
-- swap-with-back removal from a `std::vector<std::string>`, with how they count.
use mathlib.Core.Path.{◌≡◌, refl}
use zmq_pubsub_testing.Base.{
  ◌+◌, ◌-◌, Bytes, Bytes-discrete, bytes_lt, List, [], ◌∷◌, ite, arith, count, if◌then◌else◌,
}

-- `set::insert` of an element that is not in the set.
unfoldable pub place : Bytes → List Bytes → List Bytes
place x [] = x ∷ []
place x (y ∷ ys) = if bytes_lt x y then x ∷ y ∷ ys else y ∷ place x ys

-- `set::erase` by value.
unfoldable pub remove : Bytes → List Bytes → List Bytes
remove x [] = []
remove x (y ∷ ys) = ite (Bytes-discrete y x) (remove x ys) (y ∷ remove x ys)

-- `back()` of a vector whose first element is given.
unfoldable pub back : Bytes → List Bytes → Bytes
back y [] = y
back y (z ∷ zs) = back z zs

unfoldable pub pop_back : Bytes → List Bytes → List Bytes
pop_back y [] = []
pop_back y (z ∷ zs) = y ∷ pop_back z zs

-- `*pos = subs.back(); subs.pop_back();` on the tail behind `pos`.
unfoldable pub fill : List Bytes → List Bytes
unfolding back pop_back
fill [] = []
fill (y ∷ ys) = back y ys ∷ pop_back y ys

unfoldable pub swap_remove : Bytes → List Bytes → List Bytes
unfolding fill
swap_remove c [] = []
swap_remove c (x ∷ xs) = ite (Bytes-discrete x c) (fill xs) (x ∷ swap_remove c xs)

pub count-place :
    (k x : Bytes) (xs : List Bytes)
    → count k (place x xs) ≡ ite (Bytes-discrete x k) 1 0 + count k xs
unfolding count place
count-place k x [] = refl
count-place k x (y ∷ ys) = ground (arith, count-place k x ys)

pub count-remove :
    (k x : Bytes) (xs : List Bytes)
    → count k (remove x xs) ≡ ite (Bytes-discrete x k) 0 (count k xs)
unfolding count remove
count-remove k x [] = ground arith
count-remove k x (y ∷ ys) = ground (arith, count-remove k x ys)

count-back :
    (k y : Bytes) (ys : List Bytes)
    → ite (Bytes-discrete (back y ys) k) 1 0 + count k (pop_back y ys) ≡ count k (y ∷ ys)
unfolding count back pop_back
count-back k y [] = refl
count-back k y (z ∷ zs) = omega (arith, count-back k z zs)

count-fill : (k : Bytes) (xs : List Bytes) → count k (fill xs) ≡ count k xs
unfolding count fill
count-fill k [] = refl
count-fill k (y ∷ ys) = count-back k y ys

-- One copy of `c` goes, if there is one; every other count stays.
pub count-swap_remove :
    (k c : Bytes) (xs : List Bytes)
    → count k (swap_remove c xs) ≡ count k xs - ite (Bytes-discrete c k) 1 0
unfolding count swap_remove
count-swap_remove k c [] = ground arith
count-swap_remove k c (x ∷ xs) = ground (arith, count-swap_remove k c xs, count-fill k xs)
