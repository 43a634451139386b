-- ===== src/Base/Maps.antt =====
-- `std::unordered_map<std::string, V>` and `std::map<std::string, V>` as association lists.
use mathlib.Core.Path.{◌≡◌, refl}
use mathlib.Core.Logic.{ite}
use mathlib.Core.Option.{Option, none, some}
use mathlib.Core.List.{List, [], ◌∷◌}
use native.Mathlib.Omega.{arith}
use Prim.Native.Nat.{◌+◌}
use zmq_pubsub_testing.Base.Logic.{ltb, is_some, if◌then◌else◌}
use zmq_pubsub_testing.Base.Texts.{Bytes, Bytes-discrete, count}

abbrev pub Map {ℓ} : Type ℓ → Type ℓ
Map V = List (Bytes × V)

module _ {ℓ} {V : Type ℓ} where
  unfoldable pub find : Bytes → Map V → Option V
  find k [] = none
  find k ((j, v) ∷ m) = ite (Bytes-discrete j k) (some v) (find k m)

  -- `m[k] = v`: an entry is overwritten in its place, a new one goes to the end.
  unfoldable pub assign : Bytes → V → Map V → Map V
  assign k v [] = (k, v) ∷ []
  assign k v ((j, w) ∷ m) = ite (Bytes-discrete j k) ((k, v) ∷ m) ((j, w) ∷ assign k v m)

  unfoldable pub erase : Bytes → Map V → Map V
  erase k [] = []
  erase k ((j, w) ∷ m) = ite (Bytes-discrete j k) (erase k m) ((j, w) ∷ erase k m)

  abbrev pub keys : Map V → List Bytes
  keys [] = []
  keys ((j, w) ∷ m) = j ∷ keys m

  pub find-assign :
      (k j : Bytes) (v : V) (m : Map V)
      → find j (assign k v m) ≡ ite (Bytes-discrete k j) (some v) (find j m)
  unfolding find assign
  find-assign k j v [] = refl
  find-assign k j v ((i, w) ∷ m) = ground (arith, find-assign k j v m)

  pub find-erase :
      (k j : Bytes) (m : Map V) → find j (erase k m) ≡ ite (Bytes-discrete k j) none (find j m)
  unfolding find erase
  find-erase k j [] = ground arith
  find-erase k j ((i, w) ∷ m) = ground (arith, find-erase k j m)

  -- A key stands in a map if it is found there.
  pub count-keys : (k : Bytes) (m : Map V) → is_some (find k m) ≡ ltb 0 (count k (keys m))
  unfolding find count
  count-keys k [] = refl
  count-keys k ((j, w) ∷ m) = ground (arith, count-keys k m)

  pub count-keys-assign :
      (k j : Bytes) (v : V) (m : Map V)
      → count j (keys (assign k v m))
        ≡ (if is_some (find k m) then 0 else ite (Bytes-discrete k j) 1 0) + count j (keys m)
  unfolding find assign count
  count-keys-assign k j v [] = ground arith
  count-keys-assign k j v ((i, w) ∷ m) = ground (arith, count-keys-assign k j v m)

  pub count-keys-erase :
      (k j : Bytes) (m : Map V)
      → count j (keys (erase k m)) ≡ ite (Bytes-discrete k j) 0 (count j (keys m))
  unfolding erase count
  count-keys-erase k j [] = ground arith
  count-keys-erase k j ((i, w) ∷ m) = ground (arith, count-keys-erase k j m)
