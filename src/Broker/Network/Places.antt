-- ===== src/Broker/Network/Places.antt =====
-- server/zmqbroker.cpp: the brokers of a network by their numbers, and who is on the way to which.
use zmq_pubsub_testing.Base.{
  ℕ, zero, suc, ◌+◌, ◌≡◌, ◌≢◌, refl, ap, subst, Bytes, Bool, true, false, List, [], ◌∷◌, ◌++◌,
  Option, none, some, arith, contains, if◌then◌else◌, ◌==◌,
}
use zmq_pubsub_testing.Broker.Valid.{IsValid}
use zmq_pubsub_testing.Broker.{Broker, Output}
use zmq_pubsub_testing.Broker.Network.{Arrival, work_at, seen_at, pick}

-- Broker number `i`.
abbrev pub nth : ℕ → List Broker → Option Broker
nth i [] = none
nth zero (b ∷ bs) = some b
nth (suc i) (b ∷ bs) = nth i bs

-- The brokers with another one under number `i`.
abbrev pub put : ℕ → Broker → List Broker → List Broker
put i b' [] = []
put zero b' (b ∷ bs) = b' ∷ bs
put (suc i) b' (b ∷ bs) = b ∷ put i b' bs

-- Whether broker number `i` exists and passes a test.
abbrev pub holds_at : (Broker → Bool) → ℕ → List Broker → Bool
holds_at p i [] = false
holds_at p zero (b ∷ bs) = p b
holds_at p (suc i) (b ∷ bs) = holds_at p i bs

some_same : (b c : Broker) → some b ≡ some c → b ≡ c
some_same b c e = cc

pub work_at-nth :
    (i : ℕ) (f : Broker → Broker × List Output) (b : Broker) (bs : List Broker)
    → nth i bs ≡ some b
    → work_at i f bs ≡ (put i (f b).0 bs, (f b).1)
unfolding work_at
work_at-nth i f b [] e = cc
work_at-nth zero f b (c ∷ bs) e = ap (λ x. ((f x).0 ∷ bs, (f x).1)) (some_same c b e)
work_at-nth (suc i) f b (c ∷ bs) e = rw (work_at-nth i f b bs e) refl

pub work_at-none :
    (i : ℕ) (f : Broker → Broker × List Output) (bs : List Broker)
    → nth i bs ≡ none
    → work_at i f bs ≡ (bs, [])
unfolding work_at
work_at-none i f [] e = refl
work_at-none zero f (c ∷ bs) e = cc
work_at-none (suc i) f (c ∷ bs) e = rw (work_at-none i f bs e) refl

pub holds_at-nth :
    (p : Broker → Bool) (i : ℕ) (b : Broker) (bs : List Broker)
    → nth i bs ≡ some b
    → holds_at p i bs ≡ p b
holds_at-nth p i b [] e = cc
holds_at-nth p zero b (c ∷ bs) e = cc
holds_at-nth p (suc i) b (c ∷ bs) e = holds_at-nth p i b bs e

pub holds_at-none :
    (p : Broker → Bool) (i : ℕ) (bs : List Broker) → nth i bs ≡ none → holds_at p i bs ≡ false
holds_at-none p i [] e = refl
holds_at-none p zero (c ∷ bs) e = cc
holds_at-none p (suc i) (c ∷ bs) e = holds_at-none p i bs e

pub seen_at-holds_at :
    (u : Bytes) (i : ℕ) (bs : List Broker)
    → seen_at i u bs ≡ holds_at (λ b. contains u b.history.seen) i bs
seen_at-holds_at u i [] = refl
seen_at-holds_at u zero (b ∷ bs) = refl
seen_at-holds_at u (suc i) (b ∷ bs) = seen_at-holds_at u i bs

-- A test that the change leaves alone.
pub holds_at-put :
    (p : Broker → Bool) (i j : ℕ) (b b' : Broker) (bs : List Broker)
    → nth i bs ≡ some b
    → p b' ≡ p b
    → holds_at p j (put i b' bs) ≡ holds_at p j bs
holds_at-put p i j b b' [] e same = refl
holds_at-put p zero zero b b' (c ∷ bs) e same = cc
holds_at-put p zero (suc j) b b' (c ∷ bs) e same = refl
holds_at-put p (suc i) zero b b' (c ∷ bs) e same = refl
holds_at-put p (suc i) (suc j) b b' (c ∷ bs) e same = holds_at-put p i j b b' bs e same

-- A test that it makes true.
pub holds_at_here :
    (p : Broker → Bool) (i : ℕ) (b b' : Broker) (bs : List Broker)
    → nth i bs ≡ some b
    → p b' ≡ true
    → holds_at p i (put i b' bs) ≡ true
holds_at_here p i b b' [] e now = cc
holds_at_here p zero b b' (c ∷ bs) e now = now
holds_at_here p (suc i) b b' (c ∷ bs) e now = holds_at_here p i b b' bs e now

pub holds_at_stays :
    (p : Broker → Bool) (i j : ℕ) (b' : Broker) (bs : List Broker)
    → p b' ≡ true
    → holds_at p j bs ≡ true
    → holds_at p j (put i b' bs) ≡ true
holds_at_stays p i j b' [] now before = before
holds_at_stays p zero zero b' (c ∷ bs) now before = now
holds_at_stays p zero (suc j) b' (c ∷ bs) now before = before
holds_at_stays p (suc i) zero b' (c ∷ bs) now before = before
holds_at_stays p (suc i) (suc j) b' (c ∷ bs) now before = holds_at_stays p i j b' bs now before

pub holds_at_other :
    (p : Broker → Bool) (i j : ℕ) (b' : Broker) (bs : List Broker)
    → j ≢ i
    → holds_at p j (put i b' bs) ≡ holds_at p j bs
holds_at_other p i j b' [] differ = refl
holds_at_other p zero zero b' (c ∷ bs) differ = absurd (differ refl)
holds_at_other p zero (suc j) b' (c ∷ bs) differ = refl
holds_at_other p (suc i) zero b' (c ∷ bs) differ = refl
holds_at_other p (suc i) (suc j) b' (c ∷ bs) differ =
    holds_at_other p i j b' bs (λ e. differ (ap suc e))

-- Every broker's state is valid.
abbrev pub AreValid : List Broker → Type 0
AreValid [] = Unit {0}
AreValid (b ∷ bs) = IsValid b × AreValid bs

pub AreValid-nth :
    (i : ℕ) (b : Broker) (bs : List Broker) → AreValid bs → nth i bs ≡ some b → IsValid b
AreValid-nth i b [] v e = cc
AreValid-nth zero b (c ∷ bs) v e = subst IsValid (some_same c b e) v.0
AreValid-nth (suc i) b (c ∷ bs) v e = AreValid-nth i b bs v.1 e

pub AreValid-put :
    (i : ℕ) (b' : Broker) (bs : List Broker) → AreValid bs → IsValid b' → AreValid (put i b' bs)
AreValid-put i b' [] v v' = tt
AreValid-put zero b' (c ∷ bs) v v' = (v', v.1)
AreValid-put (suc i) b' (c ∷ bs) v v' = (v.0, AreValid-put i b' bs v.1 v')

-- How many messages are on their way to broker number `j`.
abbrev pub bound_for : ℕ → List Arrival → ℕ
bound_for j [] = 0
bound_for j (a ∷ pool) = (if a.at == j then 1 else 0) + bound_for j pool

pub bound_for-append :
    (j : ℕ) (xs ys : List Arrival) → bound_for j (xs ++ ys) ≡ bound_for j xs + bound_for j ys
bound_for-append j [] ys = omega arith
bound_for-append j (x ∷ xs) ys = omega (arith, bound_for-append j xs ys)

pub bound_for-pick :
    (j n : ℕ) (x : Arrival) (xs : List Arrival)
    → bound_for j (x ∷ xs)
      ≡ (if (pick n x xs).0.at == j then 1 else 0) + bound_for j (pick n x xs).1
bound_for-pick j n x [] = refl
bound_for-pick j zero x (y ∷ xs) = refl
bound_for-pick j (suc n) x (y ∷ xs) = omega (arith, bound_for-pick j n y xs)
