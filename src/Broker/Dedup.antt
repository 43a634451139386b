-- ===== src/Broker/Dedup.antt =====
-- server/zmqbroker.cpp, `isDuplicate`: the window of message ids that were routed lately.
use zmq_pubsub_testing.Base.{
  ℕ, suc, ◌≤◌, ◌≡◌, refl, Bytes, Bool, true, false, List, [], ◌∷◌, ◌++◌, ltb, length, length-append,
  count, count-append, contains, arith, if◌then◌else◌, ap, sym, ◌∙◌, Bool-cases, inl, inr,
}
use zmq_pubsub_testing.Registry.Sets.{remove, count-remove}

abbrev pub max_history_size : ℕ
max_history_size = 10000

-- `m_seenMessageIds`, a set, and `m_messageIdOrder`, oldest first.
pub record History : Type 0 where
  pub seen : List Bytes
  pub order : List Bytes

abbrev pub no_history : History
no_history = record { seen = []; order = [] }

-- `erase(front())` and `pop_front()`.
abbrev pub drop_front : List Bytes → List Bytes → History
drop_front seen [] = record { seen = seen; order = [] }
drop_front seen (oldest ∷ order) = record { seen = remove oldest seen; order = order }

-- The new history, and whether the id was in it.
unfoldable pub is_duplicate : History → Bytes → History × Bool
is_duplicate h uuid =
    let seen = uuid ∷ h.seen in
    let order = h.order ++ uuid ∷ [] in
    if contains uuid h.seen then (h, true) else (
      if ltb max_history_size (length order)
          then drop_front seen order
          else record { seen = seen; order = order },
      false,
    )

-- The set holds each id of the queue once and no other, and the queue keeps its limit.
pub record IsWindow (h : History) : Type 0 where
  pub same : (u : Bytes) → count u h.seen ≡ count u h.order
  pub once : (u : Bytes) → count u h.order ≤ 1
  pub bound : length h.order ≤ max_history_size

pub no_history-IsWindow : IsWindow no_history
unfolding count
no_history-IsWindow = record { same = λ u. refl; once = λ u. omega arith; bound = omega arith }

drop_front-same :
    (seen order : List Bytes) (u : Bytes)
    → ((v : Bytes) → count v seen ≡ count v order)
    → ((v : Bytes) → count v order ≤ 1)
    → (count u (drop_front seen order).seen ≡ count u (drop_front seen order).order)
      × (count u (drop_front seen order).order ≤ count u order)
unfolding count
drop_front-same seen [] u same once = ground (arith, same u)
drop_front-same seen (x ∷ order) u same once = ground (arith, same u, once u, count-remove u x seen)

length-drop_front :
    (seen order : List Bytes) (n : ℕ)
    → length order ≤ suc n
    → length (drop_front seen order).order ≤ n
length-drop_front seen [] n h = omega arith
length-drop_front seen (x ∷ order) n h = omega arith

module _ (h : History) (u : Bytes) (w : IsWindow h) (new : contains u h.seen ≡ false) where
  grown-same : (v : Bytes) → count v (u ∷ h.seen) ≡ count v (h.order ++ u ∷ [])
  unfolding count
  grown-same v = omega (arith, w.same v, count-append v h.order (u ∷ []))

  grown-once : (v : Bytes) → count v (h.order ++ u ∷ []) ≤ 1
  unfolding count contains
  grown-once v = ground (arith, w.same v, w.once v, count-append v h.order (u ∷ []))

  grown-IsWindow : IsWindow (is_duplicate h u).0
  unfolding is_duplicate
  grown-IsWindow =
      rw (new, is_duplicate)
        (elim (Bool-cases (ltb max_history_size (length (h.order ++ u ∷ [])))) [
          | inl long ↦ rw long (record {
            same = λ v. (dropped v).0;
            once = λ v. omega (arith, (dropped v).1, grown-once v);
            bound =
                length-drop_front (u ∷ h.seen) (h.order ++ u ∷ []) max_history_size
                  (omega (arith, w.bound, length-append h.order (u ∷ [])));
          })
          | inr short ↦
              rw short (record { same = grown-same; once = grown-once; bound = ground arith })
        ])
    where
      dropped :
          (v : Bytes)
          → (count v (drop_front (u ∷ h.seen) (h.order ++ u ∷ [])).seen
              ≡ count v (drop_front (u ∷ h.seen) (h.order ++ u ∷ [])).order)
            × (count v (drop_front (u ∷ h.seen) (h.order ++ u ∷ [])).order
                ≤ count v (h.order ++ u ∷ []))
      dropped v = drop_front-same (u ∷ h.seen) (h.order ++ u ∷ []) v grown-same grown-once

pub is_duplicate-IsWindow : (h : History) (u : Bytes) → IsWindow h → IsWindow (is_duplicate h u).0
unfolding is_duplicate
is_duplicate-IsWindow h u w = elim (Bool-cases (contains u h.seen)) [
  | inl old ↦ rw (old, is_duplicate) w
  | inr new ↦ grown-IsWindow h u w new
]

-- The last `n` elements of a list, and the list without its first element.
abbrev pub tail_one : List Bytes → List Bytes
tail_one [] = []
tail_one (x ∷ xs) = xs

abbrev pub take_last : ℕ → List Bytes → List Bytes
take_last n [] = []
take_last n (x ∷ xs) = if ltb n (length (x ∷ xs)) then take_last n xs else x ∷ xs

-- The specification: a log of all ids that were ever routed, of which the newest count.
abbrev pub spec_duplicate : List Bytes → Bytes → List Bytes × Bool
spec_duplicate log u =
    if contains u (take_last max_history_size log) then (log, true) else (log ++ u ∷ [], false)

pub record Windows (log : List Bytes) (h : History) : Type 0 where
  pub window : IsWindow h
  pub recent : h.order ≡ take_last max_history_size log

take_last-short : (n : ℕ) (l : List Bytes) → length l ≤ n → take_last n l ≡ l
take_last-short n [] h = refl
take_last-short n (x ∷ l) h = ground arith

length-take_last : (n : ℕ) (l : List Bytes) → length (take_last n l) ≤ n
length-take_last n [] = omega arith
length-take_last n (x ∷ l) = ground (arith, length-take_last n l)

take_last-snoc :
    (n : ℕ) (l : List Bytes) (u : Bytes)
    → take_last (suc n) (l ++ u ∷ []) ≡ (
        if ltb (suc n) (length (take_last (suc n) l ++ u ∷ []))
        then tail_one (take_last (suc n) l ++ u ∷ [])
        else take_last (suc n) l ++ u ∷ [])
take_last-snoc n [] u = ground arith
take_last-snoc n (x ∷ l) u =
    ground (arith, take_last-snoc n l u, length-append l (u ∷ []), take_last-short (suc n) l)

contains-seen : (h : History) (u : Bytes) → IsWindow h → contains u h.seen ≡ contains u h.order
unfolding contains
contains-seen h u w = rw (w.same u)

order-drop_front : (seen order : List Bytes) → (drop_front seen order).order ≡ tail_one order
order-drop_front seen [] = refl
order-drop_front seen (x ∷ order) = refl

order-is_duplicate :
    (h : History) (u : Bytes)
    → contains u h.seen ≡ false
    → (is_duplicate h u).0.order ≡ (
        if ltb max_history_size (length (h.order ++ u ∷ []))
        then tail_one (h.order ++ u ∷ [])
        else h.order ++ u ∷ [])
unfolding is_duplicate
order-is_duplicate h u new =
    rw (new, is_duplicate) (ground (arith, order-drop_front (u ∷ h.seen) (h.order ++ u ∷ [])))

-- If the window represents the newest 10000 ids of a log of routed ids, then isDuplicate answers
-- whether the id is among them, and the new window represents the newest 10000 of the log to
-- which an id that was not among them is appended.
pub is_duplicate-Windows :
    (log : List Bytes) (h : History) (u : Bytes)
    → Windows log h
    → ((is_duplicate h u).1 ≡ (spec_duplicate log u).1)
      × Windows (spec_duplicate log u).0 (is_duplicate h u).0
is_duplicate-Windows log h u w =
    let same = contains-seen h u w.window ∙ ap (contains u) w.recent in
    elim (Bool-cases (contains u h.seen)) [
      | inl old ↦
          let in_log = sym same ∙ old in
          rw in_log (unfold is_duplicate in rw (old, is_duplicate) (refl, w))
      | inr new ↦
          let out_log = sym same ∙ new in
          rw out_log (
            unfold is_duplicate in rw (new, is_duplicate) refl,
            record {
              window = is_duplicate-IsWindow h u w.window;
              recent =
                  order-is_duplicate h u new
                  ∙ ap
                      (λ l.
                        if ltb max_history_size (length (l ++ u ∷ []))
                        then tail_one (l ++ u ∷ [])
                        else l ++ u ∷ [])
                      w.recent
                  ∙ sym (take_last-snoc 9999 log u);
            },
          )
    ]

-- The answer is whether the id is in the set.
pub is_duplicate-contains : (h : History) (u : Bytes) → (is_duplicate h u).1 ≡ contains u h.seen
unfolding is_duplicate
is_duplicate-contains h u = ground arith

-- A known id changes nothing.
pub is_duplicate-old :
    (h : History) (u : Bytes) → contains u h.seen ≡ true → (is_duplicate h u).0 ≡ h
unfolding is_duplicate
is_duplicate-old h u old = rw (old, is_duplicate)

contains-snoc :
    (l : List Bytes) (u : Bytes)
    → contains u (
        if ltb max_history_size (length (l ++ u ∷ [])) then tail_one (l ++ u ∷ []) else l ++ u ∷ [])
      ≡ true
unfolding contains count
contains-snoc [] u = ground arith
contains-snoc (x ∷ l) u = ground (arith, count-append u l (u ∷ []))

-- An id is known right after it was asked for.
pub is_duplicate-twice :
    (h : History) (u : Bytes) → IsWindow h → (is_duplicate (is_duplicate h u).0 u).1 ≡ true
is_duplicate-twice h u w =
    is_duplicate-contains (is_duplicate h u).0 u ∙ elim (Bool-cases (contains u h.seen)) [
      | inl old ↦ rw (is_duplicate-old h u old) old
      | inr new ↦
          contains-seen (is_duplicate h u).0 u (is_duplicate-IsWindow h u w)
          ∙ ap (contains u) (order-is_duplicate h u new)
          ∙ contains-snoc h.order u
    ]
