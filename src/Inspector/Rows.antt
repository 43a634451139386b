-- ===== src/Inspector/Rows.antt =====
-- inspector/packettablemodel.cpp and inspector/mainwindow.cpp: the rows that the view counts.
use zmq_pubsub_testing.Base.{
  ℕ, zero, suc, ◌+◌, ◌-◌, ◌≤◌, ◌≡◌, refl, ap, ◌∙◌, List, [], ◌∷◌, ◌++◌, length, length-append, ltb,
  arith, Bool-cases, inl, inr,
}
use zmq_pubsub_testing.Inspector.{
  InspectorPacket, RowSignal, inserted, removing, removed, drop_packets, add_packet,
  max_packet_history, trim_chunk,
}

-- A view counts rows by the signals; `going` rows are about to be removed.
pub record View : Type 0 where
  pub rows : ℕ
  pub going : ℕ

unfoldable pub observe : View → List RowSignal → View
observe v [] = v
observe v (inserted a b ∷ ss) = observe (record v { rows = v.rows + ((b + 1) - a) }) ss
observe v (removing a b ∷ ss) = observe (record v { going = (b + 1) - a }) ss
observe v (removed ∷ ss) = observe (record { rows = v.rows - v.going; going = 0 }) ss

length-drop_packets :
    (n : ℕ) (ps : List InspectorPacket) → length (drop_packets n ps) ≡ length ps - n
unfolding drop_packets
length-drop_packets zero ps = omega arith
length-drop_packets (suc n) [] = omega arith
length-drop_packets (suc n) (p ∷ ps) = omega (arith, length-drop_packets n ps)

-- Packets one after the other.
unfoldable pub add_packets :
    List InspectorPacket → List InspectorPacket → List InspectorPacket × List RowSignal
add_packets history [] = (history, [])
add_packets history (p ∷ ps) =
    let (history1, signals1) = add_packet history p in
    let (history2, signals2) = add_packets history1 ps in (history2, signals1 ++ signals2)

observe-append :
    (xs ys : List RowSignal) (v : View) → observe v (xs ++ ys) ≡ observe (observe v xs) ys
unfolding observe
observe-append [] ys v = refl
observe-append (inserted a b ∷ xs) ys v = observe-append xs ys _
observe-append (removing a b ∷ xs) ys v = observe-append xs ys _
observe-append (removed ∷ xs) ys v = observe-append xs ys _

observe-add_packet :
    (history : List InspectorPacket) (p : InspectorPacket)
    → observe (record { rows = length history; going = 0 }) (add_packet history p).1
      ≡ record { rows = length (add_packet history p).0; going = 0 }
unfolding observe add_packet
observe-add_packet history p =
    let grown = history ++ p ∷ [] in
    let size = length-append history (p ∷ []) in
    elim (Bool-cases (ltb max_packet_history (length grown))) [
      | inl long ↦
          rw (long, add_packet)
            (ap (λ n. record { rows = n; going = 0 })
              (omega (arith, size, length-drop_packets trim_chunk grown)))
      | inr short ↦
          rw (short, add_packet) (ap (λ n. record { rows = n; going = 0 }) (omega (arith, size)))
    ]

add_packet-bound :
    (history : List InspectorPacket) (p : InspectorPacket)
    → length history ≤ max_packet_history
    → length (add_packet history p).0 ≤ max_packet_history
unfolding add_packet
add_packet-bound history p h =
    ground
      (arith, length-append history (p ∷ []), length-drop_packets trim_chunk (history ++ p ∷ []))

-- From a history of at most 100000 packets, which the view has counted, any packets that arrive
-- leave a history of at most 100000 packets, and the table's signals make the view count exactly
-- its rows.
pub observe-add_packets :
    (history ps : List InspectorPacket)
    → length history ≤ max_packet_history
    → (observe (record { rows = length history; going = 0 }) (add_packets history ps).1
        ≡ record { rows = length (add_packets history ps).0; going = 0 })
      × (length (add_packets history ps).0 ≤ max_packet_history)
unfolding add_packets observe
observe-add_packets history [] h = (refl, h)
observe-add_packets history (p ∷ ps) h =
    let one = add_packet history p in
    let rest = observe-add_packets one.0 ps (add_packet-bound history p h) in
    (
      observe-append one.1 (add_packets one.0 ps).1 (record { rows = length history; going = 0 })
          ∙ ap (λ v. observe v (add_packets one.0 ps).1) (observe-add_packet history p)
          ∙ rest.0,
      rest.1,
    )
