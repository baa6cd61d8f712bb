-- ===== src/Kcp/Sending/Acks.antt =====
-- What an acknowledgement takes out of the sending window.
use dpi_warrior_native_xray.Base.{
  ℕ, suc, ◌-◌, ◌^◌, ◌≤◌, ◌<◌, max, ◌≡◌, refl, sym, ◌∙◌, inl, inr, Bool, true, false, ◌||◌, List, [],
  ◌∷◌, arith, ltb, ◌==◌, if◌then◌else◌, Bool-cases, length, eq_nil, sub32,
}
use dpi_warrior_native_xray.Kcp.Segment.{DataSegment, AckSegment}
use mathlib.Core.Path.{subst}
use dpi_warrior_native_xray.Kcp.Segment
use dpi_warrior_native_xray.Kcp.RoundTrip.{RoundTripInfo}
use dpi_warrior_native_xray.Kcp.SendingWindow.{SendingWindow, fast_ack}
use dpi_warrior_native_xray.Kcp.SendingWindow
use dpi_warrior_native_xray.Kcp.Sending.{
  SendingWorker, find_first_unacknowledged, process_receiving_next, process_ack, process_acks,
  process_number_list, take_over, process_segment,
}
use dpi_warrior_native_xray.Kcp.Sending.Order.{
  numbers, Ascends, from, without, has, from-Ascends, without-Ascends, numbers-visit,
  numbers-drop_below, numbers-remove, IsOrdered, find_first_unacknowledged-IsOrdered,
}

-- The numbers of a list taken out one after the other.
abbrev pub without_all : List ℕ → List ℕ → List ℕ
without_all [] ns = ns
without_all (k ∷ ks) ns = without_all ks (without k ns)

has-range : (k lo hi : ℕ) (ns : List ℕ) → Ascends lo hi ns → has k ns ≡ true → (lo ≤ k) × (k < hi)
unfolding has
has-range k lo hi [] h e = cc
has-range k lo hi (n ∷ ns) h e = ground (arith, has-range k (suc n) hi ns h.2)

without_self : (k : ℕ) (ns : List ℕ) → has k ns ≡ false → without k ns ≡ ns
unfolding has
without_self k [] e = refl
without_self k (n ∷ ns) e = ground (arith, without_self k ns)

-- After a step the worker is ordered, holds the numbers `ns`, and has not gone back.
abbrev pub Leaves : SendingWorker → List ℕ → SendingWorker → Type 0
Leaves w ns w' =
    IsOrdered w'
    × (numbers w'.window.cache ≡ ns)
    × (w.first_unacknowledged ≤ w'.first_unacknowledged)
    × (w'.next_number ≡ w.next_number)

cache-find_first :
    (w : SendingWorker)
    → ((find_first_unacknowledged w).window ≡ w.window)
      × ((find_first_unacknowledged w).next_number ≡ w.next_number)
unfolding find_first_unacknowledged
cache-find_first w = (refl, refl)

-- A window with the numbers `ns` in place of the worker's, and the first number found anew.
refound :
    (w : SendingWorker) (window : SendingWindow) (ns : List ℕ)
    → IsOrdered w
    → numbers window.cache ≡ ns
    → Ascends w.first_unacknowledged w.next_number ns
    → Leaves w ns (find_first_unacknowledged (record w { window = window }))
refound w window ns o e a =
    let (o', le) =
      find_first_unacknowledged-IsOrdered (record w { window = window }) w.first_unacknowledged
        (rw e a) o.next_IsU32 in
    let (same, next) = cache-find_first (record w { window = window }) in (o', rw same e, le, next)

pub process_receiving_next-Leaves :
    (w : SendingWorker) (una : ℕ)
    → IsOrdered w
    → Leaves w (from una (numbers w.window.cache)) (process_receiving_next w una)
unfolding process_receiving_next SendingWindow.clear
process_receiving_next-Leaves w una o =
    refound w (SendingWindow.clear w.window una) (from una (numbers w.window.cache)) o
      (numbers-drop_below una w.first_unacknowledged w.next_number w.window.cache o.ascends)
      (from-Ascends una w.first_unacknowledged w.next_number (numbers w.window.cache) o.ascends)

-- Less than half of the numbers are between the first that waits and the next.
abbrev pub IsNarrow : SendingWorker → Type 0
IsNarrow w = w.next_number - w.first_unacknowledged ≤ 2 ^ 31

abbrev outside : SendingWorker → ℕ → Bool
outside w k =
    ltb 0x7fff_ffff (sub32 k w.first_unacknowledged) || ltb (sub32 k w.next_number) 0x7fff_ffff

-- The guard of `processAck` turns away no number that waits.
outside-has :
    (w : SendingWorker) (k : ℕ)
    → IsOrdered w
    → IsNarrow w
    → outside w k ≡ true
    → has k (numbers w.window.cache) ≡ false
outside-has w k o n e = elim (Bool-cases (has k (numbers w.window.cache))) [
  | inl there ↦
      let (lo, hi) =
        has-range k w.first_unacknowledged w.next_number (numbers w.window.cache) o.ascends there in
      let u = o.next_IsU32 in absurd (ground arith)
  | inr gone ↦ gone
]

pub process_ack-Leaves :
    (w : SendingWorker) (k : ℕ)
    → IsOrdered w
    → IsNarrow w
    → Leaves w (without k (numbers w.window.cache)) (process_ack w k).0
      × ((process_ack w k).1 ≡ has k (numbers w.window.cache))
unfolding process_ack
process_ack-Leaves w k o n = elim (Bool-cases (outside w k)) [
  | inl out ↦
      let gone = outside-has w k o n out in
      rw out ((o, sym (without_self k _ gone), omega arith, refl), sym gone)
  | inr inside ↦
      let (e, r) = numbers-remove w.window k w.first_unacknowledged w.next_number o.ascends in
      let a =
        without-Ascends k w.first_unacknowledged w.next_number (numbers w.window.cache) o.ascends in
      elim (Bool-cases (SendingWindow.remove w.window k).1) [
        | inl removed ↦
            rw inside
              (rw removed (refound w (SendingWindow.remove w.window k).0 _ o e a, sym removed ∙ r))
        | inr kept ↦ rw inside (
            rw kept (
              (record { ascends = rw e a; next_IsU32 = o.next_IsU32 }, e, omega arith, refl),
              sym kept ∙ r,
            ))
      ]
]

Leaves-trans :
    (w w' w'' : SendingWorker) (ns ms : List ℕ)
    → Leaves w ns w'
    → Leaves w' ms w''
    → Leaves w ms w''
Leaves-trans w w' w'' ns ms (o, e, l, n) (o', e', l', n') = (o', e', omega arith, n' ∙ n)

pub process_acks-Leaves :
    (ks : List ℕ) (w : SendingWorker) (m : ℕ) (b : Bool)
    → IsOrdered w
    → IsNarrow w
    → Leaves w (without_all ks (numbers w.window.cache)) (process_acks ks w m b).0
unfolding process_acks
process_acks-Leaves [] w m b o n = (o, refl, omega arith, refl)
process_acks-Leaves (k ∷ ks) w m b o n =
    let l = (process_ack-Leaves w k o n).0 in
    let w' = (process_ack w k).0 in
    let narrow : IsNarrow w' = omega (arith, l.3) in
    let rest =
      process_acks-Leaves ks w' (if ltb m k then k else m)
        (if ltb m k then (process_ack w k).1 else b) l.0 narrow in
    Leaves-trans w w' _ _ _ l (rw l.1 at rest)

fast_ack-number :
    (k rto : ℕ) (s : DataSegment) (u : Unit {0}) → (fast_ack k rto s u).1.number ≡ s.number
unfolding fast_ack
fast_ack-number k rto s u = ground arith

handle_fast_ack-Leaves :
    (w : SendingWorker) (k rto : ℕ) (ns : List ℕ) (v : SendingWorker)
    → Leaves v ns w
    → Leaves v ns (record w { window = SendingWindow.handle_fast_ack w.window k rto })
unfolding SendingWindow.handle_fast_ack
handle_fast_ack-Leaves w k rto ns v (o, e, l, n) =
    let same = numbers-visit (fast_ack k rto) (fast_ack-number k rto) w.window.cache tt in
    (record { ascends = rw same o.ascends; next_IsU32 = o.next_IsU32 }, same ∙ e, l, n)

process_number_list-Leaves :
    (w : SendingWorker) (current : ℕ) (seg : AckSegment) (rto : ℕ) (info : RoundTripInfo)
    → IsOrdered w
    → IsNarrow w
    → Leaves w
        (without_all seg.number_list (numbers w.window.cache))
        (process_number_list w current seg rto info).0
unfolding process_number_list
process_number_list-Leaves w current seg rto info o n =
    let (w', max_ack, removed) = process_acks seg.number_list w 0 false in
    let l = process_acks-Leaves seg.number_list w 0 false o n in
    elim (Bool-cases removed) [
      | inl yes_removed ↦ rw yes_removed (handle_fast_ack-Leaves w' max_ack rto _ w l)
      | inr not_removed ↦ rw not_removed l
    ]

take_over-Leaves :
    (w : SendingWorker) (seg : AckSegment)
    → IsOrdered w
    → Leaves w (from seg.receiving_next (numbers w.window.cache)) (take_over w seg)
unfolding take_over
take_over-Leaves w seg o =
    process_receiving_next-Leaves
      (record w { remote_next_number = max w.remote_next_number seg.receiving_window })
      seg.receiving_next (record { ascends = o.ascends; next_IsU32 = o.next_IsU32 })

-- An acknowledgement that reaches an open worker takes out of the window exactly the numbers below
-- the receiver's next number and those that it lists, whatever their order and however often they are
-- listed; the rest keep their order, the next number stays, and the first unacknowledged number does
-- not go back. Assumed is that the numbers grow along the window, below the next number and without a
-- wrap, and that the window spans at most half of them.
pub process_segment-Leaves :
    (w : SendingWorker) (current : ℕ) (seg : AckSegment) (rto : ℕ) (info : RoundTripInfo)
    → IsOrdered w
    → IsNarrow w
    → w.closed ≡ false
    → Leaves w
        (without_all seg.number_list (from seg.receiving_next (numbers w.window.cache)))
        (process_segment w current seg rto info).0
unfolding process_segment Segment.is_empty
process_segment-Leaves w current seg rto info o n c =
    let l = take_over-Leaves w seg o in
    let narrow : IsNarrow (take_over w seg) = omega (arith, l.3) in
    elim (Bool-cases (length seg.number_list == 0)) [
      | inl empty ↦
          let none_listed = eq_nil seg.number_list (ground arith) in
          simp (c, empty)
            (subst
              (λ q.
                Leaves w (without_all q (from seg.receiving_next (numbers w.window.cache)))
                  (take_over w seg))
              (sym none_listed) l)
      | inr more ↦
          let rest = process_number_list-Leaves (take_over w seg) current seg rto info l.0 narrow in
          simp (c, more) (Leaves-trans w (take_over w seg) _ _ _ l (rw l.1 at rest))
    ]
