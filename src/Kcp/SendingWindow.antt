-- ===== src/Kcp/SendingWindow.antt =====
-- sending.go, `SendingWindow`: the segments that were pushed and are not yet acknowledged.
-- The linked list is a list from its front to its back; a method that changes segments through their
-- pointers returns the changed list. The writer of the window is the argument `write` of `flush`: it
-- fills in a segment's header, in place, and what it wrote is returned in order.
use dpi_warrior_native_xray.Base.{
  ℕ, ◌-◌, ◌/◌, ◌%◌, ◌^◌, Bool, true, false, not, ◌&&◌, ◌||◌, Option, none, some, List, [], ◌∷◌,
  ◌++◌, ltb, leb, ◌==◌, if◌then◌else◌, length, add32, sub32, mul32, ◌>>=◌,
}
use dpi_warrior_native_xray.Kcp.Segment.{DataSegment, new_data_segment}

pub record SendingWindow : Type 0 where
  pub cache : List DataSegment
  pub total_in_flight_size : ℕ

unfoldable pub new_sending_window : SendingWindow
new_sending_window = record { cache = []; total_in_flight_size = 0 }

unfoldable pub release : SendingWindow → SendingWindow
release sw = record sw { cache = [] }

unfoldable pub window_len : SendingWindow → ℕ
window_len sw = length sw.cache % 2 ^ 32

unfoldable pub is_empty : SendingWindow → Bool
is_empty sw = length sw.cache == 0

unfoldable pub push : SendingWindow → ℕ → Option (List ℕ) → SendingWindow
push sw number b = record sw {
  cache = sw.cache ++ (record new_data_segment { number = number; payload = b } ∷ []);
}

-- The number of the segment in front; the source panics on an empty window.
unfoldable pub first_number : List DataSegment → Option ℕ
first_number [] = none
first_number (s ∷ ss) = some s.number

-- Takes segments off the front while their number is below `una`.
unfoldable pub drop_below : ℕ → List DataSegment → List DataSegment
drop_below una [] = []
drop_below una (s ∷ ss) = let rest = drop_below una ss in if leb una s.number then s ∷ ss else rest

unfoldable pub clear : SendingWindow → ℕ → SendingWindow
clear sw una = record sw { cache = drop_below una sw.cache }

-- `Visit`: the visitor returns the segment as it leaves it, and whether to go on. It threads what it
-- closes over.
unfoldable pub visit {ℓ} :
    {S : Type ℓ}
    → (DataSegment → S → Bool × DataSegment × S)
    → List DataSegment
    → S
    → List DataSegment × S
visit visitor [] st = ([], st)
visit visitor (s ∷ ss) st =
    let (more, s', st') = visitor s st in
    let (ss', st'') = visit visitor ss st' in if more then (s' ∷ ss', st'') else (s' ∷ ss, st')

-- The visitor of `HandleFastAck`.
unfoldable pub fast_ack : ℕ → ℕ → DataSegment → Unit {0} → Bool × DataSegment × Unit {0}
fast_ack number rto s st =
    if number == s.number || ltb 0x7fff_ffff (sub32 number s.number)
    then (false, s, st)
    else if ltb 0 s.transmit && ltb (rto / 3) s.timeout
    then (true, record s { timeout = s.timeout - rto / 3 }, st)
    else (true, s, st)

unfoldable pub handle_fast_ack : SendingWindow → ℕ → ℕ → SendingWindow
unfolding visit fast_ack
handle_fast_ack sw number rto = record sw { cache = (visit (fast_ack number rto) sw.cache tt).0 }

-- The variables that the visitor of `Flush` closes over, and what it wrote.
pub record FlushState : Type 0 where
  pub lost : ℕ
  pub in_flight_size : ℕ
  pub total : ℕ
  pub written : List DataSegment

-- A segment whose time has not come is passed over.
abbrev pub is_waiting : ℕ → DataSegment → Bool
is_waiting current s = leb 0x7fff_ffff (sub32 current s.timeout)

-- The visitor of `Flush`.
unfoldable pub send :
    (DataSegment → DataSegment)
    → ℕ
    → ℕ
    → ℕ
    → DataSegment
    → FlushState
    → Bool × DataSegment × FlushState
send write current rto max_in_flight s st =
    if is_waiting current s
    then (true, s, st)
    else let first = s.transmit == 0 in
      let s' = write (record s {
        timeout = add32 current rto;
        timestamp = current;
        transmit = add32 s.transmit 1;
      }) in
      let st' : FlushState = record {
        lost = if first then st.lost else add32 st.lost 1;
        in_flight_size = add32 st.in_flight_size 1;
        total = if first then add32 st.total 1 else st.total;
        written = st.written ++ (s' ∷ []);
      } in
      (ltb st'.in_flight_size max_in_flight, s', st')

-- The window, the segments written, and the rate that `onPacketLoss` is called with, if it is.
unfoldable pub flush :
    (DataSegment → DataSegment)
    → SendingWindow
    → ℕ
    → ℕ
    → ℕ
    → SendingWindow × List DataSegment × Option ℕ
unfolding is_empty
flush write sw current rto max_in_flight =
    if is_empty sw
    then (sw, [], none)
    else let start : FlushState = record {
      lost = 0;
      in_flight_size = 0;
      total = sw.total_in_flight_size;
      written = [];
    } in
      let (cache, st) = visit (send write current rto max_in_flight) sw.cache start in
      (
        record { cache = cache; total_in_flight_size = st.total },
        st.written,
        if ltb 0 st.in_flight_size && not (st.total == 0)
            then some (mul32 st.lost 100 / st.total)
            else none,
      )

-- The loop of `Remove`: the list without the segment, if it is found before a larger number.
unfoldable pub remove_number : ℕ → List DataSegment → Option (List DataSegment)
remove_number number [] = none
remove_number number (s ∷ ss) =
    let rest = remove_number number ss >>= λ r. some (s ∷ r) in
    if ltb number s.number then none else if s.number == number then some ss else rest

unfoldable pub remove : SendingWindow → ℕ → SendingWindow × Bool
unfolding remove_number
remove sw number = elim (remove_number number sw.cache) [
  | none ↦ (sw, false)
  | some rest ↦ (record { cache = rest; total_in_flight_size = sw.total_in_flight_size - 1 }, true)
]
