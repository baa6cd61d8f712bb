-- ===== src/Kcp/Sending/Congestion.antt =====
-- The other methods of the sending worker: what is pushed, what a flush sends, and the bounds of the
-- congestion window.
use dpi_warrior_native_xray.Base.{
  ℕ, zero, suc, ◌+◌, ◌-◌, ◌*◌, ◌/◌, ◌%◌, ◌^◌, ◌≤◌, ◌<◌, min, max, ◌≡◌, refl, sym, ap, ◌∙◌, ◌⊎◌, inl,
  inr, true, false, not, ◌||◌, Option, List, [], ◌∷◌, ◌++◌, append-nil, append_assoc, arith, ltb,
  ◌==◌, if◌then◌else◌, Bool-cases, length, eq_nil, add32,
}
use dpi_warrior_native_xray.Kcp.Segment.{DataSegment, new_data_segment}
use dpi_warrior_native_xray.Kcp.SendingWindow.{SendingWindow, FlushState, is_waiting, send, visit}
use dpi_warrior_native_xray.Kcp.SendingWindow
use dpi_warrior_native_xray.Kcp.Sending.{SendingWorker, Link, push, write, on_packet_loss}
use dpi_warrior_native_xray.Kcp.Config.Sizes.{max_in_flight}
use dpi_warrior_native_xray.Kcp.Sending.Order.{numbers, numbers-append, Ascends-snoc, IsOrdered}

-- An accepted buffer gets the next number, behind all that wait, and the order is kept while the
-- numbers do not wrap; a refused one changes nothing, and is refused exactly if the worker is closed
-- or the window holds more than its size.
pub push-cases :
    (w : SendingWorker) (b : Option (List ℕ))
    → IsOrdered w
    → w.next_number + 1 < 2 ^ 32
    → length w.window.cache < 2 ^ 32
    → ((w.closed ≡ false)
        × (length w.window.cache ≤ w.window_size)
        × ((push w b).1 ≡ true)
        × (numbers (push w b).0.window.cache ≡ numbers w.window.cache ++ (w.next_number ∷ []))
        × ((push w b).0.next_number ≡ w.next_number + 1)
        × IsOrdered (push w b).0)
      ⊎ (((w.closed ≡ true) ⊎ (w.window_size < length w.window.cache)) × (push w b ≡ (w, false)))
unfolding push SendingWindow.push SendingWindow.window_len
push-cases w b o n l = elim (Bool-cases w.closed) [
  | inl shut ↦ rw shut (inr (inl refl, refl))
  | inr open_ ↦ elim (Bool-cases (ltb w.window_size (length w.window.cache % 2 ^ 32))) [
    | inl full ↦ rw (open_, full) (inr (inr (ground arith), refl))
    | inr room ↦
        let next : add32 w.next_number 1 ≡ suc w.next_number = omega arith in
        let e =
          numbers-append w.window.cache
            (record new_data_segment { number = w.next_number; payload = b } ∷ []) in
        rw (open_, room)
          (inl (
            refl,
            ground arith,
            refl,
            e,
            next ∙ omega arith,
            record {
              ascends =
                  rw (next, e)
                    (Ascends-snoc w.first_unacknowledged w.next_number (numbers w.window.cache)
                      o.ascends);
              next_IsU32 = omega arith;
            },
          ))
  ]
]

number-send :
    (w : SendingWorker) (link : Link) (current rto most : ℕ) (s : DataSegment) (st : FlushState)
    → (send (write w link) current rto most s st).1.number ≡ s.number
unfolding send write
number-send w link current rto most s st = ground arith

-- What a flush changes in a segment that it writes.
abbrev pub transmitted : (DataSegment → DataSegment) → ℕ → ℕ → DataSegment → DataSegment
transmitted write current rto s =
    write
      (record s { timeout = add32 current rto; timestamp = current; transmit = add32 s.transmit 1 })

-- The first `n` segments whose time has come, as they are written, and the window after that.
abbrev pub due : (DataSegment → DataSegment) → ℕ → ℕ → ℕ → List DataSegment → List DataSegment
due write current rto zero ss = []
due write current rto (suc n) [] = []
due write current rto (suc n) (s ∷ ss) =
    if is_waiting current s
    then due write current rto (suc n) ss
    else transmitted write current rto s ∷ due write current rto n ss

abbrev pub after : (DataSegment → DataSegment) → ℕ → ℕ → ℕ → List DataSegment → List DataSegment
after write current rto zero ss = ss
after write current rto (suc n) [] = []
after write current rto (suc n) (s ∷ ss) =
    if is_waiting current s
    then s ∷ after write current rto (suc n) ss
    else transmitted write current rto s ∷ after write current rto n ss

abbrev Visited :
    (DataSegment → DataSegment)
    → ℕ
    → ℕ
    → ℕ
    → List DataSegment
    → FlushState
    → List DataSegment × FlushState
    → Type 0
Visited write current rto n ss st (ss', st') =
    (ss' ≡ after write current rto n ss) × (st'.written ≡ st.written ++ due write current rto n ss)

-- The visitor's variables after a segment was written.
abbrev sent_state : (DataSegment → DataSegment) → ℕ → ℕ → DataSegment → FlushState → FlushState
sent_state write current rto s st = record {
  lost = if s.transmit == 0 then st.lost else add32 st.lost 1;
  in_flight_size = add32 st.in_flight_size 1;
  total = if s.transmit == 0 then add32 st.total 1 else st.total;
  written = st.written ++ (transmitted write current rto s ∷ []);
}

send-due :
    (write : DataSegment → DataSegment) (current rto most : ℕ) (s : DataSegment) (st : FlushState)
    → is_waiting current s ≡ false
    → send write current rto most s st ≡ (
      ltb (add32 st.in_flight_size 1) most,
      transmitted write current rto s,
      sent_state write current rto s st,
    )
unfolding send
send-due write current rto most s st go = rw go

send-waiting :
    (write : DataSegment → DataSegment) (current rto most : ℕ) (s : DataSegment) (st : FlushState)
    → is_waiting current s ≡ true
    → send write current rto most s st ≡ (true, s, st)
unfolding send
send-waiting write current rto most s st wait = rw wait

after-nil :
    (write : DataSegment → DataSegment) (current rto n : ℕ) → after write current rto n [] ≡ []
after-nil write current rto zero = refl
after-nil write current rto (suc n) = refl

due-nil : (write : DataSegment → DataSegment) (current rto n : ℕ) → due write current rto n [] ≡ []
due-nil write current rto zero = refl
due-nil write current rto (suc n) = refl

-- With `n + 1` segments to go the visitor takes the first `n + 1` that are due.
visit-send :
    (write : DataSegment → DataSegment) (current rto most n : ℕ) (ss : List DataSegment)
    (st : FlushState)
    → most < 2 ^ 32
    → st.in_flight_size + suc n ≡ max 1 most
    → Visited write current rto (suc n) ss st (visit (send write current rto most) ss st)
unfolding visit
visit-send write current rto most n [] st h e = (refl, sym (append-nil _))
visit-send write current rto most zero (s ∷ ss) st h e = elim (Bool-cases (is_waiting current s)) [
  | inl wait ↦
      let (a, b) = visit-send write current rto most zero ss st h e in
      rw (send-waiting write current rto most s st wait) (rw wait (ap (◌∷◌ s) a, b))
  | inr go ↦
      let stop : ltb (add32 st.in_flight_size 1) most ≡ false = ground arith in
      rw (send-due write current rto most s st go) (rw (stop, go) (refl, refl))
]
visit-send write current rto most (suc n) (s ∷ ss) st h e =
    elim (Bool-cases (is_waiting current s)) [
      | inl wait ↦
          let (a, b) = visit-send write current rto most (suc n) ss st h e in
          rw (send-waiting write current rto most s st wait) (rw wait (ap (◌∷◌ s) a, b))
      | inr go ↦
          let more : ltb (add32 st.in_flight_size 1) most ≡ true = ground arith in
          let t = transmitted write current rto s in
          let (a, b) =
            visit-send write current rto most n ss (sent_state write current rto s st) h
              (ground arith) in
          rw (send-due write current rto most s st go)
            (rw (more, go) (ap (◌∷◌ t) a, b ∙ append_assoc st.written (t ∷ []) _))
    ]

-- A flush of a window with room for `most` segments writes the first `most` whose time has come, one
-- at least, in order, with the current time, the new timeout and one more transmission; the window
-- holds these in place of the old ones, and every other segment as it was.
pub flush-due :
    (write : DataSegment → DataSegment) (sw : SendingWindow) (current rto most : ℕ)
    → most < 2 ^ 32
    → ((SendingWindow.flush write sw current rto most).0.cache
        ≡ after write current rto (max 1 most) sw.cache)
      × ((SendingWindow.flush write sw current rto most).1
          ≡ due write current rto (max 1 most) sw.cache)
unfolding SendingWindow.flush
flush-due write sw current rto most h = elim (Bool-cases (length sw.cache == 0)) [
  | inl empty ↦
      let none_left = eq_nil sw.cache (ground arith) in
      rw empty (
        rw none_left (
          sym (after-nil write current rto (max 1 most)),
          sym (due-nil write current rto (max 1 most)),
        ))
  | inr more ↦
      let start : FlushState = record {
        lost = 0;
        in_flight_size = 0;
        total = sw.total_in_flight_size;
        written = [];
      } in
      let k = max 1 most - 1 in
      let e : max 1 most ≡ suc k = omega arith in
      let (a, b) = visit-send write current rto most k sw.cache start h (omega arith) in
      rw (more, e) (a, b)
]

-- A report of losses leaves the congestion window between 16 and twice the configured size, at three
-- quarters of what it was at least, and at five quarters of it or at 16 at most, whichever is more. From
-- 15 percent on it comes to three quarters or 16 at most, and up to 5 percent to five quarters at least,
-- or to twice the configured size. Without congestion control, or before a timeout is known, it changes
-- nothing. Assumed is that the configured size is 8 at least and `max_in_flight` at most, and that the
-- window was twice the configured size at most.
pub on_packet_loss-bounds :
    (w : SendingWorker) (link : Link) (rate : ℕ)
    → 8 ≤ link.in_flight_size
    → link.in_flight_size ≤ max_in_flight
    → w.control_window ≤ 2 * link.in_flight_size
    → ((link.congestion ≡ true)
        × (0 < link.rto)
        × (16 ≤ (on_packet_loss w link rate).control_window)
        × ((on_packet_loss w link rate).control_window ≤ 2 * link.in_flight_size)
        × ((on_packet_loss w link rate).control_window
            ≤ max 16 (w.control_window + w.control_window / 4))
        × (3 * w.control_window / 4 ≤ (on_packet_loss w link rate).control_window)
        × (15 ≤ rate
            → (on_packet_loss w link rate).control_window ≤ max 16 (3 * w.control_window / 4))
        × (rate ≤ 5
            → min (2 * link.in_flight_size) (w.control_window + w.control_window / 4)
              ≤ (on_packet_loss w link rate).control_window))
      ⊎ (((link.congestion ≡ false) ⊎ (link.rto ≡ 0)) × (on_packet_loss w link rate ≡ w))
unfolding on_packet_loss
on_packet_loss-bounds w link rate lo hi c =
    elim (Bool-cases (not link.congestion || link.rto == 0)) [
      | inl off ↦ inr (ground arith, rw off)
      | inr on ↦ inl (
        ground arith,
        ground arith,
        rw on (ground arith),
        rw on (ground arith),
        rw on (ground arith),
        rw on (ground arith),
        rw on (λ r. ground arith),
        rw on (λ r. ground arith),
      )
    ]
