-- ===== src/Kcp/Receiving/Delivery.antt =====
-- What a reader gets of a stream whose segments arrive in any order, more than once or not at all.
use dpi_warrior_native_xray.Base.{
  ℕ, ◌%◌, ◌^◌, ◌≡◌, refl, sym, ap, ◌∙◌, inl, inr, Option, none, some, List, [], ◌∷◌, ◌++◌,
  append-nil, append_assoc, arith, leb, Bool-cases, Option-cases, length, All, sub32, IsU32,
}
use dpi_warrior_native_xray.Kcp.Segment.{DataSegment, bytes}
use dpi_warrior_native_xray.Kcp.Receiving.{
  ReceivingWindow, ReceivingWorker, lookup, window_set, new_receiving_worker, process_segment,
  process_sending_next, drain, read_multi_buffer, is_empty_multi, split_bytes, read,
}
use dpi_warrior_native_xray.Kcp.Receiving.Split.{flatten, split_bytes_lem, is_empty_multi_lem}
use dpi_warrior_native_xray.Kcp.Receiving.Drain.{IsEntry, stream, drain_lem}

window_set_lem :
    (f : ℕ → List ℕ) (size next id : ℕ) (w : ReceivingWindow) (s : DataSegment)
    → IsEntry f size next (id, s)
    → All (IsEntry f size next) w
    → All (IsEntry f size next) (window_set w id s).0
unfolding window_set
window_set_lem f size next id w s h a = elim (Option-cases (lookup id w)) [
  | inl e ↦ rw (e, window_set) (h, a)
  | inr (t, e) ↦ rw (e, window_set) a
]

-- What a connection does with its receiving worker, in any order.
pub data Event : Type 0 where
  arrives : DataSegment → Event
  acknowledged : ℕ → Event
  reads_multi : Event
  reads : ℕ → Event

-- The bytes that the reader gets of an event.
unfoldable pub step : ReceivingWorker → Event → ReceivingWorker × List ℕ
step w (arrives s) = (process_segment w s, [])
step w (acknowledged number) = (process_sending_next w number, [])
step w reads_multi = let (w', mb) = read_multi_buffer w in (w', flatten mb)
step w (reads n) = read w n

unfoldable pub run : ReceivingWorker → List Event → ReceivingWorker × List ℕ
run w [] = (w, [])
run w (e ∷ es) = let (w', out) = step w e in let (w'', more) = run w' es in (w'', out ++ more)

-- A segment that arrives is one that the sender sent.
abbrev pub IsGenuine : (ℕ → List ℕ) → Event → Type 0
IsGenuine f (arrives s) = (bytes s.payload ≡ f s.number) × IsU32 s.number
IsGenuine f _ = Unit {0}

-- The bytes that a short read left behind.
abbrev pub kept : Option (List (List ℕ)) → List ℕ
kept none = []
kept (some mb) = flatten mb

-- After `m` pieces of the stream were taken out of the window.
abbrev pub HasRead : (ℕ → List ℕ) → ℕ → ReceivingWorker → List ℕ → Type 0
HasRead f m w out =
    (w.next_number ≡ m % 2 ^ 32)
    × (out ++ kept w.left_over ≡ stream f m)
    × All (IsEntry f w.window_size w.next_number) w.window

process_segment-HasRead :
    (f : ℕ → List ℕ) (m : ℕ) (w : ReceivingWorker) (out : List ℕ) (s : DataSegment)
    → IsGenuine f (arrives s)
    → HasRead f m w out
    → HasRead f m (process_segment w s) out
unfolding process_segment
process_segment-HasRead f m w out s g (n, o, a) =
    elim (Bool-cases (leb w.window_size (sub32 s.number w.next_number))) [
      | inl far ↦ rw far (n, o, a)
      | inr near ↦ rw near (
        n,
        o,
        window_set_lem f w.window_size w.next_number s.number w.window s (g.0, g.1, ground arith) a,
      )
    ]

read_multi_buffer-HasRead :
    (f : ℕ → List ℕ) (m : ℕ) (w : ReceivingWorker) (out : List ℕ)
    → HasRead f m w out
    → (m' : ℕ) × HasRead f m' (read_multi_buffer w).0 (out ++ flatten (read_multi_buffer w).1)
      × ((read_multi_buffer w).0.left_over ≡ none)
unfolding read_multi_buffer
read_multi_buffer-HasRead f m w out (n, o, a) = elim (Option-cases w.left_over) [
  | inl e ↦
      let (m', le, e', str, a') =
        drain_lem f w.window_size (length w.window) w.window m w.next_number n a in
      let all_read : out ++ [] ≡ stream f m = rw e at o in
      let D = flatten (drain (length w.window) w.window w.next_number).2 in
      rw (e, read_multi_buffer)
        (
          m',
          (e', rw e (append-nil _ ∙ ap (λ q. q ++ D) (sym (append-nil out) ∙ all_read) ∙ str), a'),
          e,
        )
  | inr (mb, e) ↦
      let rest_read : out ++ flatten mb ≡ stream f m = rw e at o in
      rw (e, read_multi_buffer) (m, (n, append-nil _ ∙ rest_read, a), refl)
]

read-HasRead :
    (f : ℕ → List ℕ) (m : ℕ) (w : ReceivingWorker) (out : List ℕ) (n : ℕ)
    → HasRead f m w out
    → (m' : ℕ) × HasRead f m' (read w n).0 (out ++ (read w n).1)
unfolding read
read-HasRead f m w out n h =
    let (m', (e, o, a), l) = read_multi_buffer-HasRead f m w out h in
    let mb = (read_multi_buffer w).1 in
    let cut = (split_bytes_lem mb n).0 in
    let whole : out ++ flatten mb ≡ stream f m' = sym (append-nil _) ∙ rw l at o in
    elim (Bool-cases (is_empty_multi mb)) [
      | inl nothing ↦ rw nothing (
        m',
        (e, rw l (append-nil _ ∙ ap (◌++◌ out) (sym (is_empty_multi_lem mb nothing)) ∙ whole), a),
      )
      | inr some_bytes ↦ elim (Bool-cases (is_empty_multi (split_bytes mb n).0)) [
        | inl all ↦
            let taken : (split_bytes mb n).1 ≡ flatten mb =
              sym (append-nil _) ∙ rw (is_empty_multi_lem _ all) at cut in
            rw (some_bytes, all) (m', (e, rw l (append-nil _ ∙ ap (◌++◌ out) taken ∙ whole), a))
        | inr part ↦
            rw (some_bytes, part) (m', (e, append_assoc out _ _ ∙ ap (◌++◌ out) cut ∙ whole, a))
      ]
    ]

step-HasRead :
    (f : ℕ → List ℕ) (m : ℕ) (w : ReceivingWorker) (out : List ℕ) (e : Event)
    → IsGenuine f e
    → HasRead f m w out
    → (m' : ℕ) × HasRead f m' (step w e).0 (out ++ (step w e).1)
unfolding step
step-HasRead f m w out (arrives s) g h =
    rw (append-nil out) (m, process_segment-HasRead f m w out s g h)
step-HasRead f m w out (acknowledged number) g h =
    rw (append-nil out) (m, unfold process_sending_next in h)
step-HasRead f m w out reads_multi g h =
    let (m', h', l) = read_multi_buffer-HasRead f m w out h in (m', h')
step-HasRead f m w out (reads n) g h = read-HasRead f m w out n h

run-HasRead :
    (f : ℕ → List ℕ) (m : ℕ) (w : ReceivingWorker) (out : List ℕ) (es : List Event)
    → All (IsGenuine f) es
    → HasRead f m w out
    → (m' : ℕ) × HasRead f m' (run w es).0 (out ++ (run w es).1)
unfolding run
run-HasRead f m w out [] g h = rw (append-nil out) (m, h)
run-HasRead f m w out (e ∷ es) g h =
    let (m1, h1) = step-HasRead f m w out e g.0 h in
    let (m2, h2) = run-HasRead f m1 (step w e).0 (out ++ (step w e).1) es g.1 h1 in
    rw (← append_assoc out (step w e).1 (run (step w e).0 es).1) (m2, h2)

-- A reader gets the sender's stream, each piece once and in order, with nothing added: after any
-- events from a fresh worker, with whole and with partial reads, what was read and what a short read
-- left behind are the first pieces of the stream, as many as the next expected number tells modulo
-- 2 ^ 32; and every segment that waits belongs to the window in front of that number. Assumed is that
-- each segment that arrives carries what the sender put under its number.
pub run-stream :
    (f : ℕ → List ℕ) (size : ℕ) (es : List Event)
    → All (IsGenuine f) es
    → (m : ℕ) × HasRead f m
        (run (new_receiving_worker size) es).0
        (run (new_receiving_worker size) es).1
unfolding new_receiving_worker
run-stream f size es g = run-HasRead f 0 (new_receiving_worker size) [] es g (omega arith, refl, tt)
