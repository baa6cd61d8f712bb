-- ===== src/Kcp/Receiving.antt =====
-- receiving.go: the receiving window and the receiving worker.
-- The locks are not modelled: each method is one step. A map is an association list, and the buffers
-- of a MultiBuffer are the bytes that they hold, a nil buffer being one that holds none.
pub mod Split
pub mod Drain
pub mod Delivery
pub mod Window
use dpi_warrior_native_xray.Base.{
  ℕ, zero, suc, ◌-◌, Bool, true, false, Option, none, some, List, [], ◌∷◌, ◌++◌, map, ltb, leb,
  ◌==◌, if◌then◌else◌, length, take, drop, add32, sub32,
}
use dpi_warrior_native_xray.Kcp.Segment.{
  DataSegment, AckSegment, bytes, detach, segment_option_close,
}
use dpi_warrior_native_xray.Kcp.AckList.{AckList, new_ack_list, add, clear, flush}
use dpi_warrior_native_xray.Kcp.State.{State, same, ready_to_close}

-- `ReceivingWindow.cache`.
abbrev pub ReceivingWindow : Type 0
ReceivingWindow = List (ℕ × DataSegment)

-- The map's index expression, insertion of a new key, and `delete`.
unfoldable pub lookup : ℕ → ReceivingWindow → Option DataSegment
lookup id [] = none
lookup id ((k, s) ∷ w) = if k == id then some s else lookup id w

unfoldable pub delete : ℕ → ReceivingWindow → ReceivingWindow
delete id [] = []
delete id ((k, s) ∷ w) = let rest = delete id w in if k == id then rest else (k, s) ∷ rest

unfoldable pub window_set : ReceivingWindow → ℕ → DataSegment → ReceivingWindow × Bool
window_set w id value = elim (lookup id w) [
  | some old ↦ (w, false)
  | none ↦ ((id, value) ∷ w, true)
]

unfoldable pub window_has : ReceivingWindow → ℕ → Bool
window_has w id = elim (lookup id w) [ some s ↦ true | none ↦ false ]

unfoldable pub window_remove : ReceivingWindow → ℕ → ReceivingWindow × Option DataSegment
window_remove w id = elim (lookup id w) [ none ↦ (w, none) | some s ↦ (delete id w, some s) ]

pub record ReceivingWorker : Type 0 where
  pub left_over : Option (List (List ℕ))
  pub window : ReceivingWindow
  pub acklist : AckList
  pub next_number : ℕ
  pub window_size : ℕ

-- `kcp.Config.GetReceivingInFlightSize()` is the argument.
unfoldable pub new_receiving_worker : ℕ → ReceivingWorker
unfolding new_ack_list
new_receiving_worker size = record {
  left_over = none;
  window = [];
  acklist = new_ack_list;
  next_number = 0;
  window_size = size;
}

unfoldable pub release : ReceivingWorker → ReceivingWorker
release w = record w { left_over = none }

unfoldable pub process_sending_next : ReceivingWorker → ℕ → ReceivingWorker
process_sending_next w number = record w { acklist = clear w.acklist number }

unfoldable pub process_segment : ReceivingWorker → DataSegment → ReceivingWorker
process_segment w seg =
    let idx = sub32 seg.number w.next_number in
    if leb w.window_size idx then w else record w {
      acklist = add (clear w.acklist seg.sending_next) seg.number seg.timestamp;
      window = (window_set w.window seg.number seg).0;
    }

-- The loop of `ReadMultiBuffer`. Each round takes a segment out of the window, so as many rounds as
-- there are segments are enough.
unfoldable pub drain : ℕ → ReceivingWindow → ℕ → ReceivingWindow × ℕ × List (List ℕ)
unfolding lookup delete window_remove
drain zero w next = (w, next, [])
drain (suc fuel) w next = elim (window_remove w next).1 [
  | none ↦ (w, next, [])
  | some seg ↦
      let (w', next', mb) = drain fuel (window_remove w next).0 (add32 next 1) in
      (w', next', bytes (detach seg).1 ∷ mb)
]

unfoldable pub read_multi_buffer : ReceivingWorker → ReceivingWorker × List (List ℕ)
unfolding drain
read_multi_buffer w = elim w.left_over [
  | some mb ↦ (record w { left_over = none }, mb)
  | none ↦
      let (window, next, mb) = drain (length w.window) w.window w.next_number in
      (record w { window = window; next_number = next }, mb)
]

-- `MultiBuffer.IsEmpty`.
unfoldable pub is_empty_multi : List (List ℕ) → Bool
is_empty_multi [] = true
is_empty_multi (b ∷ mb) = if length b == 0 then is_empty_multi mb else false

-- `buf.SplitBytes` into a slice of `n` bytes: what is left over, and what was copied.
unfoldable pub split_bytes : List (List ℕ) → ℕ → List (List ℕ) × List ℕ
split_bytes [] n = ([], [])
split_bytes (b ∷ mb) n =
    let (rest, out) = split_bytes mb (n - length b) in
    if leb (length b) n then (rest, b ++ out) else (drop n b ∷ mb, take n b)

-- `Read(b)` with a slice of `n` bytes; the result stands for the bytes copied and for their count.
unfoldable pub read : ReceivingWorker → ℕ → ReceivingWorker × List ℕ
unfolding read_multi_buffer is_empty_multi split_bytes
read w n =
    let (w', mb) = read_multi_buffer w in
    if is_empty_multi mb
    then (w', [])
    else let (rest, out) = split_bytes mb n in
      if is_empty_multi rest then (w', out) else (record w' { left_over = some rest }, out)

unfoldable pub is_data_available : ReceivingWorker → Bool
is_data_available w = window_has w.window w.next_number

-- `Write` fills in the header of an acknowledgement; `conv` and `state` are the connection's.
unfoldable pub write : ReceivingWorker → ℕ → State → AckSegment → AckSegment
write w conv state seg = record seg {
  conv = conv;
  receiving_next = w.next_number;
  receiving_window = add32 w.next_number w.window_size;
  option = if same state ready_to_close then segment_option_close else 0;
}

-- The acknowledgement list's flush at the current timeout, each segment with its header.
unfoldable pub flush_worker :
    ReceivingWorker → ℕ → ℕ → ℕ → State → ReceivingWorker × List AckSegment
unfolding flush write
flush_worker w current rto conv state =
    let (l, written) = flush w.acklist current rto in
    (record w { acklist = l }, map (write w conv state) written)

unfoldable pub update_necessary : ReceivingWorker → Bool
update_necessary w = ltb 0 (length w.acklist.entries)
