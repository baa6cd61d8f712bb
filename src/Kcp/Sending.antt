-- ===== src/Kcp/Sending.antt =====
-- sending.go, `SendingWorker`.
-- What the worker asks of its connection is the argument `link`; a method that acts on the connection
-- returns what it does: the updated round trip, the segments written, or that a ping is due.
pub mod Order
pub mod Acks
pub mod Congestion
use dpi_warrior_native_xray.Base.{
  ℕ, ◌/◌, max, Bool, true, false, not, ◌&&◌, ◌||◌, Option, none, some, List, [], ◌∷◌, ltb, leb,
  ◌==◌, if◌then◌else◌, add32, sub32, mul32,
}
use dpi_warrior_native_xray.Kcp.Segment.{DataSegment, AckSegment, segment_option_close}
use dpi_warrior_native_xray.Kcp.Segment
use dpi_warrior_native_xray.Kcp.State.{State, same, ready_to_close}
use dpi_warrior_native_xray.Kcp.RoundTrip.{RoundTripInfo}
use dpi_warrior_native_xray.Kcp.RoundTrip
use dpi_warrior_native_xray.Kcp.SendingWindow.{SendingWindow}
use dpi_warrior_native_xray.Kcp.SendingWindow

pub record SendingWorker : Type 0 where
  pub window : SendingWindow
  pub first_unacknowledged : ℕ
  pub next_number : ℕ
  pub remote_next_number : ℕ
  pub control_window : ℕ
  pub fast_resend : ℕ
  pub window_size : ℕ
  pub first_unacknowledged_updated : Bool
  pub closed : Bool

-- The connection as the worker sees it: its conversation, its state, the flag and the size of its
-- configuration, and the current timeout.
pub record Link : Type 0 where
  pub conv : ℕ
  pub state : State
  pub congestion : Bool
  pub in_flight_size : ℕ
  pub rto : ℕ

-- The two sizes are `GetSendingInFlightSize()` and `GetSendingBufferSize()`.
unfoldable pub new_sending_worker : ℕ → ℕ → SendingWorker
unfolding SendingWindow.new_sending_window
new_sending_worker in_flight_size buffer_size = record {
  window = SendingWindow.new_sending_window;
  first_unacknowledged = 0;
  next_number = 0;
  remote_next_number = 32;
  control_window = in_flight_size;
  fast_resend = 2;
  window_size = buffer_size;
  first_unacknowledged_updated = false;
  closed = false;
}

unfoldable pub release : SendingWorker → SendingWorker
release w = record w { window = SendingWindow.release w.window; closed = true }

unfoldable pub find_first_unacknowledged : SendingWorker → SendingWorker
find_first_unacknowledged w =
    let first : ℕ = elim (SendingWindow.first_number w.window.cache) [
      | none ↦ w.next_number
      | some n ↦ n
    ] in
    record w {
      first_unacknowledged = first;
      first_unacknowledged_updated =
          if w.first_unacknowledged == first then w.first_unacknowledged_updated else true;
    }

unfoldable pub process_receiving_next : SendingWorker → ℕ → SendingWorker
unfolding find_first_unacknowledged
process_receiving_next w next_number =
    find_first_unacknowledged (record w { window = SendingWindow.clear w.window next_number })

unfoldable pub process_ack : SendingWorker → ℕ → SendingWorker × Bool
unfolding find_first_unacknowledged
process_ack w number =
    if ltb 0x7fff_ffff (sub32 number w.first_unacknowledged)
      || ltb (sub32 number w.next_number) 0x7fff_ffff
    then (w, false)
    else let (window, removed) = SendingWindow.remove w.window number in
      if removed
      then (find_first_unacknowledged (record w { window = window }), true)
      else (record w { window = window }, false)

-- The loop over the acknowledged numbers, with `maxack` and `maxackRemoved`.
unfoldable pub process_acks : List ℕ → SendingWorker → ℕ → Bool → SendingWorker × ℕ × Bool
unfolding process_ack
process_acks [] w max_ack max_ack_removed = (w, max_ack, max_ack_removed)
process_acks (number ∷ ns) w max_ack max_ack_removed =
    let (w', removed) = process_ack w number in
    process_acks ns w' (if ltb max_ack number then number else max_ack)
      (if ltb max_ack number then removed else max_ack_removed)

-- The second part, after the receiver's window and next number were taken over.
unfoldable pub process_number_list :
    SendingWorker → ℕ → AckSegment → ℕ → RoundTripInfo → SendingWorker × RoundTripInfo
unfolding process_acks
process_number_list w current seg rto info =
    let (w', max_ack, removed) = process_acks seg.number_list w 0 false in
    if removed
    then (
      record w' { window = SendingWindow.handle_fast_ack w'.window max_ack rto },
      if ltb (sub32 current seg.timestamp) 10000
          then RoundTrip.update info (sub32 current seg.timestamp) current
          else info,
    )
    else (w', info)

-- `remoteNextNumber` grows, and the segments below the receiver's next number are released.
unfoldable pub take_over : SendingWorker → AckSegment → SendingWorker
unfolding process_receiving_next
take_over w seg =
    process_receiving_next
      (record w { remote_next_number = max w.remote_next_number seg.receiving_window })
      seg.receiving_next

unfoldable pub process_segment :
    SendingWorker → ℕ → AckSegment → ℕ → RoundTripInfo → SendingWorker × RoundTripInfo
process_segment w current seg rto info =
    if w.closed
    then (w, info)
    else if Segment.is_empty seg
    then (take_over w seg, info)
    else process_number_list (take_over w seg) current seg rto info

unfoldable pub push : SendingWorker → Option (List ℕ) → SendingWorker × Bool
push w b =
    if w.closed
    then (w, false)
    else if ltb w.window_size (SendingWindow.window_len w.window)
    then (w, false)
    else (
      record w {
        window = SendingWindow.push w.window w.next_number b;
        next_number = add32 w.next_number 1;
      },
      true,
    )

-- `Write` fills in the header of a data segment.
unfoldable pub write : SendingWorker → Link → DataSegment → DataSegment
write w link seg = record seg {
  conv = link.conv;
  sending_next = w.first_unacknowledged;
  option = if same link.state ready_to_close then segment_option_close else 0;
}

-- The new control window before its bounds.
unfoldable pub adjust : ℕ → ℕ → ℕ
adjust control_window loss_rate =
    if leb 15 loss_rate
    then mul32 3 control_window / 4
    else if leb loss_rate 5
    then add32 control_window (control_window / 4)
    else control_window

unfoldable pub on_packet_loss : SendingWorker → Link → ℕ → SendingWorker
unfolding adjust
on_packet_loss w link loss_rate =
    if not link.congestion || link.rto == 0
    then w
    else let control = adjust w.control_window loss_rate in
      let least = if ltb control 16 then 16 else control in
      let most = mul32 2 link.in_flight_size in
      record w { control_window = if ltb most least then most else least }

-- How many segments a flush may write, before the factor.
unfoldable pub congestion_window : SendingWorker → Link → ℕ
congestion_window w link =
    let room = sub32 w.remote_next_number w.first_unacknowledged in
    let cwnd = if ltb room link.in_flight_size then room else link.in_flight_size in
    if link.congestion && ltb w.control_window cwnd then w.control_window else cwnd

-- The worker, the segments written, and whether the connection is to send a ping.
unfoldable pub flush : SendingWorker → ℕ → Link → SendingWorker × List DataSegment × Bool
unfolding congestion_window on_packet_loss write
flush w current link =
    if w.closed
    then (w, [], false)
    else if SendingWindow.is_empty w.window
    then (record w { first_unacknowledged_updated = false }, [], w.first_unacknowledged_updated)
    else let (window, written, loss) =
        SendingWindow.flush (write w link) w.window current link.rto
          (mul32 (congestion_window w link) 20) in
      let w' = record w { window = window; first_unacknowledged_updated = false } in
      (elim loss [ none ↦ w' | some rate ↦ on_packet_loss w' link rate ], written, false)

unfoldable pub close_write : SendingWorker → SendingWorker
close_write w = record w { window = SendingWindow.clear w.window 0xffff_ffff }

unfoldable pub is_empty : SendingWorker → Bool
is_empty w = SendingWindow.is_empty w.window

unfoldable pub update_necessary : SendingWorker → Bool
unfolding is_empty
update_necessary w = not (is_empty w)
