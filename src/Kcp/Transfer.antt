-- ===== src/Kcp/Transfer.antt =====
-- connection.go: what a connection does with the packets it gets, with the time that passes, and with
-- what its user reads and writes. The loops that wait for a signal are modelled by one round, whose
-- result says whether the loop ends or waits. A method is what it does while no other one of the
-- connection runs: no lock of the code ensures that, and Lifecycle/Races is about methods that interleave.
use dpi_warrior_native_xray.Base.{
  ℕ, ◌+◌, true, not, ◌&&◌, ◌||◌, some, List, [], ◌∷◌, map, ltb, leb, ◌==◌, if◌then◌else◌, length,
  sub32,
}
use dpi_warrior_native_xray.Kcp.Segment.{
  DataSegment, AckSegment, CmdOnlySegment, Segment, data_segment, ack_segment, cmd_only_segment,
  conversation, segment_option_close, command_terminate, command_ping,
}
use dpi_warrior_native_xray.Kcp.State.{
  active, ready_to_close, peer_closed, terminating, peer_terminating, terminated, same, is_one_of,
}
use dpi_warrior_native_xray.Kcp.RoundTrip.{update_peer_rto}
use dpi_warrior_native_xray.Kcp.Receiving
use dpi_warrior_native_xray.Kcp.Sending
use dpi_warrior_native_xray.Kcp.Connection.{
  Connection, idle, looping, wake_up, link, write_all, ping, set_state, signal_both, close,
  handle_option,
}

abbrev wake_data : Connection → Connection
wake_data c = record c { data_updater = wake_up c.data_updater }

-- `clock` gives the readings that `SetState` makes, in order of the places that may call it: of each
-- segment, first the one for its option, then the one for its command. `now` is `Input`'s own.
unfoldable pub input_data : Connection → (ℕ → ℕ) → DataSegment → Connection
unfolding wake_up
input_data c clock seg =
    let c1 = handle_option c (clock 0) seg.option in
    let worker = Receiving.process_segment c1.receiving_worker seg in
    wake_data (record c1 {
      receiving_worker = worker;
      data_input = if Receiving.is_data_available worker then true else c1.data_input;
    })

unfoldable pub input_ack : Connection → ℕ → (ℕ → ℕ) → AckSegment → Connection
unfolding wake_up
input_ack c now clock seg =
    let c1 = handle_option c (clock 0) seg.option in
    let (worker, info) =
      Sending.process_segment c1.sending_worker now seg c1.round_trip.rto c1.round_trip in
    wake_data (record c1 { sending_worker = worker; round_trip = info; data_output = true })

-- The state change that the peer's terminate command asks for.
unfoldable pub on_terminate : Connection → ℕ → Connection
on_terminate c now = elim c.state [
  | active ↦ set_state c now peer_terminating
  | peer_closed ↦ set_state c now peer_terminating
  | ready_to_close ↦ set_state c now terminating
  | terminating ↦ set_state c now terminated
  | peer_terminating ↦ c
  | terminated ↦ c
]

unfoldable pub input_cmd_only : Connection → ℕ → (ℕ → ℕ) → CmdOnlySegment → Connection
unfolding on_terminate
input_cmd_only c now clock seg =
    let c1 = handle_option c (clock 0) seg.option in
    let c2 = if seg.cmd == command_terminate then on_terminate c1 (clock 1) else c1 in
    let c3 =
      if seg.option == segment_option_close || seg.cmd == command_terminate
      then signal_both c2
      else c2 in
    record c3 {
      sending_worker = Sending.process_receiving_next c3.sending_worker seg.receiving_next;
      receiving_worker = Receiving.process_sending_next c3.receiving_worker seg.sending_next;
      round_trip = update_peer_rto c3.round_trip seg.peer_rto now;
    }

unfoldable pub input_segment : Connection → ℕ → (ℕ → ℕ) → Segment → Connection
unfolding input_data input_ack input_cmd_only
input_segment c now clock (data_segment s) = input_data c clock s
input_segment c now clock (ack_segment s) = input_ack c now clock s
input_segment c now clock (cmd_only_segment s) = input_cmd_only c now clock s

-- The loop over the segments of a packet, which ends at one of another conversation.
unfoldable pub input_all : Connection → ℕ → (ℕ → ℕ) → List Segment → Connection
unfolding input_segment
input_all c now clock [] = c
input_all c now clock (s ∷ ss) =
    let rest = input_all (input_segment c now clock s) now (λ i. clock (i + 2)) ss in
    if conversation s == c.conv then rest else c

unfoldable pub input : Connection → ℕ → (ℕ → ℕ) → List Segment → Connection
unfolding input_all
input c now clock segments = input_all (record c { last_incoming_time = now }) now clock segments

-- The readings of the clock in one `flush`: its own, and those of `SetState` where it calls `Close`,
-- where everything is sent, and where a state has lasted too long.
pub record Readings : Type 0 where
  pub current : ℕ
  pub closing : ℕ
  pub sending : ℕ
  pub ending : ℕ

-- `current-atomic.LoadUint32(&c.stateBeginTime)`.
abbrev pub age : Connection → ℕ → ℕ
age c now = sub32 now c.state_begin_time

-- The first two checks of `flush`: a connection with no incoming packet for 30 seconds is closed, and a
-- closed one with nothing left to send begins to terminate.
unfoldable pub check_idle : Connection → Readings → Connection
unfolding close
check_idle c r =
    if same c.state active && leb 30000 (sub32 r.current c.last_incoming_time)
    then (close c r.closing).0
    else c

unfoldable pub check_sent : Connection → Readings → Connection
check_sent c r =
    if same c.state ready_to_close && Sending.is_empty c.sending_worker
    then set_state c r.sending terminating
    else c

-- The branch of a terminating connection.
unfoldable pub flush_terminating : Connection → Readings → Connection
flush_terminating c r =
    let c' = ping c r.current command_terminate in
    if ltb 8000 (age c' r.current) then set_state c' r.ending terminated else c'

-- The timeouts of the two states in which the connection waits for the peer.
unfoldable pub check_timeouts : Connection → Readings → Connection
check_timeouts c r =
    let c' =
      if same c.state peer_terminating && ltb 4000 (age c r.current)
      then set_state c r.ending terminating
      else c in
    if same c'.state ready_to_close && ltb 15000 (age c' r.current)
    then set_state c' r.ending terminating
    else c'

unfoldable pub flush_receiving : Connection → ℕ → Connection
flush_receiving c now =
    let (worker, acks) =
      Receiving.flush_worker c.receiving_worker now c.round_trip.rto c.conv c.state in
    write_all (record c { receiving_worker = worker }) (map ack_segment acks)

unfoldable pub flush_sending : Connection → ℕ → Connection
flush_sending c now =
    let (worker, segs, updated) = Sending.flush c.sending_worker now (link c) in
    let c' = write_all (record c { sending_worker = worker }) (map data_segment segs) in
    if updated then ping c' now command_ping else c'

unfoldable pub flush_ping : Connection → ℕ → Connection
flush_ping c now = if leb 3000 (sub32 now c.last_ping_time) then ping c now command_ping else c

unfoldable pub flush : Connection → Readings → Connection
flush c r =
    if same c.state terminated
    then c
    else let c' = check_sent (check_idle c r) r in
      if same c'.state terminating
      then flush_terminating c' r
      else let sent = flush_sending (flush_receiving (check_timeouts c' r) r.current) r.current in
        flush_ping sent r.current

-- What a round of a blocking call ends with: the end of the stream, a result, or a wait for a signal.
pub data Round (A : Type 0) : Type 0 where
  eof : Round A
  got : A → Round A
  waits : Round A

unfoldable pub read_multi_buffer : Connection → Connection × Round (List (List ℕ))
unfolding wake_up
read_multi_buffer c =
    if is_one_of c.state (ready_to_close ∷ terminating ∷ terminated ∷ [])
    then (c, eof)
    else let (worker, mb) = Receiving.read_multi_buffer c.receiving_worker in
      let c' = record c { receiving_worker = worker } in
      if not (Receiving.is_empty_multi mb)
      then (wake_data c', got mb)
      else if same c.state peer_terminating
      then (c', eof)
      else (c', waits)

-- `Read` into a slice of `n` bytes.
unfoldable pub read : Connection → ℕ → Connection × Round (List ℕ)
unfolding wake_up
read c n =
    if is_one_of c.state (ready_to_close ∷ terminating ∷ terminated ∷ [])
    then (c, eof)
    else let (worker, out) = Receiving.read c.receiving_worker n in
      let c' = record c { receiving_worker = worker } in
      if ltb 0 (length out) then (wake_data c', got out) else (c', waits)

-- A round of `writeMultiBufferInternal` with a filled buffer: `eof` is io.ErrClosedPipe.
unfoldable pub write_round : Connection → List ℕ → Connection × Round (Unit {0})
write_round c b =
    if not (same c.state active)
    then (c, eof)
    else let (worker, pushed) = Sending.push c.sending_worker (some b) in
      if pushed then (record c { sending_worker = worker }, got tt) else (c, waits)

-- A round of the data updater's goroutine: its first check, then one of its loop.
unfoldable pub data_round : Connection → Readings → Connection
data_round c r =
    let ended = record c { data_updater = record (c.data_updater) { phase = idle } } in
    let goes_on = record c { data_updater = record (c.data_updater) { phase = looping } } in
    let stops = is_one_of c.state (terminating ∷ terminated ∷ []) in
    let needed =
      Sending.update_necessary c.sending_worker || Receiving.update_necessary c.receiving_worker in
    elim c.data_updater.phase [
      | idle ↦ c
      | _ ↦ if not stops && needed then flush goes_on r else ended
    ]

-- The same of the ping updater, which goes on until the connection is terminated.
unfoldable pub ping_round : Connection → Readings → Connection
ping_round c r =
    let ended = record c { ping_updater = record (c.ping_updater) { phase = idle } } in
    let goes_on = record c { ping_updater = record (c.ping_updater) { phase = looping } } in
    elim c.ping_updater.phase [
      | idle ↦ c
      | _ ↦ if same c.state terminated then ended else flush goes_on r
    ]
