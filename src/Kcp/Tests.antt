-- ===== src/Kcp/Tests.antt =====
-- The theorems at concrete inputs, and runs of the code.
use dpi_warrior_native_xray.Base.{
  ℕ, ◌+◌, ◌*◌, ◌/◌, ◌≤◌, ◌<◌, min, max, ◌≡◌, refl, ◌≢◌, ◌⊎◌, inl, inr, true, false, none, some,
  List, [], ◌∷◌, ◌++◌, ◌∙◌, arith, ◌==◌, if◌then◌else◌, length, sub32, ◌>>=◌,
}
use dpi_warrior_native_xray.Kcp.Segment.{
  DataSegment, AckSegment, Segment, data_segment, new_data_segment, encode, read_segment, byte_size,
  detach,
}
use dpi_warrior_native_xray.Kcp.Segment.Layout.{layout, HasPayload, encode-layout}
use dpi_warrior_native_xray.Kcp.Segment.RoundTrip.{
  on_the_wire, read_segment-encode, read_segment-encode_empty,
}
use dpi_warrior_native_xray.Kcp.Segment.Safety.{read_segment_total}
use dpi_warrior_native_xray.Kcp.State.{active, ready_to_close, terminating, terminated}
use dpi_warrior_native_xray.Kcp.Config.{
  Config, KcpConfig, build, get_sending_in_flight_size, get_receiving_in_flight_size,
}
use dpi_warrior_native_xray.Kcp.Config.Sizes.{
  max_in_flight, build-in_flight_sizes, sending_in_flight_wraps,
}
use dpi_warrior_native_xray.Kcp.RoundTrip.{RoundTripInfo, update}
use dpi_warrior_native_xray.Kcp.RoundTrip.Estimate.{
  exact_smooth, exact_rto, IsSane, update-exact, rto-update-le,
}
use dpi_warrior_native_xray.Kcp.AckList.{AckEntry, AckList}
use dpi_warrior_native_xray.Kcp.AckList
use dpi_warrior_native_xray.Kcp.AckList.Flush.{Acknowledges, flush-Acknowledges}
use dpi_warrior_native_xray.Kcp.Receiving.{ReceivingWorker, new_receiving_worker, is_data_available}
use dpi_warrior_native_xray.Kcp.Receiving
use dpi_warrior_native_xray.Kcp.Receiving.Delivery.{
  Event, step, arrives, acknowledged, reads_multi, reads, run, HasRead, run-stream,
}
use dpi_warrior_native_xray.Kcp.Receiving.Window.{
  Accepted, process_segment-cases, read_multi_buffer_drains,
}
use dpi_warrior_native_xray.Kcp.SendingWindow.{SendingWindow}
use dpi_warrior_native_xray.Kcp.SendingWindow
use dpi_warrior_native_xray.Kcp.Sending.{SendingWorker, Link, write}
use dpi_warrior_native_xray.Kcp.Sending
use dpi_warrior_native_xray.Kcp.Sending.Order.{IsOrdered, numbers}
use dpi_warrior_native_xray.Kcp.Sending.Acks.{Leaves, process_segment-Leaves}
use dpi_warrior_native_xray.Kcp.Sending.Congestion.{
  after, due, flush-due, push-cases, on_packet_loss-bounds,
}
use dpi_warrior_native_xray.Kcp.Connection.{Connection, Updater, idle, set_state}
use dpi_warrior_native_xray.Kcp.Transfer.{Readings, on_terminate, check_sent, flush}
use dpi_warrior_native_xray.Kcp.Lifecycle.{Follows}
use dpi_warrior_native_xray.Kcp.Lifecycle.Races.{
  Shared, reads, sets, Reach, here, next, peer_terminates, has_sent, Reach_shared-Follows,
}
use dpi_warrior_native_xray.Kcp.Lifecycle.Timeouts.{Flushed, state-flush}
use dpi_warrior_native_xray.Kcp.Lifecycle.Silence.{flush_all, silent_connection_ends}

abbrev hello : DataSegment
hello = record {
  conv = 7;
  option = 0;
  timestamp = 100;
  number = 1;
  sending_next = 0;
  payload = some (104 ∷ 105 ∷ []);
  timeout = 500;
  transmit = 1;
}

abbrev greeting : DataSegment
greeting = record hello { number = 0; payload = some (111 ∷ 104 ∷ 32 ∷ []) }

abbrev ack : AckSegment
ack = record {
  conv = 7;
  option = 0;
  receiving_window = 64;
  receiving_next = 1;
  timestamp = 120;
  number_list = 3 ∷ 2 ∷ 3 ∷ [];
}

read_segment-encode_example :
    (encode (data_segment hello) >>= λ w. read_segment (w ++ []))
    ≡ some (some (on_the_wire (data_segment hello), []))
read_segment-encode_example =
    read_segment-encode (data_segment hello) []
      (omega arith, omega arith, omega arith, omega arith, omega arith, (104 ∷ 105 ∷ [], refl))
      (omega arith)

read_segment-encode_empty_example :
    (encode (data_segment (record hello { payload = some [] })) >>= read_segment) ≡ some none
read_segment-encode_empty_example =
    read_segment-encode_empty (record hello { payload = some [] }) refl

encode-layout_example :
    (HasPayload (data_segment hello)
      × (encode (data_segment hello) ≡ some (layout (data_segment hello))))
    ⊎ ((¬ HasPayload (data_segment hello)) × (encode (data_segment hello) ≡ none))
encode-layout_example = encode-layout (data_segment hello) (unfold byte_size in omega arith)

read_segment_total_example :
    (read_segment (0 ∷ 7 ∷ 1 ∷ []) ≢ none)
    × ((s : Segment) (rest : List ℕ)
        → read_segment (0 ∷ 7 ∷ 1 ∷ []) ≡ some (some (s, rest))
        → 16 + length rest ≤ 3)
read_segment_total_example = read_segment_total (0 ∷ 7 ∷ 1 ∷ [])

-- What the sender put under the first two numbers.
abbrev pieces : ℕ → List ℕ
pieces n = if n == 0 then 111 ∷ 104 ∷ 32 ∷ [] else 104 ∷ 105 ∷ []

abbrev arrivals : List Event
arrivals =
    arrives hello
    ∷ reads 4
    ∷ arrives greeting
    ∷ arrives hello
    ∷ reads 4
    ∷ acknowledged 1
    ∷ reads_multi
    ∷ []

run-stream_example :
    (m : ℕ) × HasRead pieces m
      (run (new_receiving_worker 8) arrivals).0
      (run (new_receiving_worker 8) arrivals).1
run-stream_example =
    run-stream pieces 8 arrivals (
      (refl, omega arith),
      (tt, ((refl, omega arith), ((refl, omega arith), (tt, (tt, (tt, tt)))))),
    )

-- The second segment came first, twice, and the reads were short.
arrivals_in_order : (run (new_receiving_worker 8) arrivals).1 ≡ 111 ∷ 104 ∷ 32 ∷ 104 ∷ 105 ∷ []
unfolding run step new_receiving_worker Receiving.process_segment Receiving.window_set
    Receiving.read Receiving.process_sending_next AckList.add AckList.clear detach
arrivals_in_order = refl

abbrev waiting : ReceivingWorker
waiting = record {
  left_over = none;
  window = (1, hello) ∷ (0, greeting) ∷ [];
  acklist = record { entries = []; flush_candidates = []; dirty = false };
  next_number = 0;
  window_size = 8;
}

process_segment-cases_example :
    ((sub32 3 0 < 8)
      × Accepted
          (new_receiving_worker 8)
          (record hello { number = 3 })
          (Receiving.process_segment (new_receiving_worker 8) (record hello { number = 3 })))
    ⊎ ((8 ≤ sub32 3 0)
        × (Receiving.process_segment (new_receiving_worker 8) (record hello { number = 3 })
            ≡ new_receiving_worker 8))
unfolding new_receiving_worker
process_segment-cases_example =
    process_segment-cases (new_receiving_worker 8) (record hello { number = 3 })

read_multi_buffer_drains_example : is_data_available (Receiving.read_multi_buffer waiting).0 ≡ false
read_multi_buffer_drains_example = read_multi_buffer_drains waiting refl

abbrev acks : AckList
acks = record {
  entries =
      record { number = 4; timestamp = 10; next_flush = 50 }
      ∷ record { number = 5; timestamp = 20; next_flush = 0 }
      ∷ [];
  flush_candidates = [];
  dirty = true;
}

flush-Acknowledges_example : Acknowledges 40 100 acks (AckList.flush acks 40 100)
flush-Acknowledges_example = flush-Acknowledges acks 40 100

abbrev settings : KcpConfig
settings = record {
  mtu = some 1400;
  tti = none;
  up_cap = some 8192;
  down_cap = none;
  congestion = some true;
  read_buffer_size = none;
  write_buffer_size = some 1;
}

abbrev built : Config
built = record {
  mtu = some 1400;
  tti = none;
  uplink_capacity = some 8192;
  downlink_capacity = none;
  write_buffer = some 1048576;
  read_buffer = none;
  congestion = true;
}

build-settings : build settings ≡ some built
unfolding build
build-settings = refl

build-in_flight_sizes_example :
    ((s : ℕ) × (get_sending_in_flight_size built ≡ some s) × (8 ≤ s) × (s ≤ max_in_flight))
    × ((r : ℕ) × (get_receiving_in_flight_size built ≡ some r) × (8 ≤ r) × (r ≤ max_in_flight))
build-in_flight_sizes_example = build-in_flight_sizes settings built build-settings

sending_in_flight_wraps_example : get_sending_in_flight_size built ≡ some 8
sending_in_flight_wraps_example = sending_in_flight_wraps settings built 2 build-settings refl

abbrev info : RoundTripInfo
info = record { variation = 40; srtt = 200; rto = 450; min_rtt = 50; updated_timestamp = 9 }

update-exact_example :
    (update info 120 1000 ≡ record (exact_smooth info 120) {
      rto = exact_rto (exact_smooth info 120);
      updated_timestamp = 1000;
    })
    × IsSane (update info 120 1000)
update-exact_example = update-exact info 120 1000 (omega arith) (omega arith)

rto-update-le_example : (update info 2000000 1000).rto ≤ 12500
rto-update-le_example = rto-update-le info 2000000 1000 (omega arith)

abbrev piece : ℕ → DataSegment
piece n = record new_data_segment {
  number = n;
  payload = some (n ∷ []);
  timeout = 90;
  transmit = 1;
}

abbrev worker : SendingWorker
worker = record {
  window = record { cache = piece 0 ∷ piece 2 ∷ piece 3 ∷ piece 4 ∷ []; total_in_flight_size = 4 };
  first_unacknowledged = 0;
  next_number = 5;
  remote_next_number = 32;
  control_window = 40;
  fast_resend = 2;
  window_size = 64;
  first_unacknowledged_updated = false;
  closed = false;
}

worker-IsOrdered : IsOrdered worker
worker-IsOrdered = omega arith

process_segment-Leaves_example :
    Leaves worker (4 ∷ []) (Sending.process_segment worker 150 ack 100 info).0
process_segment-Leaves_example =
    process_segment-Leaves worker 150 ack 100 info worker-IsOrdered (omega arith) refl

abbrev peer : Link
peer = record { conv = 7; state = active; congestion = true; in_flight_size = 30; rto = 100 }

flush-due_example :
    ((SendingWindow.flush (write worker peer) worker.window 95 100 2).0.cache
      ≡ after (write worker peer) 95 100 2 worker.window.cache)
    × ((SendingWindow.flush (write worker peer) worker.window 95 100 2).1
        ≡ due (write worker peer) 95 100 2 worker.window.cache)
flush-due_example = flush-due (write worker peer) worker.window 95 100 2 (omega arith)

push-cases_example :
    ((worker.closed ≡ false)
      × (length worker.window.cache ≤ worker.window_size)
      × ((Sending.push worker (some [])).1 ≡ true)
      × (numbers (Sending.push worker (some [])).0.window.cache
          ≡ numbers worker.window.cache ++ (worker.next_number ∷ []))
      × ((Sending.push worker (some [])).0.next_number ≡ worker.next_number + 1)
      × IsOrdered (Sending.push worker (some [])).0)
    ⊎ (((worker.closed ≡ true) ⊎ (worker.window_size < length worker.window.cache))
        × (Sending.push worker (some []) ≡ (worker, false)))
push-cases_example = push-cases worker (some []) worker-IsOrdered (omega arith) (omega arith)

on_packet_loss-bounds_example :
    ((peer.congestion ≡ true)
      × (0 < peer.rto)
      × (16 ≤ (Sending.on_packet_loss worker peer 20).control_window)
      × ((Sending.on_packet_loss worker peer 20).control_window ≤ 2 * peer.in_flight_size)
      × ((Sending.on_packet_loss worker peer 20).control_window
          ≤ max 16 (worker.control_window + worker.control_window / 4))
      × (3 * worker.control_window / 4 ≤ (Sending.on_packet_loss worker peer 20).control_window)
      × (15 ≤ 20
          → (Sending.on_packet_loss worker peer 20).control_window
            ≤ max 16 (3 * worker.control_window / 4))
      × (20 ≤ 5
          → min (2 * peer.in_flight_size) (worker.control_window + worker.control_window / 4)
            ≤ (Sending.on_packet_loss worker peer 20).control_window))
    ⊎ (((peer.congestion ≡ false) ⊎ (peer.rto ≡ 0))
        × (Sending.on_packet_loss worker peer 20 ≡ worker))
on_packet_loss-bounds_example =
    on_packet_loss-bounds worker peer 20 (omega arith) (omega arith) (omega arith)

abbrev updater : Updater
updater = record { interval = 50; phase = idle }

abbrev connection : Connection
connection = record {
  conv = 7;
  rd = none;
  wd = none;
  data_input = false;
  data_output = false;
  congestion = true;
  in_flight_size = 30;
  state = active;
  state_begin_time = 0;
  last_incoming_time = 1000;
  last_ping_time = 1000;
  mss = 1326;
  round_trip = info;
  receiving_worker = waiting;
  sending_worker = worker;
  written = [];
  data_updater = updater;
  ping_updater = updater;
  terminate_started = false;
  closer_closed = false;
}

-- The readings of a flush that takes no time to speak of, and of one during which the clock moves on.
abbrev at : ℕ → Readings
at t = record { current = t; closing = t; sending = t; ending = t }

abbrev slow : Readings
slow = record { current = 31000; closing = 31001; sending = 31001; ending = 31002 }

state-flush_example : Flushed connection slow (flush connection slow)
state-flush_example = state-flush connection slow

-- Of a connection with nothing to send, idle for 30 seconds: the flush that finds it so also ends it,
-- as the clock moved on by a millisecond.
abbrev idle_connection : Connection
idle_connection = record connection {
  sending_worker = record worker { window = record { cache = []; total_in_flight_size = 0 } };
}

ended_at_once : (flush idle_connection slow).state ≡ terminated
unfolding SendingWindow.is_empty
ended_at_once = (state-flush idle_connection slow).0 ∙ unfold Sending.is_empty in refl

-- The updater of the pings flushes every five seconds.
abbrev flushes : List Readings
flushes = at 31000 ∷ at 36000 ∷ at 41000 ∷ at 46000 ∷ at 51000 ∷ at 56000 ∷ at 61000 ∷ []

silent_connection_ends_example : (flush_all connection flushes).state ≡ terminated
silent_connection_ends_example =
    silent_connection_ends connection [] (at 36000 ∷ at 41000 ∷ at 46000 ∷ []) (at 56000 ∷ []) []
      (at 31000) (at 51000) (at 61000) (λ e. cc e) (omega arith) (omega arith) (omega arith)
      (omega arith)

-- A flush reads that the connection is ready to close. Two terminate commands arrive, each of which reads
-- the state and sets the next one; then the flush sets the state that follows from what it read.
abbrev closing_connection : Connection
closing_connection = record idle_connection { state = ready_to_close }

abbrev ending_connection : Connection
ending_connection = record idle_connection { state = terminating }

abbrev unread : Shared
unread = record { connection = closing_connection; seen = [] }

abbrev read_by_flush : Shared
read_by_flush = record unread { seen = ready_to_close ∷ [] }

abbrev once_commanded : Shared
once_commanded = record read_by_flush {
  connection = set_state closing_connection 1200 (on_terminate closing_connection 1200).state;
}

abbrev read_again : Shared
read_again = record once_commanded { seen = once_commanded.connection.state ∷ once_commanded.seen }

abbrev twice_commanded : Shared
twice_commanded = record read_again {
  connection = set_state read_again.connection 1300 (on_terminate ending_connection 1300).state;
}

abbrev flushed : Shared
flushed = record twice_commanded {
  connection =
      set_state twice_commanded.connection 1301 (check_sent closing_connection (at 1301)).state;
}

race : Reach unread flushed
unfolding set_state on_terminate
race =
    next
      (next
        (next
          (next (next here (reads unread)) (
            sets read_by_flush ready_to_close (on_terminate closing_connection 1200).state 1200
              (inl refl) (peer_terminates closing_connection 1200 refl)))
          (reads once_commanded))
        (sets read_again terminating (on_terminate ending_connection 1300).state 1300 (inl refl)
          (peer_terminates ending_connection 1300 refl)))
      (sets twice_commanded ready_to_close (check_sent closing_connection (at 1301)).state 1301
        (inr (inl refl)) (has_sent closing_connection (at 1301) refl))

-- The state has moved back, but not behind the state at the moment before the race.
moved_back :
    (twice_commanded.connection.state ≡ terminated) × (flushed.connection.state ≡ terminating)
unfolding set_state on_terminate check_sent SendingWindow.is_empty Sending.is_empty
moved_back = (refl, refl)

Reach_shared-Follows_example : Follows closing_connection flushed.connection
Reach_shared-Follows_example = Reach_shared-Follows unread flushed race refl
