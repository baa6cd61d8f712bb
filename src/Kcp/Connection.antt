-- ===== src/Kcp/Connection.antt =====
-- connection.go: the connection, its state changes and what it writes by itself.
-- Time is an argument: `now` is a reading of `Elapsed()`, the milliseconds since the connection was
-- made, modulo 2 ^ 32. `SetState` reads the clock itself, so a method that calls it is given that reading
-- beside its own. A method is what it does while no other method of the connection runs: the code holds
-- no lock over it, and Lifecycle/Races is about what methods that interleave do to the state. What `output` was given is the list
-- `written`, oldest first; how it reaches the network, and the retries, are not modelled. A notifier is
-- whether a signal waits in its channel. Logging is left out.
use dpi_warrior_native_xray.Base.{
  ℕ, Bool, true, false, Option, none, some, List, [], ◌∷◌, ◌++◌, ◌==◌, if◌then◌else◌, sub32,
  bit_and, ◌>>=◌,
}
use dpi_warrior_native_xray.Kcp.Segment.{
  CmdOnlySegment, Segment, cmd_only_segment, segment_option_close, data_segment_overhead,
}
use dpi_warrior_native_xray.Kcp.State.{
  State, active, ready_to_close, peer_closed, terminating, peer_terminating, terminated, same,
}
use dpi_warrior_native_xray.Kcp.RoundTrip.{RoundTripInfo, new_round_trip_info}
use dpi_warrior_native_xray.Kcp.Config.{
  Config, get_mtu_value, get_tti_value, get_sending_in_flight_size, get_receiving_in_flight_size,
  get_sending_buffer_size,
}
use dpi_warrior_native_xray.Kcp.Receiving.{ReceivingWorker, new_receiving_worker}
use dpi_warrior_native_xray.Kcp.Receiving
use dpi_warrior_native_xray.Kcp.Sending.{SendingWorker, Link, new_sending_worker}
use dpi_warrior_native_xray.Kcp.Sending

-- An updater's goroutine: there is none, it was just started, or it is in its loop.
pub data Phase : Type 0 where
  idle started looping : Phase

-- The interval is in milliseconds.
pub record Updater : Type 0 where
  pub interval : ℕ
  pub phase : Phase

-- A goroutine is started if the semaphore's only token is there.
unfoldable pub wake_up : Updater → Updater
wake_up u = elim u.phase [ idle ↦ record u { phase = started } | _ ↦ u ]

unfoldable pub set_interval : Updater → ℕ → Updater
set_interval u d = record u { interval = d }

-- `in_flight_size` is `Config.GetSendingInFlightSize()`, which no step changes. A deadline that is not
-- set is `none`.
pub record Connection : Type 0 where
  pub conv : ℕ
  pub rd : Option ℕ
  pub wd : Option ℕ
  pub data_input : Bool
  pub data_output : Bool
  pub congestion : Bool
  pub in_flight_size : ℕ
  pub state : State
  pub state_begin_time : ℕ
  pub last_incoming_time : ℕ
  pub last_ping_time : ℕ
  pub mss : ℕ
  pub round_trip : RoundTripInfo
  pub receiving_worker : ReceivingWorker
  pub sending_worker : SendingWorker
  pub written : List Segment
  pub data_updater : Updater
  pub ping_updater : Updater
  pub terminate_started : Bool
  pub closer_closed : Bool

-- `overhead` is what the packet writer adds to each packet. `none` is a division by zero in the
-- configuration.
unfoldable pub new_connection : ℕ → ℕ → Config → Option Connection
unfolding get_sending_in_flight_size get_receiving_in_flight_size get_sending_buffer_size
    new_receiving_worker new_sending_worker wake_up
new_connection conv overhead config = do
  receiving_size ← get_receiving_in_flight_size config
  sending_size ← get_sending_in_flight_size config
  buffer_size ← get_sending_buffer_size config
  some (record {
    conv = conv;
    rd = none;
    wd = none;
    data_input = false;
    data_output = false;
    congestion = config.congestion;
    in_flight_size = sending_size;
    state = active;
    state_begin_time = 0;
    last_incoming_time = 0;
    last_ping_time = 0;
    mss = sub32 (sub32 (get_mtu_value config) overhead) data_segment_overhead;
    round_trip = new_round_trip_info (get_tti_value config);
    receiving_worker = new_receiving_worker receiving_size;
    sending_worker = new_sending_worker sending_size buffer_size;
    written = [];
    data_updater = record { interval = get_tti_value config; phase = idle };
    ping_updater = wake_up (record { interval = 5000; phase = idle });
    terminate_started = false;
    closer_closed = false;
  })

-- What the sending worker reads of its connection.
abbrev pub link : Connection → Link
link c = record {
  conv = c.conv;
  state = c.state;
  congestion = c.congestion;
  in_flight_size = c.in_flight_size;
  rto = c.round_trip.rto;
}

unfoldable pub write_all : Connection → List Segment → Connection
write_all c segs = record c { written = c.written ++ segs }

unfoldable pub ping : Connection → ℕ → ℕ → Connection
unfolding write_all
ping c now cmd =
    let seg : CmdOnlySegment = record {
      conv = c.conv;
      cmd = cmd;
      option = if same c.state ready_to_close then segment_option_close else 0;
      sending_next = c.sending_worker.first_unacknowledged;
      receiving_next = c.receiving_worker.next_number;
      peer_rto = c.round_trip.rto;
    } in
    record (write_all c (cmd_only_segment seg ∷ [])) { last_ping_time = now }

abbrev close_sending : Connection → Connection
close_sending c = record c { sending_worker = Sending.close_write c.sending_worker }

-- `now` is the reading that `SetState` makes. `go c.Terminate()` is noted in `terminate_started`; its body is `terminate`.
unfoldable pub set_state : Connection → ℕ → State → Connection
unfolding wake_up set_interval
set_state c now state =
    let entered = record c { state = state; state_begin_time = now } in
    let slow = record (close_sending entered) { ping_updater = set_interval c.ping_updater 1000 } in
    elim state [
      | active ↦ entered
      | ready_to_close ↦ entered
      | peer_closed ↦ close_sending entered
      | terminating ↦ slow
      | peer_terminating ↦ slow
      | terminated ↦ record slow {
        data_updater = wake_up c.data_updater;
        ping_updater = wake_up (set_interval c.ping_updater 1000);
        terminate_started = true;
      }
    ]

abbrev pub signal_both : Connection → Connection
signal_both c = record c { data_input = true; data_output = true }

-- The connection, and whether the result is nil and not ErrClosedConnection.
unfoldable pub close : Connection → ℕ → Connection × Bool
unfolding set_state
close c now =
    let c' = signal_both c in
    elim c.state [
      | ready_to_close ↦ (c', false)
      | terminating ↦ (c', false)
      | terminated ↦ (c', false)
      | active ↦ (set_state c' now ready_to_close, true)
      | peer_closed ↦ (set_state c' now terminating, true)
      | peer_terminating ↦ (set_state c' now terminated, true)
    ]

-- A deadline can be set while the connection is active; otherwise the result is ErrClosedConnection.
unfoldable pub set_read_deadline : Connection → Option ℕ → Connection × Bool
set_read_deadline c t = if same c.state active then (record c { rd = t }, true) else (c, false)

unfoldable pub set_write_deadline : Connection → Option ℕ → Connection × Bool
set_write_deadline c t = if same c.state active then (record c { wd = t }, true) else (c, false)

unfoldable pub set_deadline : Connection → Option ℕ → Connection × Bool
unfolding set_read_deadline set_write_deadline
set_deadline c t =
    let (c', done) = set_read_deadline c t in if done then set_write_deadline c' t else (c', false)

unfoldable pub terminate : Connection → Connection
terminate c = record (signal_both c) {
  closer_closed = true;
  sending_worker = Sending.release c.sending_worker;
  receiving_worker = Receiving.release c.receiving_worker;
}

unfoldable pub on_peer_closed : Connection → ℕ → Connection
unfolding set_state
on_peer_closed c now = elim c.state [
  | ready_to_close ↦ set_state c now terminating
  | active ↦ set_state c now peer_closed
  | _ ↦ c
]

-- `(opt & SegmentOptionClose) == SegmentOptionClose`.
unfoldable pub handle_option : Connection → ℕ → ℕ → Connection
unfolding on_peer_closed
handle_option c now opt =
    if bit_and opt segment_option_close == segment_option_close then on_peer_closed c now else c
