-- ===== src/Kcp/Lifecycle/Timeouts.antt =====
-- The timeouts: what the passing of time alone does to a connection, and that it ends.
use dpi_warrior_native_xray.Base.{
  ℕ, ◌≡◌, refl, Bool, ◌&&◌, ◌||◌, arith, ltb, leb, if◌then◌else◌, sub32,
}
use dpi_warrior_native_xray.Kcp.Segment.{command_terminate}
use dpi_warrior_native_xray.Kcp.State.{
  State, active, ready_to_close, peer_closed, terminating, peer_terminating, terminated, same,
}
use dpi_warrior_native_xray.Kcp.Connection.{Connection, set_state, ping}
use dpi_warrior_native_xray.Kcp.Sending
use dpi_warrior_native_xray.Kcp.Transfer.{
  Readings, age, check_idle, check_sent, check_timeouts, flush_terminating, flush,
}
use dpi_warrior_native_xray.Kcp.Lifecycle.{state-set_state, ping-Stays, flush_rest-Stays}

-- How long ago the last packet came.
abbrev pub silence : Connection → ℕ → ℕ
silence c now = sub32 now c.last_incoming_time

abbrev pub all_sent : Connection → Bool
all_sent c = Sending.is_empty c.sending_worker

-- The state after a flush, and when it was entered: by the state, when that was entered, how long ago
-- the last packet came, and whether everything was sent. Each age is told from the reading that `flush`
-- made first, modulo 2 ^ 32, that of a state that the same flush entered too.
abbrev still_terminating : Readings → ℕ → State × ℕ
still_terminating r begin =
    if ltb 8000 (sub32 r.current begin) then (terminated, r.ending) else (terminating, begin)

abbrev waits_to_close : Readings → ℕ → Bool → State × ℕ
waits_to_close r begin sent =
    if sent
    then still_terminating r r.sending
    else if ltb 15000 (sub32 r.current begin)
    then (terminating, r.ending)
    else (ready_to_close, begin)

abbrev pub after_flush : State → Readings → ℕ → ℕ → Bool → State × ℕ
after_flush active r begin quiet sent =
    if leb 30000 quiet then waits_to_close r r.closing sent else (active, begin)
after_flush ready_to_close r begin quiet sent = waits_to_close r begin sent
after_flush peer_closed r begin quiet sent = (peer_closed, begin)
after_flush terminating r begin quiet sent = still_terminating r begin
after_flush peer_terminating r begin quiet sent =
    if ltb 4000 (sub32 r.current begin) then (terminating, r.ending) else (peer_terminating, begin)
after_flush terminated r begin quiet sent = (terminated, begin)

begin-set_state :
    (c : Connection) (now : ℕ) (s : State) → (set_state c now s).state_begin_time ≡ now
unfolding set_state
begin-set_state c now active = refl
begin-set_state c now ready_to_close = refl
begin-set_state c now peer_closed = refl
begin-set_state c now terminating = refl
begin-set_state c now peer_terminating = refl
begin-set_state c now terminated = refl

-- A step that enters `s` at `now` under a test, and otherwise does nothing.
abbrev Enters : Connection → ℕ → Bool → State → Connection → Type 0
Enters c now test s c' =
    (c'.state ≡ (if test then s else c.state))
    × (c'.state_begin_time ≡ (if test then now else c.state_begin_time))
    × (c'.last_incoming_time ≡ c.last_incoming_time)

last-set_state :
    (c : Connection) (now : ℕ) (s : State)
    → (set_state c now s).last_incoming_time ≡ c.last_incoming_time
unfolding set_state
last-set_state c now active = refl
last-set_state c now ready_to_close = refl
last-set_state c now peer_closed = refl
last-set_state c now terminating = refl
last-set_state c now peer_terminating = refl
last-set_state c now terminated = refl

set_state-Enters :
    (c : Connection) (now : ℕ) (s : State)
    → ((set_state c now s).state ≡ s)
      × ((set_state c now s).state_begin_time ≡ now)
      × ((set_state c now s).last_incoming_time ≡ c.last_incoming_time)
set_state-Enters c now s =
    (state-set_state c now s, begin-set_state c now s, last-set_state c now s)

check_idle-Enters :
    (c : Connection) (r : Readings)
    → Enters c r.closing
        (same c.state active && leb 30000 (silence c r.current))
        ready_to_close
        (check_idle c r)
      × (all_sent (check_idle c r) ≡ all_sent c)
unfolding check_idle
check_idle-Enters c r = ground arith

check_sent-Enters :
    (c : Connection) (r : Readings)
    → Enters c r.sending (same c.state ready_to_close && all_sent c) terminating (check_sent c r)
unfolding check_sent
check_sent-Enters c r = ground (arith, set_state-Enters c r.sending terminating)

flush_terminating-Enters :
    (c : Connection) (r : Readings)
    → Enters c r.ending (ltb 8000 (age c r.current)) terminated (flush_terminating c r)
unfolding flush_terminating
flush_terminating-Enters c r =
    let c' = ping c r.current command_terminate in
    ground
      (arith, ping-Stays c r.current command_terminate, set_state-Enters c' r.ending terminated)

check_timeouts-Enters :
    (c : Connection) (r : Readings)
    → Enters c r.ending
        ((same c.state peer_terminating && ltb 4000 (age c r.current))
          || (same c.state ready_to_close && ltb 15000 (age c r.current)))
        terminating
        (check_timeouts c r)
unfolding check_timeouts
check_timeouts-Enters c r = ground (arith, set_state-Enters c r.ending terminating)

abbrev pub Flushed : Connection → Readings → Connection → Type 0
Flushed c r c' =
    let after = after_flush c.state r c.state_begin_time (silence c r.current) (all_sent c) in
    (c'.state ≡ after.0)
    × (c'.state_begin_time ≡ after.1)
    × (c'.last_incoming_time ≡ c.last_incoming_time)

-- A flush during which no other call changes the state takes the connection to the state that the table
-- `after_flush` gives, and notes the time that the table gives, whatever the clock shows when `SetState` reads it. The table compares that with the
-- flush's own, earlier reading: if the clock has moved on between the two, the difference wraps, and a
-- state that was entered just now counts as long past its timeout.
pub state-flush : (c : Connection) (r : Readings) → Flushed c r (flush c r)
unfolding flush
state-flush c r =
    let c1 = check_idle c r in
    let c2 = check_sent c1 r in
    let c3 = check_timeouts c2 r in
    let i = check_idle-Enters c r in
    let s = check_sent-Enters c1 r in
    let t = flush_terminating-Enters c2 r in
    let o = check_timeouts-Enters c2 r in
    let q = flush_rest-Stays c3 r.current in ground (arith, i, s, t, o, q)
