-- ===== src/Kcp/Lifecycle/Runs.antt =====
-- A connection under any sequence of what may happen to it, one call after another. The code holds no
-- lock over a call: between a reading of the state and the `SetState` that follows from it, a call of
-- another goroutine may change the state, and that is not modelled here.
use dpi_warrior_native_xray.Base.{ℕ, ◌≡◌, refl, true, Option, List, arith}
use dpi_warrior_native_xray.Kcp.Segment.{Segment}
use dpi_warrior_native_xray.Kcp.Connection.{Connection, looping, close, set_deadline, terminate}
use dpi_warrior_native_xray.Kcp.Transfer.{
  Readings, input, read_multi_buffer, read, write_round, data_round, ping_round,
}
use dpi_warrior_native_xray.Kcp.Lifecycle.{
  can_become_refl, Follows, Follows-trans, Follows-same, close-Follows, input_all-Follows,
  flush-Follows,
}

-- The packets that arrive, the two updaters, the user's calls, and the goroutine that ends it all.
pub data Step : Connection → Connection → Type 0 where
  arrives :
      (c : Connection) (now : ℕ) (clock : ℕ → ℕ) (ss : List Segment) → Step c (input c now clock ss)
  data_updates : (c : Connection) (r : Readings) → Step c (data_round c r)
  ping_updates : (c : Connection) (r : Readings) → Step c (ping_round c r)
  closes : (c : Connection) (now : ℕ) → Step c (close c now).0
  reads_multi : (c : Connection) → Step c (read_multi_buffer c).0
  reads : (c : Connection) (n : ℕ) → Step c (read c n).0
  writes : (c : Connection) (b : List ℕ) → Step c (write_round c b).0
  sets_deadline : (c : Connection) (t : Option ℕ) → Step c (set_deadline c t).0
  ends : (c : Connection) → c.terminate_started ≡ true → Step c (terminate c)

pub data Reach (c : Connection) : Connection → Type 0 where
  here : Reach c c
  next : {d e : Connection} → Reach c d → Step d e → Reach c e

data_round-Follows : (c : Connection) (r : Readings) → Follows c (data_round c r)
unfolding data_round
data_round-Follows c r =
    let goes_on = record c { data_updater = record (c.data_updater) { phase = looping } } in
    ground (arith, can_become_refl c.state, flush-Follows goes_on r)

ping_round-Follows : (c : Connection) (r : Readings) → Follows c (ping_round c r)
unfolding ping_round
ping_round-Follows c r =
    let goes_on = record c { ping_updater = record (c.ping_updater) { phase = looping } } in
    ground (arith, can_become_refl c.state, flush-Follows goes_on r)

state-read_multi_buffer : (c : Connection) → (read_multi_buffer c).0.state ≡ c.state
unfolding read_multi_buffer
state-read_multi_buffer c = ground arith

state-read : (c : Connection) (n : ℕ) → (read c n).0.state ≡ c.state
unfolding read
state-read c n = ground arith

state-write_round : (c : Connection) (b : List ℕ) → (write_round c b).0.state ≡ c.state
unfolding write_round
state-write_round c b = ground arith

state-set_deadline : (c : Connection) (t : Option ℕ) → (set_deadline c t).0.state ≡ c.state
unfolding set_deadline
state-set_deadline c t = ground arith

Step-Follows : {c d : Connection} → Step c d → Follows c d
Step-Follows (arrives c now clock ss) =
    unfold input in input_all-Follows (record c { last_incoming_time = now }) now clock ss
Step-Follows (data_updates c r) = data_round-Follows c r
Step-Follows (ping_updates c r) = ping_round-Follows c r
Step-Follows (closes c now) = close-Follows c now
Step-Follows (reads_multi c) = Follows-same c (read_multi_buffer c).0 (state-read_multi_buffer c)
Step-Follows (reads c n) = Follows-same c (read c n).0 (state-read c n)
Step-Follows (writes c b) = Follows-same c (write_round c b).0 (state-write_round c b)
Step-Follows (sets_deadline c t) = Follows-same c (set_deadline c t).0 (state-set_deadline c t)
Step-Follows (ends c h) = Follows-same c (terminate c) (unfold terminate in refl)

-- Over any calls that do not overlap, whatever arrives, however time passes, between the readings of
-- one call too, and whatever the user calls, in any order, the state only moves forward: a connection
-- closed on this side never becomes active again nor takes the peer's states, one closed by the peer
-- never becomes active or merely ready to close, a terminating one only ends, and an ended one stays so.
pub Reach-Follows : {c d : Connection} → Reach c d → Follows c d
Reach-Follows {c} here = can_become_refl c.state
Reach-Follows {c} (next {d = d} {e = e} r s) =
    Follows-trans c d e (Reach-Follows r) (Step-Follows s)
