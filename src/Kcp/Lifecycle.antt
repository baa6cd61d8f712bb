-- ===== src/Kcp/Lifecycle.antt =====
-- The life of a connection: which states follow which, whoever acts and whatever arrives.
pub mod Runs
pub mod Timeouts
pub mod Silence
pub mod Races
use dpi_warrior_native_xray.Base.{
  ℕ, ◌+◌, ◌≡◌, refl, ◌∙◌, inl, inr, Bool, true, List, [], ◌∷◌, arith, leb, Bool-cases, sub32,
}
use dpi_warrior_native_xray.Kcp.Segment.{
  CmdOnlySegment, Segment, data_segment, ack_segment, cmd_only_segment, command_terminate,
}
use dpi_warrior_native_xray.Kcp.State.{
  State, active, ready_to_close, peer_closed, terminating, peer_terminating, terminated, same,
  is_one_of,
}
use dpi_warrior_native_xray.Kcp.Connection.{
  Connection, link, write_all, ping, set_state, close, handle_option, on_peer_closed,
}
use dpi_warrior_native_xray.Kcp.Sending
use dpi_warrior_native_xray.Kcp.Transfer.{
  Readings, input_cmd_only, on_terminate, input_segment, input_all, check_idle, check_sent,
  flush_terminating, check_timeouts, flush_receiving, flush_sending, flush_ping, flush,
}

-- The states that may come after a state, at once or later.
abbrev pub can_become : State → State → Bool
can_become active t = true
can_become ready_to_close t = is_one_of t (ready_to_close ∷ terminating ∷ terminated ∷ [])
can_become peer_closed t =
    is_one_of t (peer_closed ∷ peer_terminating ∷ terminating ∷ terminated ∷ [])
can_become peer_terminating t = is_one_of t (peer_terminating ∷ terminating ∷ terminated ∷ [])
can_become terminating t = is_one_of t (terminating ∷ terminated ∷ [])
can_become terminated t = is_one_of t (terminated ∷ [])

pub can_become_refl : (s : State) → can_become s s ≡ true
can_become_refl active = refl
can_become_refl ready_to_close = refl
can_become_refl peer_closed = refl
can_become_refl terminating = refl
can_become_refl peer_terminating = refl
can_become_refl terminated = refl

pub can_become_trans :
    (s t u : State) → can_become s t ≡ true → can_become t u ≡ true → can_become s u ≡ true
can_become_trans s t u p q = ground arith

abbrev pub Follows : Connection → Connection → Type 0
Follows c c' = can_become c.state c'.state ≡ true

pub Follows-trans : (a b c : Connection) → Follows a b → Follows b c → Follows a c
Follows-trans a b c p q = can_become_trans a.state b.state c.state p q

pub Follows-same : (c c' : Connection) → c'.state ≡ c.state → Follows c c'
Follows-same c c' e = rw e (can_become_refl c.state)

pub state-set_state : (c : Connection) (now : ℕ) (s : State) → (set_state c now s).state ≡ s
unfolding set_state
state-set_state c now active = refl
state-set_state c now ready_to_close = refl
state-set_state c now peer_closed = refl
state-set_state c now terminating = refl
state-set_state c now peer_terminating = refl
state-set_state c now terminated = refl

pub close-Follows : (c : Connection) (now : ℕ) → Follows c (close c now).0
unfolding close
close-Follows c now = ground arith

pub on_peer_closed-Follows : (c : Connection) (now : ℕ) → Follows c (on_peer_closed c now)
unfolding on_peer_closed
on_peer_closed-Follows c now =
    ground (arith, state-set_state c now terminating, state-set_state c now peer_closed)

handle_option-Follows : (c : Connection) (now opt : ℕ) → Follows c (handle_option c now opt)
unfolding handle_option
handle_option-Follows c now opt =
    ground (arith, on_peer_closed-Follows c now, can_become_refl c.state)

pub on_terminate-Follows : (c : Connection) (now : ℕ) → Follows c (on_terminate c now)
unfolding on_terminate
on_terminate-Follows c now = ground (
  arith,
  state-set_state c now terminating,
  state-set_state c now terminated,
  state-set_state c now peer_terminating,
)

input_cmd_only-Follows :
    (c : Connection) (now : ℕ) (clock : ℕ → ℕ) (seg : CmdOnlySegment)
    → Follows c (input_cmd_only c now clock seg)
unfolding input_cmd_only
input_cmd_only-Follows c now clock seg =
    let c1 = handle_option c (clock 0) seg.option in
    let p = handle_option-Follows c (clock 0) seg.option in
    ground (
      arith,
      p,
      Follows-trans c c1 (on_terminate c1 (clock 1)) p (on_terminate-Follows c1 (clock 1)),
    )

input_segment-Follows :
    (c : Connection) (now : ℕ) (clock : ℕ → ℕ) (s : Segment)
    → Follows c (input_segment c now clock s)
unfolding input_segment
input_segment-Follows c now clock (data_segment s) = handle_option-Follows c (clock 0) s.option
input_segment-Follows c now clock (ack_segment s) = handle_option-Follows c (clock 0) s.option
input_segment-Follows c now clock (cmd_only_segment s) = input_cmd_only-Follows c now clock s

pub input_all-Follows :
    (c : Connection) (now : ℕ) (clock : ℕ → ℕ) (ss : List Segment)
    → Follows c (input_all c now clock ss)
unfolding input_all
input_all-Follows c now clock [] = can_become_refl c.state
input_all-Follows c now clock (s ∷ ss) =
    let c1 = input_segment c now clock s in
    let later = λ (i : ℕ). clock (i + 2) in
    ground (
      arith,
      can_become_refl c.state,
      Follows-trans c c1 (input_all c1 now later ss) (input_segment-Follows c now clock s)
          (input_all-Follows c1 now later ss),
    )

-- What a flush sends changes neither the state nor when it was entered.
abbrev pub Stays : Connection → Connection → Type 0
Stays c c' =
    (c'.state ≡ c.state)
    × (c'.state_begin_time ≡ c.state_begin_time)
    × (c'.last_incoming_time ≡ c.last_incoming_time)

pub ping-Stays : (c : Connection) (now cmd : ℕ) → Stays c (ping c now cmd)
unfolding ping
ping-Stays c now cmd = (refl, refl, refl)

flush_receiving-Stays : (c : Connection) (now : ℕ) → Stays c (flush_receiving c now)
unfolding flush_receiving write_all
flush_receiving-Stays c now = (refl, refl, refl)

flush_sending-Stays : (c : Connection) (now : ℕ) → Stays c (flush_sending c now)
unfolding flush_sending write_all ping
flush_sending-Stays c now = elim (Bool-cases (Sending.flush c.sending_worker now (link c)).2) [
  | inl u ↦ rw u (refl, refl, refl)
  | inr u ↦ rw u (refl, refl, refl)
]

flush_ping-Stays : (c : Connection) (now : ℕ) → Stays c (flush_ping c now)
unfolding flush_ping ping
flush_ping-Stays c now = elim (Bool-cases (leb 3000 (sub32 now c.last_ping_time))) [
  | inl u ↦ rw u (refl, refl, refl)
  | inr u ↦ rw u (refl, refl, refl)
]

-- The part of `flush` that acknowledges, sends and pings.
abbrev pub flush_rest : Connection → ℕ → Connection
flush_rest c now = flush_ping (flush_sending (flush_receiving c now) now) now

pub flush_rest-Stays : (c : Connection) (now : ℕ) → Stays c (flush_rest c now)
flush_rest-Stays c now =
    let a = flush_receiving c now in
    let b = flush_sending a now in
    let (p, q, r) = flush_receiving-Stays c now in
    let (p', q', r') = flush_sending-Stays a now in
    let (p'', q'', r'') = flush_ping-Stays b now in (p'' ∙ p' ∙ p, q'' ∙ q' ∙ q, r'' ∙ r' ∙ r)

pub check_idle-Follows : (c : Connection) (r : Readings) → Follows c (check_idle c r)
unfolding check_idle
check_idle-Follows c r = ground (arith, close-Follows c r.closing, can_become_refl c.state)

pub check_sent-Follows : (c : Connection) (r : Readings) → Follows c (check_sent c r)
unfolding check_sent
check_sent-Follows c r =
    ground (arith, can_become_refl c.state, state-set_state c r.sending terminating)

pub check_timeouts-Follows : (c : Connection) (r : Readings) → Follows c (check_timeouts c r)
unfolding check_timeouts
check_timeouts-Follows c r =
    ground (arith, can_become_refl c.state, state-set_state c r.ending terminating)

pub flush_terminating-Follows :
    (c : Connection) (r : Readings) → c.state ≡ terminating → Follows c (flush_terminating c r)
unfolding flush_terminating
flush_terminating-Follows c r e = ground (
  arith,
  ping-Stays c r.current command_terminate,
  state-set_state (ping c r.current command_terminate) r.ending terminated,
)

pub same→eq : (s t : State) → same s t ≡ true → s ≡ t
same→eq s t e = ground arith

pub flush-Follows : (c : Connection) (r : Readings) → Follows c (flush c r)
unfolding flush
flush-Follows c r =
    let c1 = check_idle c r in
    let c2 = check_sent c1 r in
    let f2 = Follows-trans c c1 c2 (check_idle-Follows c r) (check_sent-Follows c1 r) in
    let c3 = check_timeouts c2 r in
    let f3 = Follows-trans c c2 c3 f2 (check_timeouts-Follows c2 r) in
    elim (Bool-cases (same c.state terminated)) [
      | inl over ↦ rw over (can_become_refl c.state)
      | inr live ↦ elim (Bool-cases (same c2.state terminating)) [
        | inl ends ↦
            rw (live, ends)
              (Follows-trans c c2 (flush_terminating c2 r) f2
                (flush_terminating-Follows c2 r (same→eq c2.state terminating ends)))
        | inr goes_on ↦
            rw (live, goes_on)
              (Follows-trans c c3 (flush_rest c3 r.current) f3
                (Follows-same c3 (flush_rest c3 r.current) (flush_rest-Stays c3 r.current).0))
      ]
    ]
