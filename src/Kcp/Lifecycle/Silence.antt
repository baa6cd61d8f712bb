-- ===== src/Kcp/Lifecycle/Silence.antt =====
-- That a connection ends whose peer is silent: runs of flushes, as the two updaters make them.
use dpi_warrior_native_xray.Base.{
  ℕ, ◌+◌, ◌^◌, ◌≤◌, ◌<◌, ◌≡◌, refl, ap, ◌∙◌, ◌≢◌, Bool, List, [], ◌∷◌, ◌++◌, arith, sub32,
}
use dpi_warrior_native_xray.Kcp.State.{
  State, active, ready_to_close, peer_closed, terminating, peer_terminating, terminated,
}
use dpi_warrior_native_xray.Kcp.Connection.{Connection}
use dpi_warrior_native_xray.Kcp.Transfer.{Readings, flush}
use dpi_warrior_native_xray.Kcp.Lifecycle.Timeouts.{all_sent, after_flush, state-flush}

-- Flushes, one after another, each with its readings of the clock.
abbrev pub flush_all : Connection → List Readings → Connection
flush_all c [] = c
flush_all c (r ∷ rs) = flush_all (flush c r) rs

-- The readings of one flush come in their order, after a time and before the clock wraps.
abbrev pub IsAfter : ℕ → Readings → Type 0
IsAfter t r =
    (t ≤ r.current)
    × (r.current ≤ r.closing)
    × (r.closing ≤ r.sending)
    × (r.sending ≤ r.ending)
    × (r.ending < 2 ^ 32)

abbrev pub InOrder : ℕ → List Readings → Type 0
InOrder t [] = Unit {0}
InOrder t (r ∷ rs) = IsAfter t r × InOrder r.ending rs

-- A predicate on the time, the state, and when that was entered, which flushes keep.
abbrev Kept : (ℕ → State → ℕ → Type 0) → Type 0
Kept P =
    (t : ℕ) (s : State) (begin : ℕ) (r : Readings) (quiet : ℕ) (sent : Bool)
    → IsAfter t r
    → P t s begin
    → P r.ending (after_flush s r begin quiet sent).0 (after_flush s r begin quiet sent).1

-- What such a predicate and the last packet are after flushes, with the flushes that are left.
abbrev After : (ℕ → State → ℕ → Type 0) → ℕ → Connection → List Readings → Type 0
After P l c rs =
    (t : ℕ) × InOrder t rs × P t c.state c.state_begin_time × (c.last_incoming_time ≡ l)

flush-After :
    (P Q : ℕ → State → ℕ → Type 0) (l : ℕ) (c : Connection) (r : Readings) (rs : List Readings)
    → ((t : ℕ) (s : State) (begin : ℕ) (sent : Bool)
        → IsAfter t r
        → P t s begin
        → Q r.ending
            (after_flush s r begin (sub32 r.current l) sent).0
            (after_flush s r begin (sub32 r.current l) sent).1)
    → After P l c (r ∷ rs)
    → After Q l (flush c r) rs
flush-After P Q l c r rs step (t, (o, os), p, e) =
    let (s, b, n) = state-flush c r in
    (r.ending, os, rw (s, b, e) (step t c.state c.state_begin_time (all_sent c) o p), rw n e)

flush_all-After :
    (P : ℕ → State → ℕ → Type 0) (l : ℕ) (c : Connection) (rs more : List Readings)
    → Kept P
    → After P l c (rs ++ more)
    → After P l (flush_all c rs) more
flush_all-After P l c [] more k a = a
flush_all-After P l c (r ∷ rs) more k a = flush_all-After P l (flush c r) rs more k (
    flush-After P P l c r (rs ++ more) (λ t s b sent o p. k t s b r (sub32 r.current l) sent o p) a)

-- The state at first, and the three that follow: the connection waits to end since a time `u` at the
-- latest, it terminates since `u` at the latest, it is terminated.
abbrev Lives : ℕ → State → ℕ → Type 0
Lives t s begin = (s ≢ peer_closed) × (begin ≤ t)

abbrev Waits : ℕ → ℕ → State → ℕ → Type 0
Waits u t active begin = ⊥
Waits u t ready_to_close begin = begin ≤ u
Waits u t peer_closed begin = ⊥
Waits u t terminating begin = begin ≤ t
Waits u t peer_terminating begin = begin ≤ u
Waits u t terminated begin = Unit {0}

abbrev Terminates : ℕ → ℕ → State → ℕ → Type 0
Terminates u t terminating begin = begin ≤ u
Terminates u t terminated begin = Unit {0}
Terminates u t _ begin = ⊥

abbrev IsOver : ℕ → State → ℕ → Type 0
IsOver t s begin = s ≡ terminated

Lives-Kept : Kept Lives
Lives-Kept t active begin r quiet sent o p = ground (arith, o, p)
Lives-Kept t ready_to_close begin r quiet sent o p = ground (arith, o, p)
Lives-Kept t peer_closed begin r quiet sent o p = absurd (p.0 refl)
Lives-Kept t terminating begin r quiet sent o p = ground (arith, o, p)
Lives-Kept t peer_terminating begin r quiet sent o p = ground (arith, o, p)
Lives-Kept t terminated begin r quiet sent o p = ground (arith, o, p)

Waits-Kept : (u : ℕ) → Kept (Waits u)
Waits-Kept u t active begin r quiet sent o p = absurd p
Waits-Kept u t ready_to_close begin r quiet sent o p = ground (arith, o, p)
Waits-Kept u t peer_closed begin r quiet sent o p = absurd p
Waits-Kept u t terminating begin r quiet sent o p = ground (arith, o, p)
Waits-Kept u t peer_terminating begin r quiet sent o p = ground (arith, o, p)
Waits-Kept u t terminated begin r quiet sent o p = tt

Terminates-Kept : (u : ℕ) → Kept (Terminates u)
Terminates-Kept u t active begin r quiet sent o p = absurd p
Terminates-Kept u t ready_to_close begin r quiet sent o p = absurd p
Terminates-Kept u t peer_closed begin r quiet sent o p = absurd p
Terminates-Kept u t terminating begin r quiet sent o p = ground (arith, o, p)
Terminates-Kept u t peer_terminating begin r quiet sent o p = absurd p
Terminates-Kept u t terminated begin r quiet sent o p = tt

IsOver-Kept : Kept IsOver
IsOver-Kept t s begin r quiet sent o p = rw p refl

-- A flush 30 seconds after the last packet, one 15 seconds after the wait began, and one 8 seconds
-- after the connection began to terminate.
Lives-Waits :
    (l t : ℕ) (s : State) (begin : ℕ) (r : Readings) (sent : Bool)
    → l + 30000 ≤ r.current
    → IsAfter t r
    → Lives t s begin
    → Waits r.ending r.ending
        (after_flush s r begin (sub32 r.current l) sent).0
        (after_flush s r begin (sub32 r.current l) sent).1
Lives-Waits l t active begin r sent q o p = ground (arith, q, o, p)
Lives-Waits l t ready_to_close begin r sent q o p = ground (arith, o, p)
Lives-Waits l t peer_closed begin r sent q o p = absurd (p.0 refl)
Lives-Waits l t terminating begin r sent q o p = ground (arith, o, p)
Lives-Waits l t peer_terminating begin r sent q o p = ground (arith, o, p)
Lives-Waits l t terminated begin r sent q o p = tt

Waits-Terminates :
    (u l t : ℕ) (s : State) (begin : ℕ) (r : Readings) (sent : Bool)
    → u + 15000 < r.current
    → IsAfter t r
    → Waits u t s begin
    → Terminates r.ending r.ending
        (after_flush s r begin (sub32 r.current l) sent).0
        (after_flush s r begin (sub32 r.current l) sent).1
Waits-Terminates u l t active begin r sent q o p = absurd p
Waits-Terminates u l t ready_to_close begin r sent q o p = ground (arith, q, o, p)
Waits-Terminates u l t peer_closed begin r sent q o p = absurd p
Waits-Terminates u l t terminating begin r sent q o p = ground (arith, o, p)
Waits-Terminates u l t peer_terminating begin r sent q o p = ground (arith, q, o, p)
Waits-Terminates u l t terminated begin r sent q o p = tt

Terminates-IsOver :
    (u l t : ℕ) (s : State) (begin : ℕ) (r : Readings) (sent : Bool)
    → u + 8000 < r.current
    → IsAfter t r
    → Terminates u t s begin
    → IsOver r.ending
        (after_flush s r begin (sub32 r.current l) sent).0
        (after_flush s r begin (sub32 r.current l) sent).1
Terminates-IsOver u l t active begin r sent q o p = absurd p
Terminates-IsOver u l t ready_to_close begin r sent q o p = absurd p
Terminates-IsOver u l t peer_closed begin r sent q o p = absurd p
Terminates-IsOver u l t terminating begin r sent q o p = ground (arith, q, o, p)
Terminates-IsOver u l t peer_terminating begin r sent q o p = absurd p
Terminates-IsOver u l t terminated begin r sent q o p = refl

flush_all-over :
    (c : Connection) (rs : List Readings)
    → c.state ≡ terminated
    → (flush_all c rs).state ≡ terminated
flush_all-over c [] e = e
flush_all-over c (r ∷ rs) e = flush_all-over (flush c r) rs ((state-flush c r).0 ∙ rw e refl)

flush_all-append :
    (c : Connection) (rs more : List Readings)
    → flush_all c (rs ++ more) ≡ flush_all (flush_all c rs) more
flush_all-append c [] more = refl
flush_all-append c (r ∷ rs) more = flush_all-append (flush c r) rs more

-- Time alone ends a connection whose peer is silent, in any state but that of a peer that closed it, over
-- any run of flushes, however many and however close to each other, that has one 30 seconds or more
-- after the last packet, a later one more than 15 seconds after that one, and a later one more than 8
-- seconds after the second. Assumed is that the readings of the clock come in order and before it wraps
-- around, none before the state was entered. No other call changes the state in such a run.
pub silent_connection_ends :
    (c : Connection) (before between then_on after : List Readings) (a b d : Readings)
    → c.state ≢ peer_closed
    → InOrder c.state_begin_time (before ++ (a ∷ (between ++ (b ∷ (then_on ++ (d ∷ after))))))
    → c.last_incoming_time + 30000 ≤ a.current
    → a.ending + 15000 < b.current
    → b.ending + 8000 < d.current
    → (flush_all c (before ++ (a ∷ (between ++ (b ∷ (then_on ++ (d ∷ after))))))).state ≡ terminated
silent_connection_ends c before between then_on after a b d ne o quiet later last =
    let l = c.last_incoming_time in
    let rest2 = then_on ++ (d ∷ after) in
    let rest1 = between ++ (b ∷ rest2) in
    let c0 = flush_all c before in
    let p0 =
      flush_all-After Lives l c before (a ∷ rest1) Lives-Kept
        (c.state_begin_time, o, (ne, omega arith), refl) in
    let c1 = flush c0 a in
    let p1 =
      flush-After Lives (Waits a.ending) l c0 a rest1
        (λ t s begin sent o' p. Lives-Waits l t s begin a sent quiet o' p) p0 in
    let c2 = flush_all c1 between in
    let p2 = flush_all-After (Waits a.ending) l c1 between (b ∷ rest2) (Waits-Kept a.ending) p1 in
    let c3 = flush c2 b in
    let p3 =
      flush-After (Waits a.ending) (Terminates b.ending) l c2 b rest2
        (λ t s begin sent o' p. Waits-Terminates a.ending l t s begin b sent later o' p) p2 in
    let c4 = flush_all c3 then_on in
    let p4 =
      flush_all-After (Terminates b.ending) l c3 then_on (d ∷ after) (Terminates-Kept b.ending)
        p3 in
    let p5 =
      flush-After (Terminates b.ending) IsOver l c4 d after
        (λ t s begin sent o' p. Terminates-IsOver b.ending l t s begin d sent last o' p) p4 in
    ap (λ q. q.state)
      (flush_all-append c before (a ∷ rest1)
        ∙ flush_all-append c1 between (b ∷ rest2)
        ∙ flush_all-append c3 then_on (d ∷ after))
    ∙ flush_all-over (flush c4 d) after p5.2
