-- ===== src/Kcp/Lifecycle/Races.antt =====
-- The state of a connection when its methods run at once. A connection holds no lock: a method reads the
-- state, and what it sets by `SetState` follows from what it read, which another goroutine may have
-- changed in between.
use dpi_warrior_native_xray.Base.{ℕ, ◌≡◌, ◌∙◌, sym, ap, ◌⊎◌, inl, inr, true, List, [], ◌∷◌, All}
use dpi_warrior_native_xray.Kcp.State.{State, terminating}
use dpi_warrior_native_xray.Kcp.Connection.{Connection, set_state, close, on_peer_closed}
use dpi_warrior_native_xray.Kcp.Transfer.{
  Readings, on_terminate, check_idle, check_sent, flush_terminating, check_timeouts,
}
use dpi_warrior_native_xray.Kcp.Lifecycle.{
  can_become, can_become_refl, can_become_trans, Follows, state-set_state, close-Follows,
  on_peer_closed-Follows, on_terminate-Follows, check_idle-Follows, check_sent-Follows,
  flush_terminating-Follows, check_timeouts-Follows,
}

-- The states that the parts of the methods set when they have read a state: what they do to a
-- connection that is in it. They are all the callers of `SetState`.
pub data Sets (s : State) : State → Type 0 where
  closes : (c : Connection) (now : ℕ) → c.state ≡ s → Sets s (close c now).0.state
  peer_closes : (c : Connection) (now : ℕ) → c.state ≡ s → Sets s (on_peer_closed c now).state
  peer_terminates : (c : Connection) (now : ℕ) → c.state ≡ s → Sets s (on_terminate c now).state
  is_idle : (c : Connection) (r : Readings) → c.state ≡ s → Sets s (check_idle c r).state
  has_sent : (c : Connection) (r : Readings) → c.state ≡ s → Sets s (check_sent c r).state
  times_out : (c : Connection) (r : Readings) → c.state ≡ s → Sets s (check_timeouts c r).state
  terminates :
      (c : Connection) (r : Readings)
      → c.state ≡ s
      → s ≡ terminating
      → Sets s (flush_terminating c r).state

-- A connection, and the states that the methods under way have read of it.
pub record Shared : Type 0 where
  pub connection : Connection
  pub seen : List State

abbrev pub Saw : State → List State → Type 0
Saw s [] = ⊥
Saw s (t ∷ ts) = (t ≡ s) ⊎ Saw s ts

-- One access to the state, of any of the goroutines, or something that leaves the state alone.
pub data Step : Shared → Shared → Type 0 where
  reads : (m : Shared) → Step m (record m { seen = m.connection.state ∷ m.seen })
  sets :
      (m : Shared) (s t : State) (now : ℕ)
      → Saw s m.seen
      → Sets s t
      → Step m (record m { connection = set_state m.connection now t })
  works :
      (m : Shared) (c : Connection)
      → c.state ≡ m.connection.state
      → Step m (record m { connection = c })

pub data Reach (m : Shared) : Shared → Type 0 where
  here : Reach m m
  next : {d e : Shared} → Reach m d → Step d e → Reach m e

Sets-can_become : {s t : State} → Sets s t → can_become s t ≡ true
Sets-can_become (closes c now e) =
    ap (λ x. can_become x (close c now).0.state) (sym e) ∙ close-Follows c now
Sets-can_become (peer_closes c now e) =
    ap (λ x. can_become x (on_peer_closed c now).state) (sym e) ∙ on_peer_closed-Follows c now
Sets-can_become (peer_terminates c now e) =
    ap (λ x. can_become x (on_terminate c now).state) (sym e) ∙ on_terminate-Follows c now
Sets-can_become (is_idle c r e) =
    ap (λ x. can_become x (check_idle c r).state) (sym e) ∙ check_idle-Follows c r
Sets-can_become (has_sent c r e) =
    ap (λ x. can_become x (check_sent c r).state) (sym e) ∙ check_sent-Follows c r
Sets-can_become (times_out c r e) =
    ap (λ x. can_become x (check_timeouts c r).state) (sym e) ∙ check_timeouts-Follows c r
Sets-can_become (terminates c r e t) =
    ap (λ x. can_become x (flush_terminating c r).state) (sym e)
    ∙ flush_terminating-Follows c r (e ∙ t)

-- The state, and all that the methods under way have read, come after a state.
abbrev AllFollow : State → Shared → Type 0
AllFollow s0 m =
    (can_become s0 m.connection.state ≡ true) × All (λ s. can_become s0 s ≡ true) m.seen

Saw-follows :
    (s0 s : State) (seen : List State)
    → All (λ t. can_become s0 t ≡ true) seen
    → Saw s seen
    → can_become s0 s ≡ true
Saw-follows s0 s [] a m = absurd m
Saw-follows s0 s (t ∷ seen) a (inl e) = ap (λ x. can_become s0 x) (sym e) ∙ a.0
Saw-follows s0 s (t ∷ seen) a (inr m) = Saw-follows s0 s seen a.1 m

Step-AllFollow : (s0 : State) {m n : Shared} → Step m n → AllFollow s0 m → AllFollow s0 n
Step-AllFollow s0 (reads m) a = (a.0, (a.0, a.1))
Step-AllFollow s0 (sets m s t now saw d) a =
    let f = can_become_trans s0 s t (Saw-follows s0 s m.seen a.1 saw) (Sets-can_become d) in
    (ap (λ x. can_become s0 x) (state-set_state m.connection now t) ∙ f, a.1)
Step-AllFollow s0 (works m c e) a = (ap (λ x. can_become s0 x) e ∙ a.0, a.1)

Reach-AllFollow : {m n : Shared} (s0 : State) → Reach m n → AllFollow s0 m → AllFollow s0 n
Reach-AllFollow s0 here a = a
Reach-AllFollow s0 (next r st) a = Step-AllFollow s0 st (Reach-AllFollow s0 r a)

-- However the goroutines interleave their accesses to the state, from a moment on at which no method is
-- under way: the state is one that may come after the state of that moment. A connection closed on this
-- side by then never becomes active again nor takes the peer's states, one closed by the peer never
-- becomes active or merely ready to close, a terminating one only ends, and an ended one stays so.
pub Reach_shared-Follows :
    (m n : Shared) → Reach m n → m.seen ≡ [] → Follows m.connection n.connection
Reach_shared-Follows m n r e =
    let start : AllFollow m.connection.state m = (can_become_refl m.connection.state, rw e tt) in
    (Reach-AllFollow m.connection.state r start).0
