-- ===== src/Mux/Sessions/Allocation.antt =====
-- Which sessions are let in.
use dpi_warrior_native_xray.Base.{nat_eq}
use dpi_warrior_native_xray.Base.{
  ℕ, ◌%◌, ◌^◌, ◌≤◌, ◌<◌, ◌≡◌, refl, ◌≢◌, ◌⊎◌, inl, inr, true, false, Option, none, some, [], ◌∷◌,
  ◌++◌, arith, Bool-cases, length,
}
use dpi_warrior_native_xray.Base.{insert, get_elem?, find-insert, get_elem?-last, length-erase}
use dpi_warrior_native_xray.Mux.Sessions.{
  Session, SessionManager, ClientStrategy, connection_limit, is_refused, next_id, allocate, get,
  size, is_closing, is_full,
}

-- A manager that is closed, or has reached a limit.
abbrev pub Limits : SessionManager → ClientStrategy → Type 0
Limits m strategy =
    (m.closed ≡ true)
    ⊎ ((0 < strategy.max_concurrency) × (strategy.max_concurrency ≤ size m))
    ⊎ ((0 < connection_limit strategy) × (connection_limit strategy ≤ m.count))

is_refused-Limits :
    (m : SessionManager) (strategy : ClientStrategy)
    → is_refused m strategy ≡ true
    → Limits m strategy
unfolding is_refused
is_refused-Limits m strategy e = ground (arith, e)

served_no_Limits :
    (m : SessionManager) (strategy : ClientStrategy)
    → is_refused m strategy ≡ false
    → ¬ Limits m strategy
unfolding is_refused
served_no_Limits m strategy e l = ground (arith, e, l)

abbrev pub Allocated : SessionManager → ClientStrategy → SessionManager → Option ℕ → Type 0
Allocated m strategy m' r =
    (a : ℕ) × (r ≡ some a)
    × (get m' (next_id m) ≡ some a)
    × ((s : Session) × (get_elem? m'.heap a ≡ some s) × (s.closed ≡ false) × (s.id ≡ next_id m))
    × ((id : ℕ) → next_id m ≢ id → get m' id ≡ get m id)
    × (m'.count ≡ next_id m)
    × (0 < strategy.max_concurrency → size m' ≤ strategy.max_concurrency)

abbrev allocated : SessionManager → SessionManager
allocated m = record m {
  count = next_id m;
  sessions = insert (next_id m) (length m.heap) m.sessions;
  heap = m.heap ++ (record { id = next_id m; closed = false; stopped = false; xudp = none } ∷ []);
}

allocate_served :
    (m : SessionManager) (strategy : ClientStrategy)
    → is_refused m strategy ≡ false
    → allocate m strategy ≡ (allocated m, some (length m.heap))
unfolding allocate
allocate_served m strategy e = rw e refl

allocate_refused :
    (m : SessionManager) (strategy : ClientStrategy)
    → is_refused m strategy ≡ true
    → allocate m strategy ≡ (m, none)
unfolding allocate
allocate_refused m strategy e = rw e refl

allocated-Allocated :
    (m : SessionManager) (strategy : ClientStrategy)
    → is_refused m strategy ≡ false
    → Allocated m strategy (allocated m) (some (length m.heap))
unfolding is_refused get size insert
allocated-Allocated m strategy e =
    let a = length m.heap in
    let k = next_id m in
    let s : Session = record { id = k; closed = false; stopped = false; xudp = none } in
    let opened : m.closed ≡ false = ground (arith, e) in
    (
      a,
      refl,
      ground (arith, opened, find-insert k k a m.sessions),
      (s, get_elem?-last m.heap s, refl, refl),
      λ id other. ground (arith, opened, find-insert id k a m.sessions, other),
      refl,
      λ limited. ground (arith, e, limited, length-erase k m.sessions),
    )

-- What `Allocate` does with a request: it is refused, and nothing changes, if the manager is closed or
-- one of the limits is reached, where 0 is no limit and the limit of connections is taken in 16 bits;
-- otherwise the new session is open, the next number modulo 2 ^ 16 leads to it, every other ID leads
-- where it did, and a limit on the sessions at a time is kept.
pub allocate-cases :
    (m : SessionManager) (strategy : ClientStrategy)
    → (Limits m strategy × (allocate m strategy ≡ (m, none)))
      ⊎ ((¬ Limits m strategy)
          × Allocated m strategy (allocate m strategy).0 (allocate m strategy).1)
allocate-cases m strategy = elim (Bool-cases (is_refused m strategy)) [
  | inl refused ↦ inl (is_refused-Limits m strategy refused, allocate_refused m strategy refused)
  | inr served ↦ inr (
    served_no_Limits m strategy served,
    rw (allocate_served m strategy served) (allocated-Allocated m strategy served),
  )
]

-- A worker of the client that is not done refuses an allocation exactly if `IsFull` says that it is
-- full, provided that its manager is open and its limit of connections fits 16 bits.
pub is_refused-is_full :
    (m : SessionManager) (strategy : ClientStrategy)
    → m.closed ≡ false
    → strategy.max_connection < 2 ^ 16
    → is_refused m strategy ≡ is_full m strategy false
unfolding is_refused is_full is_closing
is_refused-is_full m strategy opened fits =
    let e : strategy.max_connection % 2 ^ 16 ≡ strategy.max_connection = omega arith in
    ground (arith, opened, e)
