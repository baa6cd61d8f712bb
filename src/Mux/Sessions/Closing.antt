-- ===== src/Mux/Sessions/Closing.antt =====
-- What closing a session, and closing the manager, does to the sessions.
use dpi_warrior_native_xray.Base.{nat_eq}
use dpi_warrior_native_xray.Base.{
  ℕ, ◌≡◌, refl, sym, ap, ◌∙◌, ◌⊎◌, inl, inr, true, false, none, some, List, [], ◌∷◌, arith, ◌==◌,
  Bool-cases, Option-cases,
}
use dpi_warrior_native_xray.Base.{
  find, get_elem?, modify, if-intro, get_elem?-modify, get_elem?-modify_other,
}
use dpi_warrior_native_xray.Mux.Sessions.{
  Session, SessionManager, ClientStrategy, is_refused, allocate, add, remove, mark_closed,
  put_off_xudp, close_session, close_all, close,
}
use dpi_warrior_native_xray.Mux.Sessions.Sound.{IsSound}

-- A session is marked as closed, and its input was interrupted and its output closed, unless it is one
-- of an XUDP, which another session may take up.
abbrev IsEnded : Session → Type 0
IsEnded s = (s.closed ≡ true) × ((s.stopped ≡ true) ⊎ ((x : ℕ) × (s.xudp ≡ some x)))

abbrev pub IsClosed : List Session → ℕ → Type 0
IsClosed heap a = (s : Session) × (get_elem? heap a ≡ some s) × IsEnded s

-- A session that was not closed yet, or in the way above.
abbrev IsMade : List Session → ℕ → Type 0
IsMade heap a = (s : Session) × (get_elem? heap a ≡ some s) × ((s.closed ≡ false) ⊎ IsEnded s)

mark_closed-IsEnded : (s : Session) → IsEnded (mark_closed s)
mark_closed-IsEnded s = elim (Option-cases s.xudp) [
  | inl e ↦ (refl, inl (rw e refl))
  | inr (x, e) ↦ (refl, inr (x, e))
]

modify-IsClosed :
    (heap : List Session) (a b : ℕ) → IsClosed heap b → IsClosed (modify a mark_closed heap) b
modify-IsClosed heap a b (s, e, c) = elim (Bool-cases (a == b)) [
  | inl same ↦
      let q : a ≡ b = ground (arith, same) in
      (mark_closed s, rw q (get_elem?-modify heap b mark_closed s e), mark_closed-IsEnded s)
  | inr other ↦
      (s, get_elem?-modify_other heap a b mark_closed (λ q. ground (arith, other, q)) ∙ e, c)
]

modify-IsMade :
    (heap : List Session) (a b : ℕ) → IsMade heap b → IsMade (modify a mark_closed heap) b
modify-IsMade heap a b (s, e, c) = elim (Bool-cases (a == b)) [
  | inl same ↦
      let q : a ≡ b = ground (arith, same) in
      (mark_closed s, rw q (get_elem?-modify heap b mark_closed s e), inr (mark_closed-IsEnded s))
  | inr other ↦
      (s, get_elem?-modify_other heap a b mark_closed (λ q. ground (arith, other, q)) ∙ e, c)
]

heap-remove : (m : SessionManager) (id : ℕ) → (remove m id).heap ≡ m.heap
unfolding remove
heap-remove m id = ground arith

-- A call leaves the heap, or marks the session.
heap-close_session :
    (m : SessionManager) (now a : ℕ)
    → ((close_session m now a).heap ≡ modify a mark_closed m.heap)
      ⊎ (((close_session m now a).heap ≡ m.heap) × (IsMade m.heap a → IsClosed m.heap a))
unfolding close_session
heap-close_session m now a = elim (Option-cases (get_elem? m.heap a)) [
  | inl gone ↦ inr (rw (gone, close_session) refl, λ (s, e, c). absurd (ground (arith, gone, e)))
  | inr (s, here) ↦ elim (Bool-cases s.closed) [
    | inl closed ↦ inr (
      ground (arith, here, closed),
      λ (t, e, c). elim c [
        | inl o ↦ absurd (ground (arith, here, closed, e, o))
        | inr ended ↦ (t, e, ended)
      ],
    )
    | inr opened ↦ inl (
        ground (
          arith,
          here,
          opened,
          heap-remove
              (record m {
                heap = modify a mark_closed m.heap;
                xudps = put_off_xudp now s.xudp m.xudps;
              })
              s.id,
        ))
  ]
]

close_session-IsClosed :
    (m : SessionManager) (now a b : ℕ) → IsClosed m.heap b → IsClosed (close_session m now a).heap b
close_session-IsClosed m now a b c = elim (heap-close_session m now a) [
  | inl marked ↦ rw marked (modify-IsClosed m.heap a b c)
  | inr (same, k) ↦ rw same c
]

close_session-IsMade :
    (m : SessionManager) (now a b : ℕ) → IsMade m.heap b → IsMade (close_session m now a).heap b
close_session-IsMade m now a b c = elim (heap-close_session m now a) [
  | inl marked ↦ rw marked (modify-IsMade m.heap a b c)
  | inr (same, k) ↦ rw same c
]

close_session-closes :
    (m : SessionManager) (now a : ℕ) → IsMade m.heap a → IsClosed (close_session m now a).heap a
close_session-closes m now a (s, e, c) = elim (heap-close_session m now a) [
  | inl marked ↦
      rw marked (mark_closed s, get_elem?-modify m.heap a mark_closed s e, mark_closed-IsEnded s)
  | inr (same, k) ↦ rw same (k (s, e, c))
]

close_all-IsClosed :
    (m : SessionManager) (now : ℕ) (ss : List (ℕ × ℕ)) (b : ℕ)
    → IsClosed m.heap b
    → IsClosed (close_all m now ss).heap b
unfolding close_all
close_all-IsClosed m now [] b c = c
close_all-IsClosed m now ((k, a) ∷ ss) b c =
    close_all-IsClosed (close_session m now a) now ss b (close_session-IsClosed m now a b c)

close_all-closes :
    (m : SessionManager) (now : ℕ) (ss : List (ℕ × ℕ)) (id b : ℕ)
    → find id ss ≡ some b
    → IsMade m.heap b
    → IsClosed (close_all m now ss).heap b
unfolding close_all find
close_all-closes m now [] id b f made = absurd (ground (arith, f))
close_all-closes m now ((k, a) ∷ ss) id b f made = elim (Bool-cases (k == id)) [
  | inl same ↦
      let q : a ≡ b = ground (arith, same, f) in
      close_all-IsClosed (close_session m now a) now ss b (rw q (close_session-closes m now b made))
  | inr other ↦
      close_all-closes (close_session m now a) now ss id b (ground (arith, other, f))
        (close_session-IsMade m now a b made)
]

closed-close_session : (m : SessionManager) (now a : ℕ) → (close_session m now a).closed ≡ m.closed
unfolding close_session remove
closed-close_session m now a = ground arith

closed-close_all :
    (m : SessionManager) (now : ℕ) (ss : List (ℕ × ℕ)) → (close_all m now ss).closed ≡ m.closed
unfolding close_all
closed-close_all m now [] = refl
closed-close_all m now ((k, a) ∷ ss) =
    closed-close_all (close_session m now a) now ss ∙ closed-close_session m now a

allocate_closed :
    (m : SessionManager) (strategy : ClientStrategy)
    → m.closed ≡ true
    → (allocate m strategy).1 ≡ none
unfolding allocate is_refused
allocate_closed m strategy c = ground (arith, c)

add_closed :
    (m : SessionManager) (s : Session)
    → m.closed ≡ true
    → ((add m s).1 ≡ false) × ((add m s).0.sessions ≡ m.sessions)
unfolding add
add_closed m s c = rw (c, add) (refl, refl)

find_nil : (id a : ℕ) → find id [] ≡ some a → ⊥
unfolding find
find_nil id a e = ground (arith, e)

close_open :
    (m : SessionManager) (now : ℕ)
    → m.closed ≡ false
    → close m now ≡ record (close_all (record m { closed = true }) now m.sessions) { sessions = [] }
unfolding close
close_open m now o =
    let m' : SessionManager = record (close_all (record m { closed = true }) now m.sessions) {
      sessions = [];
    } in
    if-intro (λ r. r ≡ m') m.closed m m' (λ c. absurd (ground (arith, c, o))) (λ opened. refl)

-- Closing a manager closes each session that an ID led to, with its input and output unless it is one of
-- an XUDP, empties the map, and lets no session in again: `Allocate` gives none, and `Add` refuses each.
-- Assumed is the invariant that every reachable manager has.
pub close-closes :
    (m : SessionManager) (now id a : ℕ)
    → IsSound m
    → find id m.sessions ≡ some a
    → IsClosed (close m now).heap a
      × ((close m now).closed ≡ true)
      × ((close m now).sessions ≡ [])
      × ((strategy : ClientStrategy) → (allocate (close m now) strategy).1 ≡ none)
      × ((s : Session)
          → ((add (close m now) s).1 ≡ false) × ((add (close m now) s).0.sessions ≡ []))
close-closes m now id a (live, empty) f =
    let shut : SessionManager = record m { closed = true } in
    let all : SessionManager = close_all shut now m.sessions in
    let (s, at, its_id, still) = live id a f in
    let open_now : m.closed ≡ false = elim (Bool-cases m.closed) [
      | inl c ↦ absurd (find_nil id a (ap (find id) (sym (empty c)) ∙ f))
      | inr o ↦ o
    ] in
    let e : close m now ≡ record all { sessions = [] } = close_open m now open_now in
    rw e (
      close_all-closes shut now m.sessions id a f (s, at, inl still),
      closed-close_all shut now m.sessions,
      refl,
      λ strategy.
          allocate_closed (record all { sessions = [] }) strategy
            (closed-close_all shut now m.sessions),
      λ t. add_closed (record all { sessions = [] }) t (closed-close_all shut now m.sessions),
    )
