-- ===== src/Mux/Sessions/Sound.antt =====
-- What every method of the session manager keeps.
use mathlib.Core.Path.{subst}
use dpi_warrior_native_xray.Base.{nat_eq}
use dpi_warrior_native_xray.Base.{
  ℕ, ◌≡◌, refl, sym, ap, ◌∙◌, ◌≢◌, inl, inr, Bool, true, false, Option, none, some, List, [], ◌∷◌,
  ◌++◌, arith, ◌==◌, if◌then◌else◌, Bool-cases, Option-cases, length, eq_nil,
}
use dpi_warrior_native_xray.Base.{
  find, erase, insert, get_elem?, modify, find-erase, find-insert, some-injective, if-intro,
  get_elem?-append, get_elem?-last, get_elem?-modify_other,
}
use dpi_warrior_native_xray.Mux.Sessions.{
  Session, Xudp, SessionManager, ClientStrategy, new_session_manager, is_refused, next_id, allocate,
  add, remove, close_if_no_session, mark_closed, put_off_xudp, close_session, close_all, close,
  size,
}

-- The session under an ID: it is in the heap, has that ID and is not closed.
abbrev pub Live : List Session → ℕ → ℕ → Type 0
Live heap id a = (s : Session) × (get_elem? heap a ≡ some s) × (s.id ≡ id) × (s.closed ≡ false)

-- Every ID of the map leads to a live session with that ID.
abbrev pub AllLive : SessionManager → Type 0
AllLive m = (id a : ℕ) → find id m.sessions ≡ some a → Live m.heap id a

-- And a closed manager has none.
abbrev pub IsSound : SessionManager → Type 0
IsSound m = AllLive m × (m.closed ≡ true → m.sessions ≡ [])

Live-append :
    (heap : List Session) (t : Session) (id a : ℕ) → Live heap id a → Live (heap ++ (t ∷ [])) id a
Live-append heap t id a (s, e, i, o) = (s, get_elem?-append heap (t ∷ []) a s e, i, o)

-- A new session under its own ID.
AllLive-insert :
    (m : SessionManager) (s : Session) (count : ℕ)
    → s.closed ≡ false
    → AllLive m
    → AllLive (record m {
      count = count;
      sessions = insert s.id (length m.heap) m.sessions;
      heap = m.heap ++ (s ∷ []);
    })
AllLive-insert m s count opened live id a e =
    let f : (if s.id == id then some (length m.heap) else find id m.sessions) ≡ some a =
      sym (find-insert id s.id (length m.heap) m.sessions) ∙ e in
    elim (Bool-cases (s.id == id)) [
      | inl same ↦
          let same_id : s.id ≡ id = ground (arith, same) in
          let here : length m.heap ≡ a = ground (arith, f, same) in
          (
            s,
            subst (λ x. get_elem? (m.heap ++ (s ∷ [])) x ≡ some s) here (get_elem?-last m.heap s),
            same_id,
            opened,
          )
      | inr other ↦ Live-append m.heap s id a (live id a (ground (arith, f, other)))
    ]

new_session_manager-IsSound : (xs : List Xudp) → IsSound (new_session_manager xs)
unfolding new_session_manager find
new_session_manager-IsSound xs = (λ id a e. absurd (ground (arith, e)), λ c. refl)

none_found : (heap : List Session) (id a : ℕ) → find id [] ≡ some a → Live heap id a
unfolding find
none_found heap id a e = absurd (ground (arith, e))

-- The manager is open and stays so.
IsSound-opened : (m : SessionManager) → m.closed ≡ false → AllLive m → IsSound m
IsSound-opened m opened live = (live, λ c. absurd (ground (arith, c, opened)))

allocate-IsSound :
    (m : SessionManager) (strategy : ClientStrategy) → IsSound m → IsSound (allocate m strategy).0
unfolding allocate
allocate-IsSound m strategy sound =
    let s : Session = record { id = next_id m; closed = false; stopped = false; xudp = none } in
    let m' : SessionManager = record m {
      count = next_id m;
      sessions = insert (next_id m) (length m.heap) m.sessions;
      heap = m.heap ++ (s ∷ []);
    } in
    if-intro (λ (r : SessionManager × Option ℕ). IsSound r.0) (is_refused m strategy) (m, none)
      (m', some (length m.heap)) (λ refused. sound)
      (λ served.
        IsSound-opened m' (unfold is_refused in ground (arith, served))
          (AllLive-insert m s (next_id m) refl sound.0))

add-IsSound :
    (m : SessionManager) (s : Session) → s.closed ≡ false → IsSound m → IsSound (add m s).0
unfolding add
add-IsSound m s fresh (live, empty) =
    let made : SessionManager = record m { heap = m.heap ++ (s ∷ []) } in
    let m' : SessionManager = record made {
      count = next_id m;
      sessions = insert s.id (length m.heap) m.sessions;
    } in
    if-intro (λ (r : SessionManager × Bool). IsSound r.0) m.closed (made, false) (m', true)
      (λ closed. (λ id a e. Live-append m.heap s id a (live id a e), empty))
      (λ opened. IsSound-opened m' opened (AllLive-insert m s (next_id m) fresh live))

AllLive-erase :
    (m : SessionManager) (k : ℕ) → AllLive m → AllLive (record m { sessions = erase k m.sessions })
AllLive-erase m k live id a e =
    let f : (if k == id then none else find id m.sessions) ≡ some a =
      sym (find-erase id k m.sessions) ∙ e in
    live id a (ground (arith, f))

remove-IsSound : (m : SessionManager) (id : ℕ) → IsSound m → IsSound (remove m id)
unfolding remove
remove-IsSound m id sound =
    let m' : SessionManager = record m { sessions = erase id m.sessions } in
    if-intro IsSound m.closed m m' (λ closed. sound)
      (λ opened. IsSound-opened m' opened (AllLive-erase m id sound.0))

close_if_no_session-IsSound : (m : SessionManager) → IsSound m → IsSound (close_if_no_session m).0
unfolding close_if_no_session size
close_if_no_session-IsSound m sound =
    let P : SessionManager × Bool → Type 0 = λ r. IsSound r.0 in
    let m' : SessionManager × Bool = (record m { closed = true }, true) in
    let empty = length m.sessions == 0 in
    if-intro P m.closed (m, true) (if empty then m' else (m, false)) (λ closed. sound)
      (λ opened.
        if-intro P empty m' (m, false)
          (λ none_left. (sound.0, λ c. eq_nil m.sessions (ground (arith, none_left))))
          (λ some_left. sound))

-- Closing a session takes its own ID, and so its address, out of the map.
AllLive-close :
    (m : SessionManager) (a : ℕ) (s : Session) (xs : List Xudp)
    → get_elem? m.heap a ≡ some s
    → AllLive m
    → AllLive (record m {
      sessions = erase s.id m.sessions;
      heap = modify a mark_closed m.heap;
      xudps = xs;
    })
AllLive-close m a s xs here live id b e =
    let f : (if s.id == id then none else find id m.sessions) ≡ some b =
      sym (find-erase id s.id m.sessions) ∙ e in
    let g : find id m.sessions ≡ some b = ground (arith, f) in
    let other : s.id ≢ id = λ q. ground (arith, f, q) in
    let (t, at, its_id, still) = live id b g in
    let apart : a ≢ b = λ q.
      other (ap (λ x. x.id) (some-injective (sym here ∙ ap (get_elem? m.heap) q ∙ at)) ∙ its_id) in
    (t, get_elem?-modify_other m.heap a b mark_closed apart ∙ at, its_id, still)

-- A closed manager has nothing in its map, and so nothing to keep.
IsSound-closed : (m : SessionManager) → m.sessions ≡ [] → IsSound m
IsSound-closed m empty =
    (λ id a e. none_found m.heap id a (ap (find id) (sym empty) ∙ e), λ c. empty)

close_session-IsSound :
    (m : SessionManager) (now a : ℕ) → IsSound m → IsSound (close_session m now a)
unfolding close_session remove
close_session-IsSound m now a (live, empty) = elim (Option-cases (get_elem? m.heap a)) [
  | inl gone ↦ rw (gone, close_session) (live, empty)
  | inr (s, here) ↦
      let marked : SessionManager = record m {
        heap = modify a mark_closed m.heap;
        xudps = put_off_xudp now s.xudp m.xudps;
      } in
      let m' : SessionManager = record marked { sessions = erase s.id m.sessions } in
      rw (here, close_session, remove)
        (if-intro IsSound s.closed m (if m.closed then marked else m') (λ closed. (live, empty))
          (λ opened.
            if-intro IsSound m.closed marked m' (λ over. IsSound-closed marked (empty over))
              (λ going. IsSound-opened m' going (AllLive-close m a s marked.xudps here live))))
]

close-IsSound : (m : SessionManager) (now : ℕ) → IsSound m → IsSound (close m now)
unfolding close
close-IsSound m now sound =
    let m' : SessionManager = record (close_all (record m { closed = true }) now m.sessions) {
      sessions = [];
    } in
    if-intro IsSound m.closed m m' (λ closed. sound) (λ opened. IsSound-closed m' refl)

-- What may happen to a manager, whoever calls.
pub data Step : SessionManager → SessionManager → Type 0 where
  allocates : (m : SessionManager) (strategy : ClientStrategy) → Step m (allocate m strategy).0
  adds : (m : SessionManager) (s : Session) → s.closed ≡ false → Step m (add m s).0
  removes : (m : SessionManager) (id : ℕ) → Step m (remove m id)
  closes_session : (m : SessionManager) (now a : ℕ) → Step m (close_session m now a)
  closes_if_no_session : (m : SessionManager) → Step m (close_if_no_session m).0
  closes : (m : SessionManager) (now : ℕ) → Step m (close m now)

pub data Reach (m : SessionManager) : SessionManager → Type 0 where
  here : Reach m m
  next : {n k : SessionManager} → Reach m n → Step n k → Reach m k

Step-IsSound : {m n : SessionManager} → Step m n → IsSound m → IsSound n
Step-IsSound (allocates m strategy) = allocate-IsSound m strategy
Step-IsSound (adds m s fresh) = add-IsSound m s fresh
Step-IsSound (removes m id) = remove-IsSound m id
Step-IsSound (closes_session m now a) = close_session-IsSound m now a
Step-IsSound (closes_if_no_session m) = close_if_no_session-IsSound m
Step-IsSound (closes m now) = close-IsSound m now

-- Whatever is called on a fresh manager, in any order, and even when IDs come round and are used
-- again: each ID of its map leads to a session that has this ID and is not closed, and once the
-- manager is closed its map is empty.
pub Reach-IsSound :
    (xs : List Xudp) {m : SessionManager} → Reach (new_session_manager xs) m → IsSound m
Reach-IsSound xs here = new_session_manager-IsSound xs
Reach-IsSound xs (next r s) = Step-IsSound s (Reach-IsSound xs r)
