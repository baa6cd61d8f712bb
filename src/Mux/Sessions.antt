-- ===== src/Mux/Sessions.antt =====
-- session.go: the sessions of one multiplexed connection.
-- Sessions are shared by pointers: `heap` holds every session that was made, and a pointer is a
-- position in it; `xudps` does the same for the `XUDP` objects. Each method is one step, since it holds
-- the lock. `stopped` tells that the input of a session was interrupted and its output closed; that
-- the reader of an XUDP session is stopped and then resumed is left out.
pub mod Sound
pub mod Closing
pub mod Allocation
mod Tests
use dpi_warrior_native_xray.Base.{nat_eq}
use dpi_warrior_native_xray.Base.{
  ℕ, ◌+◌, ◌%◌, ◌^◌, Bool, true, false, ◌&&◌, ◌||◌, Option, none, some, List, [], ◌∷◌, ◌++◌, ltb,
  leb, ◌==◌, if◌then◌else◌, length, find, erase, insert, get_elem?, modify,
}

pub data Status : Type 0 where
  initializing active expiring : Status

-- The eight bytes of `GlobalID` as a number; a time is in seconds.
pub record Xudp : Type 0 where
  pub global_id : ℕ
  pub status : Status
  pub expire : ℕ
  pub mux : ℕ

-- Its streams appear as `stopped` alone; its transfer type is not modelled.
pub record Session : Type 0 where
  pub id : ℕ
  pub closed : Bool
  pub stopped : Bool
  pub xudp : Option ℕ

-- `sessions` is the map from IDs to sessions.
pub record SessionManager : Type 0 where
  pub sessions : List (ℕ × ℕ)
  pub count : ℕ
  pub closed : Bool
  pub heap : List Session
  pub xudps : List Xudp

pub record ClientStrategy : Type 0 where
  pub max_concurrency : ℕ
  pub max_connection : ℕ

unfoldable pub new_session_manager : List Xudp → SessionManager
new_session_manager xudps = record {
  sessions = [];
  count = 0;
  closed = false;
  heap = [];
  xudps = xudps;
}

unfoldable pub size : SessionManager → ℕ
size m = length m.sessions

-- `uint16(Strategy.MaxConnection)`.
abbrev pub connection_limit : ClientStrategy → ℕ
connection_limit strategy = strategy.max_connection % 2 ^ 16

-- What `Allocate` refuses to serve. A limit of 0 is none.
unfoldable pub is_refused : SessionManager → ClientStrategy → Bool
unfolding size
is_refused m strategy =
    m.closed
    || ((ltb 0 strategy.max_concurrency && leb strategy.max_concurrency (size m))
        || (ltb 0 (connection_limit strategy) && leb (connection_limit strategy) m.count))

abbrev pub next_id : SessionManager → ℕ
next_id m = (m.count + 1) % 2 ^ 16

-- The result is the new session, or nil.
unfoldable pub allocate : SessionManager → ClientStrategy → SessionManager × Option ℕ
allocate m strategy =
    let s : Session = record { id = next_id m; closed = false; stopped = false; xudp = none } in
    if is_refused m strategy then (m, none) else (
      record m {
        count = next_id m;
        sessions = insert (next_id m) (length m.heap) m.sessions;
        heap = m.heap ++ (s ∷ []);
      },
      some (length m.heap),
    )

-- `Add(s)` of a session that was just made.
unfoldable pub add : SessionManager → Session → SessionManager × Bool
add m s =
    let made = record m { heap = m.heap ++ (s ∷ []) } in
    if m.closed then (made, false) else (
      record made { count = next_id m; sessions = insert s.id (length m.heap) m.sessions },
      true,
    )

unfoldable pub remove : SessionManager → ℕ → SessionManager
remove m id = if m.closed then m else record m { sessions = erase id m.sessions }

unfoldable pub get : SessionManager → ℕ → Option ℕ
get m id = if m.closed then none else find id m.sessions

unfoldable pub close_if_no_session : SessionManager → SessionManager × Bool
unfolding size
close_if_no_session m =
    if m.closed
    then (m, true)
    else if size m == 0
    then (record m { closed = true }, true)
    else (m, false)

-- An active XUDP has a minute to be taken up by another session.
unfoldable pub put_off : ℕ → Xudp → Xudp
put_off now x = elim x.status [ active ↦ record x { status = expiring; expire = now + 60 } | _ ↦ x ]

-- The marks of `Session.Close` on the session and its XUDP.
abbrev pub mark_closed : Session → Session
mark_closed s = record s {
  closed = true;
  stopped = elim s.xudp [ none ↦ true | some x ↦ s.stopped ];
}

unfoldable pub put_off_xudp : ℕ → Option ℕ → List Xudp → List Xudp
unfolding put_off
put_off_xudp now none xs = xs
put_off_xudp now (some x) xs = modify x (put_off now) xs

-- `Session.Close` of the session at an address.
unfoldable pub close_session : SessionManager → ℕ → ℕ → SessionManager
close_session m now a = elim (get_elem? m.heap a) [
  | none ↦ m
  | some s ↦
      if s.closed
      then m
      else remove
          (record m { heap = modify a mark_closed m.heap; xudps = put_off_xudp now s.xudp m.xudps })
          s.id
]

-- `for _, s := range m.sessions { s.Close(true) }`.
unfoldable pub close_all : SessionManager → ℕ → List (ℕ × ℕ) → SessionManager
close_all m now [] = m
close_all m now ((k, a) ∷ rest) = close_all (close_session m now a) now rest

unfoldable pub close : SessionManager → ℕ → SessionManager
close m now =
    if m.closed
    then m
    else record (close_all (record m { closed = true }) now m.sessions) { sessions = [] }

-- client.go, `IsClosing` and `IsFull` of a ClientWorker; `done` is `Closed()`.
unfoldable pub is_closing : SessionManager → ClientStrategy → Bool
is_closing m strategy = ltb 0 strategy.max_connection && leb strategy.max_connection m.count

unfoldable pub is_full : SessionManager → ClientStrategy → Bool → Bool
unfolding is_closing size
is_full m strategy done =
    if is_closing m strategy || done
    then true
    else ltb 0 strategy.max_concurrency && leb strategy.max_concurrency (size m)
