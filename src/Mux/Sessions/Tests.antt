-- ===== src/Mux/Sessions/Tests.antt =====
-- The theorems on sessions at concrete inputs.
use dpi_warrior_native_xray.Base.{nat_eq}
use dpi_warrior_native_xray.Base.{
  ◌≡◌, refl, ◌⊎◌, true, false, none, List, [], ◌∷◌, arith, find, insert,
}
use dpi_warrior_native_xray.Mux.Sessions.{
  Session, Xudp, SessionManager, ClientStrategy, active, new_session_manager, is_refused, allocate,
  add, close_session, close, is_full,
}
use dpi_warrior_native_xray.Mux.Sessions.Sound.{
  IsSound, Reach, Reach-IsSound, here, next, allocates, closes_session,
}
use dpi_warrior_native_xray.Mux.Sessions.Closing.{IsClosed, close-closes}
use dpi_warrior_native_xray.Mux.Sessions.Allocation.{
  Limits, Allocated, allocate-cases, is_refused-is_full,
}

abbrev two_at_a_time : ClientStrategy
two_at_a_time = record { max_concurrency = 2; max_connection = 128 }

abbrev waiting : List Xudp
waiting = record { global_id = 5; status = active; expire = 0; mux = 0 } ∷ []

abbrev fresh : SessionManager
fresh = new_session_manager waiting

abbrev one_session : SessionManager
one_session = (allocate fresh two_at_a_time).0

abbrev one_session-Reach : Reach fresh one_session
one_session-Reach = next here (allocates fresh two_at_a_time)

Reach-IsSound_example : IsSound (close_session one_session 100 0)
Reach-IsSound_example =
    Reach-IsSound waiting (next one_session-Reach (closes_session one_session 100 0))

close-closes_example :
    IsClosed (close one_session 100).heap 0
    × ((close one_session 100).closed ≡ true)
    × ((close one_session 100).sessions ≡ [])
    × ((strategy : ClientStrategy) → (allocate (close one_session 100) strategy).1 ≡ none)
    × ((s : Session)
        → ((add (close one_session 100) s).1 ≡ false)
          × ((add (close one_session 100) s).0.sessions ≡ []))
close-closes_example =
    close-closes one_session 100 1 0 (Reach-IsSound waiting one_session-Reach)
      (unfold new_session_manager allocate is_refused insert find in refl)

allocate-cases_example :
    (Limits one_session two_at_a_time × (allocate one_session two_at_a_time ≡ (one_session, none)))
    ⊎ ((¬ Limits one_session two_at_a_time)
        × Allocated one_session two_at_a_time
            (allocate one_session two_at_a_time).0
            (allocate one_session two_at_a_time).1)
allocate-cases_example = allocate-cases one_session two_at_a_time

is_refused-is_full_example : is_refused fresh two_at_a_time ≡ is_full fresh two_at_a_time false
is_refused-is_full_example =
    is_refused-is_full fresh two_at_a_time (unfold new_session_manager in refl) (omega arith)
