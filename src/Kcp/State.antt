-- ===== src/Kcp/State.antt =====
-- connection.go, `State`: the states of a connection and the tests on them.
use dpi_warrior_native_xray.Base.{ℕ, Bool, true, false, List, [], ◌∷◌, ◌==◌, if◌then◌else◌}

-- The constants 0 to 5 of the source, in order.
pub data State : Type 0 where
  active ready_to_close peer_closed terminating peer_terminating terminated : State

abbrev pub code : State → ℕ
code active = 0
code ready_to_close = 1
code peer_closed = 2
code terminating = 3
code peer_terminating = 4
code terminated = 5

-- `s == t` on the numbers.
abbrev pub same : State → State → Bool
same s t = code s == code t

-- `State.Is`.
abbrev pub is_one_of : State → List State → Bool
is_one_of s [] = false
is_one_of s (t ∷ ts) = if same s t then true else is_one_of s ts
