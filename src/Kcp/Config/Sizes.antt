-- ===== src/Kcp/Config/Sizes.antt =====
-- The sizes that a checked configuration gives.
use dpi_warrior_native_xray.Base.{
  ℕ, ◌*◌, ◌/◌, ◌^◌, ◌≤◌, ◌<◌, ◌≡◌, inl, inr, Option, none, some, arith, ltb, if◌then◌else◌,
  Option-cases, mul32,
}
use dpi_warrior_native_xray.Kcp.Config.{
  Config, KcpConfig, value_or, get_mtu_value, get_tti_value, get_uplink_capacity_value,
  in_flight_size, get_sending_in_flight_size, get_receiving_in_flight_size, check_range, build,
}

-- The range of the two settings that `Build` checks.
abbrev pub IsChecked : Config → Type 0
IsChecked c =
    (576 ≤ get_mtu_value c)
    × (get_mtu_value c ≤ 1460)
    × (10 ≤ get_tti_value c)
    × (get_tti_value c ≤ 100)

-- The largest size that 32 bits of capacity, the smallest MTU and the largest TTI allow.
abbrev pub max_in_flight : ℕ
max_in_flight = 745654

div_bound : (x d : ℕ) → x < 2 ^ 32 → 576 ≤ d → x / d ≤ 7456540
div_bound x d h k = grind arith

in_flight_size_bounds :
    (capacity mtu tti : ℕ)
    → 576 ≤ mtu
    → 10 ≤ tti
    → tti ≤ 100
    → (n : ℕ) × (in_flight_size capacity mtu tti ≡ some n) × (8 ≤ n) × (n ≤ max_in_flight)
unfolding in_flight_size
in_flight_size_bounds capacity mtu tti hm lo hi =
    let x = mul32 (mul32 capacity 1024) 1024 in
    let ticks : 10 ≤ 1000 / tti = grind arith in
    let per : x / mtu ≤ 7456540 = div_bound x mtu (omega arith) hm in
    let q = x / mtu / (1000 / tti) in
    let size : q ≤ max_in_flight = grind arith in
    (if ltb q 8 then 8 else q, ground arith, ground arith, ground arith)

check_range-bounds :
    (o : Option ℕ) (lo hi d : ℕ) (r : Option ℕ)
    → lo ≤ d
    → d ≤ hi
    → check_range o lo hi ≡ some r
    → (lo ≤ value_or r d) × (value_or r d ≤ hi)
unfolding check_range
check_range-bounds none lo hi d r l h e = ground arith
check_range-bounds (some v) lo hi d r l h e = ground arith

build-IsChecked : (c : KcpConfig) (cfg : Config) → build c ≡ some cfg → IsChecked cfg
unfolding build
build-IsChecked c cfg e = elim (Option-cases (check_range c.mtu 576 1460)) [
  | inl bad ↦ absurd (cc (rw bad at e))
  | inr (m, em) ↦ elim (Option-cases (check_range c.tti 10 100)) [
    | inl bad ↦ absurd (cc (rw (em, bad) at e))
    | inr (t, et) ↦
        let (m1, m2) = check_range-bounds c.mtu 576 1460 1350 m (omega arith) (omega arith) em in
        let (t1, t2) = check_range-bounds c.tti 10 100 50 t (omega arith) (omega arith) et in
        let built = rw (em, et) at e in
        let same_mtu : m ≡ cfg.mtu = cc built in
        let same_tti : t ≡ cfg.tti = cc built in rw (← same_mtu, ← same_tti) (m1, m2, t1, t2)
  ]
]

-- A configuration that `Build` accepts computes both sizes of what may be in flight without a
-- division by zero, and they lie between 8 and 745654, so that neither twice the size nor twenty
-- times the size wraps in 32 bits.
pub build-in_flight_sizes :
    (c : KcpConfig) (cfg : Config)
    → build c ≡ some cfg
    → ((s : ℕ) × (get_sending_in_flight_size cfg ≡ some s) × (8 ≤ s) × (s ≤ max_in_flight))
      × ((r : ℕ) × (get_receiving_in_flight_size cfg ≡ some r) × (8 ≤ r) × (r ≤ max_in_flight))
unfolding get_sending_in_flight_size get_receiving_in_flight_size
build-in_flight_sizes c cfg e =
    let (m1, m2, t1, t2) = build-IsChecked c cfg e in
    (in_flight_size_bounds _ _ _ m1 t1 t2, in_flight_size_bounds _ _ _ m1 t1 t2)

-- An uplink capacity that is a multiple of 4096 MB/s wraps to nothing in 32 bits: the size of what may
-- be in flight is then the least one, 8, whatever the capacity.
pub sending_in_flight_wraps :
    (c : KcpConfig) (cfg : Config) (k : ℕ)
    → build c ≡ some cfg
    → get_uplink_capacity_value cfg ≡ 4096 * k
    → get_sending_in_flight_size cfg ≡ some 8
unfolding get_sending_in_flight_size in_flight_size
sending_in_flight_wraps c cfg k e u =
    let (m1, m2, t1, t2) = build-IsChecked c cfg e in
    let ticks : 10 ≤ 1000 / get_tti_value cfg = grind arith in
    let wrapped : mul32 (mul32 (4096 * k) 1024) 1024 ≡ 0 = omega arith in
    let none_per_mtu : 0 / get_mtu_value cfg ≡ 0 = grind arith in
    let none_per_tick : 0 / (1000 / get_tti_value cfg) ≡ 0 = grind arith in
    rw (u, wrapped) (ground arith)
