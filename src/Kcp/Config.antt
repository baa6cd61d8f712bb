-- ===== src/Kcp/Config.antt =====
-- config.go and the checks of KCPConfig.Build (source/xray-core/infra/conf/transport_internet.go): the
-- settings of mKCP and the sizes computed from them in 32 bits.
-- A message of the configuration that is not set is `none`; a nil `*Config` reads like one with
-- nothing set. The header and the seed are not part of the model.
pub mod Sizes
use dpi_warrior_native_xray.Base.{
  ℕ, ◌*◌, ◌/◌, Bool, false, ◌||◌, Option, none, some, ltb, ◌==◌, if◌then◌else◌, mul32, ◌>>=◌,
}

pub record Config : Type 0 where
  pub mtu : Option ℕ
  pub tti : Option ℕ
  pub uplink_capacity : Option ℕ
  pub downlink_capacity : Option ℕ
  pub write_buffer : Option ℕ
  pub read_buffer : Option ℕ
  pub congestion : Bool

abbrev pub value_or : Option ℕ → ℕ → ℕ
value_or none d = d
value_or (some v) d = v

abbrev pub get_mtu_value : Config → ℕ
get_mtu_value c = value_or c.mtu 1350

abbrev pub get_tti_value : Config → ℕ
get_tti_value c = value_or c.tti 50

abbrev pub get_uplink_capacity_value : Config → ℕ
get_uplink_capacity_value c = value_or c.uplink_capacity 5

abbrev pub get_downlink_capacity_value : Config → ℕ
get_downlink_capacity_value c = value_or c.downlink_capacity 20

abbrev pub get_write_buffer_size : Config → ℕ
get_write_buffer_size c = value_or c.write_buffer (2 * 1024 * 1024)

abbrev pub get_read_buffer_size : Config → ℕ
get_read_buffer_size c = value_or c.read_buffer (2 * 1024 * 1024)

-- An integer division, which panics at 0.
abbrev pub divide : ℕ → ℕ → Option ℕ
divide a b = if b == 0 then none else some (a / b)

-- `capacity * 1024 * 1024 / mtu / (1000 / tti)`, and 8 at least.
unfoldable pub in_flight_size : ℕ → ℕ → ℕ → Option ℕ
in_flight_size capacity mtu tti = do
  per_mtu ← divide (mul32 (mul32 capacity 1024) 1024) mtu
  ticks ← divide 1000 tti
  size ← divide per_mtu ticks
  some (if ltb size 8 then 8 else size)

unfoldable pub get_sending_in_flight_size : Config → Option ℕ
unfolding in_flight_size
get_sending_in_flight_size c =
    in_flight_size (get_uplink_capacity_value c) (get_mtu_value c) (get_tti_value c)

unfoldable pub get_sending_buffer_size : Config → Option ℕ
get_sending_buffer_size c = divide (get_write_buffer_size c) (get_mtu_value c)

unfoldable pub get_receiving_in_flight_size : Config → Option ℕ
unfolding in_flight_size
get_receiving_in_flight_size c =
    in_flight_size (get_downlink_capacity_value c) (get_mtu_value c) (get_tti_value c)

unfoldable pub get_receiving_buffer_size : Config → Option ℕ
get_receiving_buffer_size c = divide (get_read_buffer_size c) (get_mtu_value c)

-- The JSON settings; sizes of buffers are in MB.
pub record KcpConfig : Type 0 where
  pub mtu : Option ℕ
  pub tti : Option ℕ
  pub up_cap : Option ℕ
  pub down_cap : Option ℕ
  pub congestion : Option Bool
  pub read_buffer_size : Option ℕ
  pub write_buffer_size : Option ℕ

-- A value outside its range is an error.
unfoldable pub check_range : Option ℕ → ℕ → ℕ → Option (Option ℕ)
check_range none lo hi = some none
check_range (some v) lo hi = if ltb v lo || ltb hi v then none else some (some v)

unfoldable pub buffer_bytes : Option ℕ → Option ℕ
buffer_bytes none = none
buffer_bytes (some size) = some (if ltb 0 size then mul32 (mul32 size 1024) 1024 else 512 * 1024)

unfoldable pub bool_or : Option Bool → Bool → Bool
bool_or none d = d
bool_or (some b) d = b

-- `none` is the error of a value out of range.
unfoldable pub build : KcpConfig → Option Config
unfolding check_range buffer_bytes bool_or
build c = do
  mtu ← check_range c.mtu 576 1460
  tti ← check_range c.tti 10 100
  some (record {
    mtu = mtu;
    tti = tti;
    uplink_capacity = c.up_cap;
    downlink_capacity = c.down_cap;
    write_buffer = buffer_bytes c.write_buffer_size;
    read_buffer = buffer_bytes c.read_buffer_size;
    congestion = bool_or c.congestion false;
  })
