-- ===== src/Kcp/RoundTrip.antt =====
-- connection.go, `RoundTripInfo`: the estimate of the round trip and the timeout of retransmission.
pub mod Estimate
use dpi_warrior_native_xray.Base.{ℕ, ◌/◌, ltb, ◌==◌, if◌then◌else◌, add32, sub32, mul32}

pub record RoundTripInfo : Type 0 where
  pub variation : ℕ
  pub srtt : ℕ
  pub rto : ℕ
  pub min_rtt : ℕ
  pub updated_timestamp : ℕ

-- What `NewConnection` starts with.
abbrev pub new_round_trip_info : ℕ → RoundTripInfo
new_round_trip_info min_rtt = record {
  variation = 0;
  srtt = 0;
  rto = 100;
  min_rtt = min_rtt;
  updated_timestamp = 0;
}

unfoldable pub update_peer_rto : RoundTripInfo → ℕ → ℕ → RoundTripInfo
update_peer_rto info rto current =
    if ltb (sub32 current info.updated_timestamp) 3000
    then info
    else record info { updated_timestamp = current; rto = rto }

-- The two branches that update `srtt` and `variation`.
unfoldable pub smooth : RoundTripInfo → ℕ → RoundTripInfo
smooth info rtt =
    if info.srtt == 0
    then record info { srtt = rtt; variation = rtt / 2 }
    else let delta = if ltb rtt info.srtt then sub32 info.srtt rtt else sub32 rtt info.srtt in
      let srtt = add32 (mul32 7 info.srtt) rtt / 8 in
      record info {
        variation = add32 (mul32 3 info.variation) delta / 4;
        srtt = if ltb srtt info.min_rtt then info.min_rtt else srtt;
      }

-- The timeout before its bound.
unfoldable pub base_rto : RoundTripInfo → ℕ
base_rto info =
    if ltb info.min_rtt (mul32 4 info.variation)
    then add32 info.srtt (mul32 4 info.variation)
    else add32 info.srtt info.variation

unfoldable pub update : RoundTripInfo → ℕ → ℕ → RoundTripInfo
update info rtt current =
    if ltb 0x7fff_ffff rtt
    then info
    else let smoothed = smooth info rtt in
      let rto = base_rto smoothed in
      record smoothed {
        rto = mul32 (if ltb 10000 rto then 10000 else rto) 5 / 4;
        updated_timestamp = current;
      }
