-- ===== src/Kcp/RoundTrip/Estimate.antt =====
-- The estimate in exact arithmetic, and the bound on the timeout.
use dpi_warrior_native_xray.Base.{
  ℕ, ◌+◌, ◌-◌, ◌*◌, ◌/◌, ◌≤◌, ◌<◌, min, max, ◌≡◌, ap, arith, ltb, ◌==◌, if◌then◌else◌, le→ltb,
  mul32,
}
use dpi_warrior_native_xray.Kcp.RoundTrip.{RoundTripInfo, smooth, base_rto, update}

-- RFC 6298 on unbounded numbers, with the source's weights and bounds.
abbrev pub distance : ℕ → ℕ → ℕ
distance a b = max a b - min a b

abbrev pub exact_smooth : RoundTripInfo → ℕ → RoundTripInfo
exact_smooth info rtt =
    if info.srtt == 0 then record info { srtt = rtt; variation = rtt / 2 } else record info {
      variation = (3 * info.variation + distance rtt info.srtt) / 4;
      srtt = max info.min_rtt ((7 * info.srtt + rtt) / 8);
    }

abbrev pub exact_rto : RoundTripInfo → ℕ
exact_rto info =
    min 10000 (
      info.srtt
      + (if ltb info.min_rtt (4 * info.variation) then 4 * info.variation else info.variation))
    * 5
    / 4

-- Bounds that keep every intermediate value of 32 bits from wrapping.
pub record IsSane (info : RoundTripInfo) : Type 0 where
  pub srtt_bound : info.srtt ≤ 10000
  pub variation_bound : info.variation ≤ 10000
  pub min_rtt_bound : info.min_rtt ≤ 10000

smooth-exact :
    (info : RoundTripInfo) (rtt : ℕ)
    → rtt < 10000
    → IsSane info
    → (smooth info rtt ≡ exact_smooth info rtt) × IsSane (exact_smooth info rtt)
unfolding smooth
smooth-exact info rtt h s = (ground arith, ground arith)

base_rto-exact :
    (info : RoundTripInfo)
    → IsSane info
    → mul32 (if ltb 10000 (base_rto info) then 10000 else base_rto info) 5 / 4 ≡ exact_rto info
unfolding base_rto
base_rto-exact info s = ground arith

-- For the samples that the caller lets through, those below 10000, the 32-bit update never wraps: it
-- is the estimator on unbounded numbers, and keeps the bounds under which that holds.
pub update-exact :
    (info : RoundTripInfo) (rtt current : ℕ)
    → rtt < 10000
    → IsSane info
    → (update info rtt current ≡ record (exact_smooth info rtt) {
      rto = exact_rto (exact_smooth info rtt);
      updated_timestamp = current;
    })
      × IsSane (update info rtt current)
unfolding update
update-exact info rtt current h s =
    let (e, sane) = smooth-exact info rtt h s in
    let r = base_rto-exact (exact_smooth info rtt) sane in
    rw (le→ltb 0x7fff_ffff rtt (omega arith)) (
      rw e (
        ap (λ q. record (exact_smooth info rtt) { rto = q; updated_timestamp = current }) r,
        record {
          srtt_bound = sane.srtt_bound;
          variation_bound = sane.variation_bound;
          min_rtt_bound = sane.min_rtt_bound;
        },
      ))

-- Whatever the state and the sample, an accepted update sets a timeout of 12.5 seconds at most.
pub rto-update-le :
    (info : RoundTripInfo) (rtt current : ℕ)
    → rtt ≤ 0x7fff_ffff
    → (update info rtt current).rto ≤ 12500
unfolding update
rto-update-le info rtt current h = ground arith
