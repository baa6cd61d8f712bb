-- ===== src/FakeDns/Pool.antt =====
-- The addresses of a pool.
use dpi_warrior_native_xray.Base.{
  ℕ, ◌+◌, ◌-◌, ◌%◌, ◌^◌, ◌≤◌, ◌<◌, ◌≡◌, refl, sym, ap, ◌∙◌, inl, inr, true, false, arith, ltb,
  if◌then◌else◌, Bool-cases, ltb→lt, ltb→le,
}
use dpi_warrior_native_xray.Base.{some-injective}
use native.Mathlib.Nat.{mod-lt, one-le-pow, pow-le-pow_right}
use dpi_warrior_native_xray.FakeDns.{
  IpRange, number_of, bytes_of, ip_of, address_of, contains, first_number, next_number,
}
use dpi_warrior_native_xray.FakeDns.Bytes.{FitsWidth, address_of-some, number_of-bytes_of}

-- A number between the first of the pool and the last.
abbrev pub InPool : IpRange → ℕ → Type 0
InPool r n = (r.base ≤ n) × (n < r.base + 2 ^ r.rooms)

-- All numbers of the pool have the width of its addresses.
abbrev pub IsPool : IpRange → Type 0
IsPool r = (n : ℕ) → InPool r n → FitsWidth r.width n

pub contains-InPool : (r : IpRange) (n : ℕ) → IsPool r → InPool r n → contains r (bytes_of n) ≡ true
unfolding contains
contains-InPool r n p i =
    let (a, e, ip, len, is) = address_of-some r.width n (p n i) in
    rw (number_of-bytes_of n) (ground (arith, len, i.0, i.1))

contains-beyond : (r : IpRange) (n : ℕ) → r.base + 2 ^ r.rooms ≤ n → contains r (bytes_of n) ≡ false
unfolding contains
contains-beyond r n far = rw (number_of-bytes_of n) (ground (arith, far))

-- A position in the pool, and the one after it, which is the first after the last.
unfoldable pub place : ℕ → ℕ → ℕ
place size o = if ltb o size then o else o - size

pub next_number-place :
    (r : IpRange) (o : ℕ)
    → IsPool r
    → o < 2 ^ r.rooms
    → next_number r (r.base + o) ≡ r.base + place (2 ^ r.rooms) (o + 1)
unfolding next_number place
next_number-place r o p h = elim (Bool-cases (ltb (o + 1) (2 ^ r.rooms))) [
  | inl t ↦
      let inside =
        contains-InPool r (r.base + o + 1) p
          (omega arith, omega (arith, ltb→lt (o + 1) (2 ^ r.rooms) t)) in
      rw (inside, t) (omega arith)
  | inr f ↦
      let le = ltb→le (o + 1) (2 ^ r.rooms) f in
      let outside = contains-beyond r (r.base + o + 1) (omega (arith, le)) in
      rw (outside, f) (omega (arith, le))
]

pub first_number-InPool :
    (r : IpRange) (now : ℕ) → (o : ℕ) × (o < 2 ^ r.rooms) × (first_number r now ≡ r.base + o)
unfolding first_number
first_number-InPool r now = elim (Bool-cases (ltb r.rooms 64)) [
  | inl t ↦ (
    now % 2 ^ r.rooms,
    mod-lt now {m = 2 ^ r.rooms} (one-le-pow r.rooms 2 (omega arith)),
    rw t refl,
  )
  | inr f ↦
      let wide : 2 ^ 64 ≤ 2 ^ r.rooms =
        pow-le-pow_right {n = 2} (omega arith) {i = 64} {j = r.rooms} (ltb→le r.rooms 64 f) in
      (now % 2 ^ 64, omega (arith, mod-lt now {m = 2 ^ 64} (omega arith), wide), rw f refl)
]

pub address_of-injective :
    (r : IpRange) (n m : ℕ)
    → IsPool r
    → InPool r n
    → InPool r m
    → address_of n ≡ address_of m
    → n ≡ m
address_of-injective r n m p i j e =
    let (a, ea, ipa, x, u) = address_of-some r.width n (p n i) in
    let (b, eb, ipb, y, v) = address_of-some r.width m (p m j) in
    let same : a ≡ b = some-injective (sym ea ∙ e ∙ eb) in
    let bytes : bytes_of n ≡ bytes_of m = sym ipa ∙ ap ip_of same ∙ ipb in
    sym (number_of-bytes_of n) ∙ ap number_of bytes ∙ number_of-bytes_of m
