-- ===== src/FakeDns/Bytes.antt =====
-- The bytes of a number.
use dpi_warrior_native_xray.Base.{
  ℕ, zero, suc, ◌+◌, ◌*◌, ◌/◌, ◌%◌, ◌≤◌, ◌<◌, ◌≡◌, refl, sym, ◌∙◌, ◌⊎◌, inl, inr, true, false, some,
  List, [], ◌∷◌, ◌++◌, arith, ◌==◌, Bool-cases, length, take, length-append,
}
use dpi_warrior_native_xray.Base.{same_bytes}
use dpi_warrior_native_xray.Net.{
  Address, ipv4_address, ipv6_address, ip_address, mapped_prefix, is_ip, family,
}
use dpi_warrior_native_xray.FakeDns.{
  number_from, number_of, bytes_from, bytes_of, ip_of, address_of,
}

number_from-append :
    (acc : ℕ) (xs : List ℕ) (b : ℕ)
    → number_from acc (xs ++ (b ∷ [])) ≡ number_from acc xs * 256 + b
unfolding number_from
number_from-append acc [] b = refl
number_from-append acc (x ∷ xs) b = number_from-append (acc * 256 + x) xs b

bytes_from-zero : (rounds : ℕ) → bytes_from rounds 0 ≡ []
unfolding bytes_from
bytes_from-zero zero = refl
bytes_from-zero (suc rounds) = refl

bytes_from-step :
    (rounds n : ℕ)
    → 0 < n
    → bytes_from (suc rounds) n ≡ bytes_from rounds (n / 256) ++ ((n % 256) ∷ [])
unfolding bytes_from
bytes_from-step rounds n h = ground (arith, h)

number_of-bytes_from : (rounds n : ℕ) → n ≤ rounds → number_of (bytes_from rounds n) ≡ n
unfolding number_from
number_of-bytes_from zero n h = unfold bytes_from in omega arith
number_of-bytes_from (suc rounds) zero h = unfold bytes_from in refl
number_of-bytes_from (suc rounds) (suc n) h =
    let k = suc n in
    let back = number_of-bytes_from rounds (k / 256) (omega arith) in
    rw (bytes_from-step rounds k (omega arith))
      (number_from-append 0 (bytes_from rounds (k / 256)) (k % 256) ∙ omega (arith, back))

pub number_of-bytes_of : (n : ℕ) → number_of (bytes_of n) ≡ n
number_of-bytes_of n = number_of-bytes_from n n (omega arith)

abbrev pub pow256 : ℕ → ℕ
pow256 zero = 1
pow256 (suc k) = 256 * pow256 k

pow256_pos : (k : ℕ) → 0 < pow256 k
pow256_pos zero = omega arith
pow256_pos (suc k) = omega (arith, pow256_pos k)

length-bytes_from :
    (k rounds n : ℕ)
    → n ≤ rounds
    → pow256 k ≤ n
    → n < pow256 (suc k)
    → length (bytes_from rounds n) ≡ suc k
length-bytes_from k zero n h lo hi = absurd (omega (arith, pow256_pos k))
length-bytes_from zero (suc rounds) n h lo hi =
    let small : n / 256 ≡ 0 = omega arith in
    rw (bytes_from-step rounds n lo, small, bytes_from-zero rounds) refl
length-bytes_from (suc k) (suc rounds) n h lo hi =
    let ih = length-bytes_from k rounds (n / 256) (omega arith) (omega arith) (omega arith) in
    rw (bytes_from-step rounds n (omega (arith, pow256_pos k)))
      (length-append (bytes_from rounds (n / 256)) ((n % 256) ∷ []) ∙ omega (arith, ih))

-- The first byte is no 0.
bytes_from-head :
    (rounds n : ℕ)
    → n ≤ rounds
    → 0 < n
    → (c : ℕ) × (r : List ℕ) × (bytes_from rounds n ≡ c ∷ r) × (0 < c)
bytes_from-head zero n h p = absurd (omega arith)
bytes_from-head (suc rounds) n h p = elim (Bool-cases (n / 256 == 0)) [
  | inl last ↦
      let small : n / 256 ≡ 0 = ground (arith, last) in
      (
        n % 256,
        [],
        rw (bytes_from-step rounds n p, small, bytes_from-zero rounds) refl,
        omega arith,
      )
  | inr more ↦
      let (c, r, e, q) = bytes_from-head rounds (n / 256) (omega arith) (ground (arith, more)) in
      (c, r ++ ((n % 256) ∷ []), rw (bytes_from-step rounds n p, e) refl, q)
]

-- An address of IPv4 has the four bytes of its number, and one of IPv6 the sixteen.
abbrev pub FitsWidth : ℕ → ℕ → Type 0
FitsWidth width n =
    ((width ≡ 4) × (pow256 3 ≤ n) × (n < pow256 4))
    ⊎ ((width ≡ 16) × (pow256 15 ≤ n) × (n < pow256 16))

not_mapped : (c : ℕ) (r : List ℕ) → 0 < c → same_bytes (take 12 (c ∷ r)) mapped_prefix ≡ false
unfolding same_bytes
not_mapped c r p = ground (arith, p)

-- A number of the right width gives an address, which has its bytes.
pub address_of-some :
    (width n : ℕ)
    → FitsWidth width n
    → (a : Address) × (address_of n ≡ some a)
      × (ip_of a ≡ bytes_of n)
      × (length (bytes_of n) ≡ width)
      × (is_ip (family a) ≡ true)
unfolding ip_address ip_of is_ip family
address_of-some width n (inl (w, lo, hi)) =
    let len = length-bytes_from 3 n n (omega arith) lo hi in
    (ipv4_address (bytes_of n), rw len refl, refl, len ∙ sym w, refl)
address_of-some width n (inr (w, lo, hi)) =
    let len = length-bytes_from 15 n n (omega arith) lo hi in
    let (c, r, e, p) = bytes_from-head n n (omega arith) (omega (arith, lo)) in
    let plain : same_bytes (take 12 (bytes_of n)) mapped_prefix ≡ false = rw e (not_mapped c r p) in
    (ipv6_address (bytes_of n), rw (len, plain) refl, refl, len ∙ sym w, refl)
