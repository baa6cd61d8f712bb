-- ===== src/FakeDns.antt =====
-- app/dns/fakedns/fake.go: a pool of addresses that are handed out in place of domains.
-- An address in the pool is computed as a number, from whose bytes, the leading zeros left out, it is
-- made. The clock is an argument, in milliseconds.
pub mod Bytes
pub mod Pool
pub mod Free
pub mod Answers
mod Tests
use dpi_warrior_native_xray.Base.{
  ℕ, zero, suc, ◌+◌, ◌*◌, ◌/◌, ◌%◌, ◌^◌, Bool, true, false, not, ◌&&◌, ◌||◌, Option, none, some,
  List, [], ◌∷◌, ◌++◌, ltb, leb, ◌==◌, if◌then◌else◌, length, bytes_eq,
}
use dpi_warrior_native_xray.Base.Outcome.{Outcome, returns, fails}
use dpi_warrior_native_xray.Net.{
  Address, ipv4_address, ipv6_address, domain_address, ip_address, family, is_ip, address_eq,
}
use dpi_warrior_native_xray.Lru.{Lru, new_lru, get, get_key_from_value, peek_key_from_value, put}

-- `SetBytes` of math/big, most significant byte first, and `Bytes`, which has no leading zero. The
-- count of rounds is at least that of the bytes.
unfoldable pub number_from : ℕ → List ℕ → ℕ
number_from acc [] = acc
number_from acc (b ∷ bs) = number_from (acc * 256 + b) bs

unfoldable pub bytes_from : ℕ → ℕ → List ℕ
bytes_from zero n = []
bytes_from (suc rounds) n =
    let rest = bytes_from rounds (n / 256) ++ ((n % 256) ∷ []) in if n == 0 then [] else rest

abbrev pub number_of : List ℕ → ℕ
number_of = number_from 0

abbrev pub bytes_of : ℕ → List ℕ
bytes_of n = bytes_from n n

-- `ipRange`: its first address as a number, the bytes of an address, and the bits that vary.
pub record IpRange : Type 0 where
  pub base : ℕ
  pub width : ℕ
  pub rooms : ℕ

pub record Holder : Type 0 where
  pub domain_to_ip : Lru (List ℕ) (Option Address)
  pub ip_range : IpRange

-- `IPNet.Contains` of package net.
unfoldable pub contains : IpRange → List ℕ → Bool
contains r ip =
    length ip == r.width && (leb r.base (number_of ip) && ltb (number_of ip) (r.base + 2 ^ r.rooms))

-- `initialize`; `parse_cidr` is that of package net. The test on logarithms is one on the numbers, and
-- a size below 0 is not modelled.
unfoldable pub initialize : (List ℕ → Option IpRange) → List ℕ → ℕ → Outcome Holder
initialize parse_cidr ip_pool_cidr lru_size = elim (parse_cidr ip_pool_cidr) [
  | none ↦ fails
  | some r ↦
      if leb (2 ^ r.rooms) lru_size
      then fails
      else returns (record { domain_to_ip = new_lru lru_size; ip_range = r })
]

-- The bytes of an address that is no domain.
unfoldable pub ip_of : Address → List ℕ
ip_of (ipv4_address ip) = ip
ip_of (ipv6_address ip) = ip
ip_of (domain_address d) = []

unfoldable pub is_ip_in_ip_pool : Holder → Address → Bool
is_ip_in_ip_pool h ip = is_ip (family ip) && contains h.ip_range (ip_of ip)

-- The number at which the search begins.
unfoldable pub first_number : IpRange → ℕ → ℕ
first_number r now = r.base + (if ltb r.rooms 64 then now % 2 ^ r.rooms else now % 2 ^ 64)

unfoldable pub next_number : IpRange → ℕ → ℕ
next_number r n = if contains r (bytes_of (n + 1)) then n + 1 else r.base

-- The address of a number; `none` is the nil address.
abbrev pub address_of : ℕ → Option Address
address_of n = ip_address (bytes_of n)

abbrev pub is_taken : Holder → Option Address → Bool
is_taken h ip = elim (peek_key_from_value h.domain_to_ip ip) [ none ↦ false | some d ↦ true ]

-- The search for an address that is not in use; `none` is that the rounds were not enough.
unfoldable pub find_free : ℕ → Holder → ℕ → Option (Option Address)
find_free zero h n = none
find_free (suc rounds) h n =
    let rest = find_free rounds h (next_number h.ip_range n) in
    if is_taken h (address_of n) then rest else some (address_of n)

-- One round more than there are addresses in use.
abbrev pub enough_rounds : Holder → ℕ
enough_rounds h = suc (length h.domain_to_ip.value_to_element)

-- The address that a search gave is kept for the domain.
unfoldable pub keep_new :
    Holder → List ℕ → Option (Option Address) → Option (Holder × Option Address)
keep_new h domain none = none
keep_new h domain (some ip) = some (record h { domain_to_ip = put h.domain_to_ip domain ip }, ip)

-- The answer, with what the cache has of the domain.
unfoldable pub answer :
    Holder
    → ℕ
    → List ℕ
    → Lru (List ℕ) (Option Address) × Option (Option Address)
    → Option (Holder × Option Address)
answer h now domain (cache, some ip) = some (record h { domain_to_ip = cache }, ip)
answer h now domain (cache, none) =
    let h' = record h { domain_to_ip = cache } in
    keep_new h' domain (find_free (enough_rounds h') h' (first_number h'.ip_range now))

-- `GetFakeIPForDomain`; the result none is that the search did not end.
unfoldable pub get_fake_ip_for_domain : Holder → ℕ → List ℕ → Option (Holder × Option Address)
get_fake_ip_for_domain h now domain = answer h now domain (get h.domain_to_ip domain)

-- `GetDomainFromFakeDNS`; the empty domain is that there is none.
unfoldable pub get_domain_from_fake_dns : Holder → Address → Holder × List ℕ
get_domain_from_fake_dns h ip =
    if not (is_ip (family ip)) || not (contains h.ip_range (ip_of ip))
    then (h, [])
    else let (cache, k) = get_key_from_value h.domain_to_ip (some ip) in
      (record h { domain_to_ip = cache }, elim k [ some domain ↦ domain | none ↦ [] ])
