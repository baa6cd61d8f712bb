-- ===== src/Net.antt =====
-- common/net: addresses and destinations. A string is the list of its bytes.
use dpi_warrior_native_xray.Base.{
  ℕ, ◌-◌, Bool, true, false, not, ◌&&◌, ◌||◌, Option, none, some, List, [], ◌∷◌, ltb, leb, ◌==◌,
  if◌then◌else◌, length, same_bytes, ◌≡◌, ◌↔◌, arith, Eq, same_bytes_iff, same_option,
  same_option_iff, take, drop, get_elem?,
}

pub data AddressFamily : Type 0 where
  family_ipv4 family_ipv6 family_domain : AddressFamily

abbrev pub family_code : AddressFamily → ℕ
family_code family_ipv4 = 0
family_code family_ipv6 = 1
family_code family_domain = 2

-- `ipv4Address`, of four bytes, `ipv6Address`, of sixteen, and `domainAddress`.
pub data Address : Type 0 where
  ipv4_address : List ℕ → Address
  ipv6_address : List ℕ → Address
  domain_address : List ℕ → Address

unfoldable pub family : Address → AddressFamily
family (ipv4_address ip) = family_ipv4
family (ipv6_address ip) = family_ipv6
family (domain_address d) = family_domain

unfoldable pub is_ip : AddressFamily → Bool
is_ip family_domain = false
is_ip _ = true

-- The prefix of an IPv4 address that is written in sixteen bytes.
abbrev pub mapped_prefix : List ℕ
mapped_prefix = 0 ∷ 0 ∷ 0 ∷ 0 ∷ 0 ∷ 0 ∷ 0 ∷ 0 ∷ 0 ∷ 0 ∷ 0xff ∷ 0xff ∷ []

-- `IPAddress`; `none` is the nil address, for a slice of any other length.
unfoldable pub ip_address : List ℕ → Option Address
unfolding same_bytes
ip_address ip =
    if length ip == 4
    then some (ipv4_address ip)
    else if length ip == 16
    then (if same_bytes (take 12 ip) mapped_prefix
        then some (ipv4_address (drop 12 ip))
        else some (ipv6_address ip))
    else none

-- What the standard library does to text: net.ParseIP, whose nil is `none`, and strings.TrimSpace.
pub record Text : Type 0 where
  pub parse_ip : List ℕ → Option (List ℕ)
  pub trim_space : List ℕ → List ℕ

unfoldable pub is_alpha_num : ℕ → Bool
is_alpha_num c =
    (leb b'0' c && leb c b'9') || ((leb b'a' c && leb c b'z') || (leb b'A' c && leb c b'Z'))

-- A test of the byte at a place, which the callers know to be there.
unfoldable pub byte_is : (ℕ → Bool) → Option ℕ → Bool
byte_is p none = false
byte_is p (some c) = p c

abbrev pub first : List ℕ → Option ℕ
first s = get_elem? s 0

abbrev pub last : List ℕ → Option ℕ
last s = get_elem? s (length s - 1)

-- The brackets of an IPv6 address are taken off.
unfoldable pub without_brackets : List ℕ → List ℕ
unfolding byte_is
without_brackets s =
    if byte_is (λ c. c == b'[') (first s) && byte_is (λ c. c == b']') (last s)
    then take (length s - 2) (drop 1 s)
    else s

unfoldable pub trimmed : Text → List ℕ → List ℕ
unfolding byte_is is_alpha_num
trimmed text s =
    if ltb 0 (length s) && not (byte_is is_alpha_num (first s) && byte_is is_alpha_num (last s))
    then text.trim_space s
    else s

-- `ParseAddress`; `none` is the nil address.
unfoldable pub parse_address : Text → List ℕ → Option Address
unfolding without_brackets trimmed
parse_address text s =
    let s' = trimmed text (without_brackets s) in
    elim (text.parse_ip s') [ some ip ↦ ip_address ip | none ↦ some (domain_address s') ]

pub data Network : Type 0 where
  network_unknown network_tcp network_udp network_unix : Network

-- A nil address is `none`.
pub record Destination : Type 0 where
  pub address : Option Address
  pub port : ℕ
  pub network : Network

abbrev pub tcp_destination : Address → ℕ → Destination
tcp_destination a p = record { address = some a; port = p; network = network_tcp }

abbrev pub udp_destination : Address → ℕ → Destination
udp_destination a p = record { address = some a; port = p; network = network_udp }

-- Two addresses that Go compares, as interface values.
unfoldable pub same_address : Address → Address → Bool
same_address (ipv4_address x) (ipv4_address y) = same_bytes x y
same_address (ipv6_address x) (ipv6_address y) = same_bytes x y
same_address (domain_address x) (domain_address y) = same_bytes x y
same_address _ _ = false

pub same_address_iff : (a b : Address) → (same_address a b ≡ true) ↔ (a ≡ b)
unfolding same_address
same_address_iff (ipv4_address x) (ipv4_address y) = ground (arith, same_bytes_iff x y)
same_address_iff (ipv4_address x) (ipv6_address y) = ground arith
same_address_iff (ipv4_address x) (domain_address y) = ground arith
same_address_iff (ipv6_address x) (ipv4_address y) = ground arith
same_address_iff (ipv6_address x) (ipv6_address y) = ground (arith, same_bytes_iff x y)
same_address_iff (ipv6_address x) (domain_address y) = ground arith
same_address_iff (domain_address x) (ipv4_address y) = ground arith
same_address_iff (domain_address x) (ipv6_address y) = ground arith
same_address_iff (domain_address x) (domain_address y) = ground (arith, same_bytes_iff x y)

-- An address that may be nil.
instance abbrev pub address_eq : Eq (Option Address)
address_eq = record {
  beq = same_option same_address;
  beq_iff = same_option_iff same_address same_address_iff;
}
