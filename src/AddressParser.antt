-- ===== src/AddressParser.antt =====
-- common/protocol/address.go: how the protocols write addresses with ports, and read them.
-- A reader is the bytes that it still gives; a buffer that is read into is the bytes that it holds. What
-- a writer got is a list, beside whether there was no error.
pub mod RoundTrip
pub mod Domains
pub mod Tests
use dpi_warrior_native_xray.Base.{
  ℕ, ◌+◌, ◌-◌, ◌%◌, Bool, true, false, ◌&&◌, ◌||◌, Option, none, some, List, [], ◌∷◌, ◌++◌, ltb,
  leb, ◌==◌, if◌then◌else◌, length, take, drop, be16, of_be16,
}
use dpi_warrior_native_xray.Base.Outcome.{Outcome, returns, fails, panics, ◌>>=◌}
use dpi_warrior_native_xray.Net.{
  AddressFamily, family_ipv4, family_ipv6, family_domain, family_code, Address, ipv4_address,
  ipv6_address, domain_address, family, is_ip, ip_address, Text, parse_address,
}

-- `buf.Size`.
abbrev pub capacity : ℕ
capacity = 8192

pub data AddressOption : Type 0 where
  port_then_address : AddressOption
  address_family_byte : ℕ → AddressFamily → AddressOption
  with_address_type_parser : (ℕ → ℕ) → AddressOption

-- `option`, and the parser made of it. The entry afInvalid of a table is `none`; no type parser is the
-- one that changes nothing.
pub record AddressParser : Type 0 where
  pub addr_type_map : ℕ → Option AddressFamily
  pub addr_byte_map : AddressFamily → Option ℕ
  pub port_first : Bool
  pub type_parser : ℕ → ℕ

abbrev pub no_options : AddressParser
no_options = record {
  addr_type_map = λ b. none;
  addr_byte_map = λ f. none;
  port_first = false;
  type_parser = λ b. b;
}

unfoldable pub apply_option : AddressOption → AddressParser → Outcome AddressParser
apply_option port_then_address o = returns (record o { port_first = true })
apply_option (address_family_byte b f) o =
    if leb 16 b
    then panics
    else returns (record o {
      addr_type_map = λ c. if c == b then some f else o.addr_type_map c;
      addr_byte_map = λ g. if family_code g == family_code f then some b else o.addr_byte_map g;
    })
apply_option (with_address_type_parser p) o = returns (record o { type_parser = p })

unfoldable pub apply_options : List AddressOption → AddressParser → Outcome AddressParser
unfolding apply_option
apply_options [] o = returns o
apply_options (opt ∷ opts) o = apply_option opt o >>= λ o'. apply_options opts o'

-- `NewAddressParser`.
unfoldable pub new_address_parser : List AddressOption → Outcome AddressParser
unfolding apply_options
new_address_parser opts = apply_options opts no_options

-- `b.ReadFullFrom(reader, n)`: the buffer and the reader afterwards.
unfoldable pub read_full_from : List ℕ → List ℕ → ℕ → Outcome (List ℕ × List ℕ)
read_full_from b input n =
    if ltb capacity (length b + n)
    then fails
    else if ltb (length input) n
    then fails
    else returns (b ++ take n input, drop n input)

-- `b.BytesFrom(-n)`: the last `n` bytes, but all of them for 0, since -0 is no negative number.
unfoldable pub bytes_from_end : List ℕ → ℕ → List ℕ
bytes_from_end b n = if n == 0 then b else drop (length b - n) b

unfoldable pub port_from_bytes : List ℕ → Outcome ℕ
port_from_bytes (a ∷ b ∷ rest) = returns (of_be16 a b)
port_from_bytes _ = panics

unfoldable pub read_port : List ℕ → List ℕ → Outcome (ℕ × List ℕ × List ℕ)
read_port b input = do
  (b, input) ← read_full_from b input 2
  port ← port_from_bytes (bytes_from_end b 2)
  returns (port, b, input)

unfoldable pub maybe_ip_prefix : ℕ → Bool
maybe_ip_prefix b = b == b'[' || (leb b'0' b && leb b b'9')

unfoldable pub is_valid_byte : ℕ → Bool
is_valid_byte c =
    (leb b'0' c && leb c b'9')
    || ((leb b'a' c && leb c b'z')
        || ((leb b'A' c && leb c b'Z') || (c == b'-' || (c == b'.' || c == b'_'))))

unfoldable pub is_valid_domain : List ℕ → Bool
unfolding is_valid_byte
is_valid_domain [] = true
is_valid_domain (c ∷ d) = let rest = is_valid_domain d in if is_valid_byte c then rest else false

-- An address, or a panic where it is used though it is nil.
abbrev pub present : Option Address → Outcome Address
present none = panics
present (some a) = returns a

unfoldable pub read_ip : ℕ → List ℕ → List ℕ → Outcome (Address × List ℕ × List ℕ)
read_ip n b input = do
  (b, input) ← read_full_from b input n
  addr ← present (ip_address (bytes_from_end b n))
  returns (addr, b, input)

-- What the bytes of a domain stand for: an address, if they are the text of one.
unfoldable pub domain_or_ip : Text → List ℕ → Outcome Address
domain_or_ip text [] = panics
domain_or_ip text (c ∷ d) =
    let domain = c ∷ d in
    let plain = if is_valid_domain domain then returns (domain_address domain) else fails in
    elim (maybe_ip_prefix c) [
      | true ↦ present (parse_address text domain) >>= λ addr.
          if is_ip (family addr) then returns addr else plain
      | false ↦ plain
    ]

-- The last byte of the buffer, which was just read.
unfoldable pub last_byte : List ℕ → ℕ
last_byte [] = 0
last_byte (c ∷ []) = c
last_byte (c ∷ d ∷ b) = last_byte (d ∷ b)

unfoldable pub read_domain : Text → List ℕ → List ℕ → Outcome (Address × List ℕ × List ℕ)
read_domain text b input = do
  (b, input) ← read_full_from b input 1
  let n = last_byte b
  (b, input) ← read_full_from b input n
  addr ← domain_or_ip text (bytes_from_end b n)
  returns (addr, b, input)

-- The family that a type byte stands for.
unfoldable pub family_of : AddressParser → ℕ → Option AddressFamily
family_of p b = if leb 16 (p.type_parser b) then none else p.addr_type_map (p.type_parser b)

unfoldable pub read_family :
    Text → Option AddressFamily → List ℕ → List ℕ → Outcome (Address × List ℕ × List ℕ)
read_family text none b input = fails
read_family text (some family_ipv4) b input = read_ip 4 b input
read_family text (some family_ipv6) b input = read_ip 16 b input
read_family text (some family_domain) b input = read_domain text b input

unfoldable pub read_address :
    Text → AddressParser → List ℕ → List ℕ → Outcome (Address × List ℕ × List ℕ)
read_address text p b input = do
  (b, input) ← read_full_from b input 1
  read_family text (family_of p (last_byte b)) b input

-- The methods of `portFirstAddressParser` and of `portLastAddressParser`.
unfoldable pub read_port_first :
    Text → AddressParser → List ℕ → List ℕ → Outcome (Address × ℕ × List ℕ)
read_port_first text p b input = do
  (port, b, input) ← read_port b input
  (addr, b, input) ← read_address text p b input
  returns (addr, port, input)

unfoldable pub read_port_last :
    Text → AddressParser → List ℕ → List ℕ → Outcome (Address × ℕ × List ℕ)
read_port_last text p b input = do
  (addr, b, input) ← read_address text p b input
  (port, b, input) ← read_port b input
  returns (addr, port, input)

-- `ReadAddressPort` with a buffer that holds `b`; what is left to read is returned.
unfoldable pub read_address_port :
    Text → AddressParser → List ℕ → List ℕ → Outcome (Address × ℕ × List ℕ)
read_address_port text p b input =
    if p.port_first then read_port_first text p b input else read_port_last text p b input

-- headers.go, `isDomainTooLong`.
unfoldable pub is_domain_too_long : List ℕ → Bool
is_domain_too_long domain = ltb 256 (length domain)

unfoldable pub write_address : AddressParser → Address → List ℕ × Bool
unfolding family is_domain_too_long
write_address p addr = elim (p.addr_byte_map (family addr)) [
  | none ↦ ([], false)
  | some tb ↦ elim addr [
    | ipv4_address ip ↦ (tb ∷ ip, true)
    | ipv6_address ip ↦ (tb ∷ ip, true)
    | domain_address d ↦
        if is_domain_too_long d then ([], false) else (tb ∷ (length d % 256) ∷ d, true)
  ]
]

unfoldable pub write_port_first : AddressParser → Address → ℕ → List ℕ × Bool
write_port_first p addr port =
    let (bytes, done) = write_address p addr in (be16 port ++ bytes, done)

unfoldable pub write_port_last : AddressParser → Address → ℕ → List ℕ × Bool
write_port_last p addr port =
    let (bytes, done) = write_address p addr in
    if done then (bytes ++ be16 port, true) else (bytes, false)

-- `WriteAddressPort`; a writer that does not fail is assumed.
unfoldable pub write_address_port : AddressParser → Address → ℕ → List ℕ × Bool
write_address_port p addr port =
    if p.port_first then write_port_first p addr port else write_port_last p addr port
