-- ===== src/Mux/Frame/Wire.antt =====
-- An address and a port as they stand in a frame.
use dpi_warrior_native_xray.Base.{
  ℕ, ◌≤◌, ◌≡◌, refl, sym, ap, ◌∙◌, true, some, List, [], ◌∷◌, ◌++◌, arith, length, IsU16, be16,
}
use dpi_warrior_native_xray.Base.Outcome.{returns}
use dpi_warrior_native_xray.Net.{
  family_ipv4, family_ipv6, family_domain, Address, ipv4_address, ipv6_address, domain_address,
  family, Text,
}
use dpi_warrior_native_xray.AddressParser.{read_address_port, write_address_port, write_port_first}
use dpi_warrior_native_xray.AddressParser.RoundTrip.{
  IsConsistent, IsCarried, address_body, length-address_body, write_address-body,
  read-write_address_port,
}
use dpi_warrior_native_xray.Mux.Frame.{addr_parser}

addr_parser-IsConsistent : IsConsistent addr_parser
addr_parser-IsConsistent family_ipv4 b e = ground (arith, e)
addr_parser-IsConsistent family_ipv6 b e = ground (arith, e)
addr_parser-IsConsistent family_domain b e = ground (arith, e)

abbrev pub type_byte : Address → ℕ
type_byte (ipv4_address ip) = 1
type_byte (ipv6_address ip) = 3
type_byte (domain_address d) = 2

type_byte-map : (a : Address) → addr_parser.addr_byte_map (family a) ≡ some (type_byte a)
unfolding family
type_byte-map (ipv4_address ip) = refl
type_byte-map (ipv6_address ip) = refl
type_byte-map (domain_address d) = refl

abbrev pub wire : Address → ℕ → List ℕ
wire a port = be16 port ++ (type_byte a ∷ address_body a)

pub write-wire :
    (text : Text) (a : Address) (port : ℕ)
    → IsCarried text a
    → write_address_port addr_parser a port ≡ (wire a port, true)
unfolding write_address_port write_port_first
write-wire text a port h =
    rw (write_address-body text addr_parser a (type_byte a) h (type_byte-map a)) refl

pub read-wire :
    (text : Text) (a : Address) (port : ℕ) (rest : List ℕ)
    → IsCarried text a
    → IsU16 port
    → read_address_port text addr_parser [] (wire a port ++ rest) ≡ returns (a, port, rest)
read-wire text a port rest h u =
    let back =
      read-write_address_port text addr_parser a port [] rest (type_byte a) addr_parser-IsConsistent
        (type_byte-map a) h u (omega arith) in
    ap (λ w. read_address_port text addr_parser [] (w.0 ++ rest)) (sym (write-wire text a port h))
    ∙ back.1

pub length-wire :
    (text : Text) (a : Address) (port : ℕ) → IsCarried text a → length (wire a port) ≤ 259
length-wire text a port h = omega (arith, length-address_body text a h)
