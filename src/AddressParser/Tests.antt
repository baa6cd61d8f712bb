-- ===== src/AddressParser/Tests.antt =====
-- The parsers of the protocols, and the theorems at concrete inputs.
use dpi_warrior_native_xray.Base.{
  ℕ, ◌≡◌, refl, true, false, none, some, List, [], ◌∷◌, ◌++◌, arith, replicate, ◌==◌, if◌then◌else◌,
}
use dpi_warrior_native_xray.Base.Outcome.{returns, fails}
use dpi_warrior_native_xray.Net.{
  family_ipv4, family_ipv6, family_domain, family_code, domain_address, family, Text,
}
use dpi_warrior_native_xray.AddressParser.{
  AddressParser, AddressOption, address_family_byte, new_address_parser, apply_options,
  apply_option, read_address_port, write_address_port, is_valid_domain, is_valid_byte,
  maybe_ip_prefix,
}
use dpi_warrior_native_xray.AddressParser.RoundTrip.{IsConsistent, read-write_address_port}
use dpi_warrior_native_xray.AddressParser.Domains.{zero_length_domain-Refused}

-- A text in which nothing is an IP address.
abbrev pub names_only : Text
names_only = record { parse_ip = λ s. none; trim_space = λ s. s }

-- proxy/socks, proxy/trojan.
abbrev socks_options : List AddressOption
socks_options =
    address_family_byte 1 family_ipv4
    ∷ address_family_byte 4 family_ipv6
    ∷ address_family_byte 3 family_domain
    ∷ []

abbrev socks_parser : AddressParser
socks_parser = record {
  addr_type_map = λ c.
      if c == 3
      then some family_domain
      else if c == 4
      then some family_ipv6
      else if c == 1
      then some family_ipv4
      else none;
  addr_byte_map = λ f.
      if family_code f == 2
      then some 3
      else if family_code f == 1
      then some 4
      else if family_code f == 0
      then some 1
      else none;
  port_first = false;
  type_parser = λ b. b;
}

socks_options_parse : new_address_parser socks_options ≡ returns socks_parser
unfolding new_address_parser apply_options apply_option
socks_options_parse = refl

socks_parser-IsConsistent : IsConsistent socks_parser
socks_parser-IsConsistent family_ipv4 b e = ground (arith, e)
socks_parser-IsConsistent family_ipv6 b e = ground (arith, e)
socks_parser-IsConsistent family_domain b e = ground (arith, e)

abbrev pub example_name : List ℕ
example_name = b'a' ∷ b'.' ∷ b'b' ∷ []

read-write_address_port_example :
    ((write_address_port socks_parser (domain_address example_name) 443).1 ≡ true)
    × (read_address_port names_only socks_parser []
          ((write_address_port socks_parser (domain_address example_name) 443).0 ++ (7 ∷ []))
        ≡ returns (domain_address example_name, 443, 7 ∷ []))
read-write_address_port_example =
    read-write_address_port names_only socks_parser (domain_address example_name) 443 [] (7 ∷ []) 3
      socks_parser-IsConsistent (unfold family in refl)
      (omega arith, omega arith, unfold is_valid_domain is_valid_byte in refl, refl) (omega arith)
      (omega arith)

abbrev long_name : List ℕ
long_name = replicate 256 b'a'

zero_length_domain-Refused_example :
    ((write_address_port socks_parser (domain_address long_name) 443).1 ≡ true)
    × (read_address_port names_only socks_parser []
          ((write_address_port socks_parser (domain_address long_name) 443).0 ++ [])
        ≡ fails)
zero_length_domain-Refused_example =
    zero_length_domain-Refused names_only socks_parser long_name 443 [] 3 socks_parser-IsConsistent
      refl (omega arith) (omega arith) (omega arith) (omega arith) (unfold maybe_ip_prefix in refl)
