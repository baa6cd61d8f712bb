-- ===== src/AddressParser/Domains.antt =====
-- Domains whose length does not fit the byte that tells it.
use dpi_warrior_native_xray.Base.{
  ℕ, ◌+◌, ◌/◌, ◌%◌, ◌^◌, ◌≤◌, ◌<◌, ◌≡◌, refl, Bool, true, false, some, List, [], ◌∷◌, ◌++◌,
  append-nil, arith, ltb, le→ltb, length, length-append, IsU16, be16,
}
use dpi_warrior_native_xray.Base.Outcome.{Outcome, fails}
use dpi_warrior_native_xray.Net.{family_domain, Address, domain_address, family, Text}
use dpi_warrior_native_xray.AddressParser.{
  AddressParser, capacity, bytes_from_end, maybe_ip_prefix, is_valid_byte, is_valid_domain,
  domain_or_ip, read_domain, read_family, read_address, read_address_port, is_domain_too_long,
  write_address, write_address_port, read_port_first, read_port_last, write_port_first,
  write_port_last,
}
use dpi_warrior_native_xray.AddressParser.RoundTrip.{
  IsConsistent, read_full_from-append, last_byte-append, family_of-byte, read_port-append,
}

-- No byte of a type is part of a name.
type_byte-is_invalid : (tb : ℕ) → tb < 16 → is_valid_byte tb ≡ false
unfolding is_valid_byte
type_byte-is_invalid tb h = ground (arith, h)

type_byte-no_prefix : (tb : ℕ) → tb < 16 → maybe_ip_prefix tb ≡ false
unfolding maybe_ip_prefix
type_byte-no_prefix tb h = ground (arith, h)

is_valid_domain-append :
    (x y : List ℕ) → is_valid_domain y ≡ false → is_valid_domain (x ++ y) ≡ false
unfolding is_valid_domain
is_valid_domain-append [] y h = h
is_valid_domain-append (c ∷ x) y h = ground (arith, is_valid_domain-append x y h)

-- What is refused as a name, where its first byte is none of an IP address.
domain_or_ip-fails :
    (text : Text) (c : ℕ) (d : List ℕ)
    → maybe_ip_prefix c ≡ false
    → is_valid_domain (c ∷ d) ≡ false
    → domain_or_ip text (c ∷ d) ≡ fails
unfolding domain_or_ip
domain_or_ip-fails text c d e v = rw (e, domain_or_ip, v) refl

-- The first byte of what a fresh buffer holds behind a length of 0.
abbrev NotPrefix : List ℕ → ℕ → Type 0
NotPrefix [] tb = Unit {0}
NotPrefix (c ∷ b) tb = maybe_ip_prefix c ≡ false

-- The whole buffer, taken for the name: it ends in the length 0.
domain_or_ip-whole :
    (text : Text) (b : List ℕ) (tb : ℕ)
    → tb < 16
    → NotPrefix b tb
    → domain_or_ip text ((b ++ (tb ∷ [])) ++ (0 ∷ [])) ≡ fails
domain_or_ip-whole text [] tb small plain =
    domain_or_ip-fails text tb (0 ∷ []) (type_byte-no_prefix tb small)
      (is_valid_domain-append (tb ∷ []) (0 ∷ []) (unfold is_valid_domain is_valid_byte in refl))
domain_or_ip-whole text (c ∷ b) tb small plain =
    domain_or_ip-fails text c ((b ++ (tb ∷ [])) ++ (0 ∷ [])) plain (
      is_valid_domain-append (c ∷ (b ++ (tb ∷ []))) (0 ∷ [])
        (unfold is_valid_domain is_valid_byte in refl))

read_zero_length :
    (text : Text) (p : AddressParser) (b rest : List ℕ) (tb : ℕ)
    → IsConsistent p
    → p.addr_byte_map family_domain ≡ some tb
    → tb < 16
    → NotPrefix b tb
    → length b + 2 ≤ capacity
    → read_address text p b (tb ∷ 0 ∷ rest) ≡ fails
unfolding read_address read_family read_domain bytes_from_end
read_zero_length text p b rest tb agree e small plain room =
    let b1 = b ++ (tb ∷ []) in
    let b2 = b1 ++ (0 ∷ []) in
    let len1 : length b1 ≡ length b + 1 = length-append b (tb ∷ []) in
    let len2 : length b2 ≡ length b1 + 1 = length-append b1 (0 ∷ []) in
    let one = read_full_from-append b (tb ∷ []) (0 ∷ rest) 1 refl (omega arith) in
    let two = read_full_from-append b1 (0 ∷ []) rest 1 refl (omega (arith, len1)) in
    let none_more = read_full_from-append b2 [] rest 0 refl (omega (arith, len1, len2)) in
    rw
      (
        one,
        last_byte-append b tb,
        family_of-byte p family_domain tb agree e,
        two,
        last_byte-append b1 0,
        none_more,
        append-nil b2,
        domain_or_ip-whole text b tb small plain,
      )
      refl

write_address-domain :
    (p : AddressParser) (d : List ℕ) (tb : ℕ)
    → p.addr_byte_map family_domain ≡ some tb
    → length d ≤ 256
    → length d % 256 ≡ 0
    → write_address p (domain_address d) ≡ (tb ∷ 0 ∷ d, true)
unfolding write_address family is_domain_too_long
write_address-domain p d tb e short zero_byte =
    let fits : ltb 256 (length d) ≡ false = le→ltb _ _ short in
    rw (e, fits, zero_byte, write_address) refl

abbrev pub Refused : (List ℕ × Bool) → (List ℕ → Outcome (Address × ℕ × List ℕ)) → List ℕ → Type 0
Refused (w, done) read rest = (done ≡ true) × (read (w ++ rest) ≡ fails)

module _ (text : Text) (p : AddressParser) (d : List ℕ) (port : ℕ) (rest : List ℕ) (tb : ℕ)
    (agree : IsConsistent p) (e : p.addr_byte_map family_domain ≡ some tb) (small : tb < 16)
    (short : length d ≤ 256) (zero_byte : length d % 256 ≡ 0) (u : IsU16 port)
    (plain : maybe_ip_prefix (port / 2 ^ 8 % 256) ≡ false) where
  Refused-first :
      Refused (write_port_first p (domain_address d) port) (read_port_first text p []) rest
  unfolding write_port_first read_port_first
  Refused-first = rw (write_address-domain p d tb e short zero_byte) (
    refl,
    rw
        (
          read_port-append [] (tb ∷ 0 ∷ (d ++ rest)) port u (omega arith),
          read_zero_length text p (be16 port) (d ++ rest) tb agree e small plain (omega arith),
        )
        refl,
  )

  Refused-last : Refused (write_port_last p (domain_address d) port) (read_port_last text p []) rest
  unfolding write_port_last read_port_last
  Refused-last = rw (write_address-domain p d tb e short zero_byte) (
    refl,
    rw (read_zero_length text p [] ((d ++ be16 port) ++ rest) tb agree e small tt (omega arith))
        refl,
  )

  -- An empty domain, and one of 256 bytes, which `isDomainTooLong` lets pass, is written without an
  -- error, with the length 0, and refused when it is read from a fresh buffer. Assumed is that the
  -- parser has a byte below 16 for domains, that its tables agree, and that the first byte of the port
  -- is not the first of the text of an IP address.
  pub zero_length_domain-Refused :
      Refused (write_address_port p (domain_address d) port) (read_address_port text p []) rest
  unfolding write_address_port read_address_port
  zero_length_domain-Refused = ground (arith, Refused-first, Refused-last)
