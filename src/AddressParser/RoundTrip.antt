-- ===== src/AddressParser/RoundTrip.antt =====
-- Reading the address and the port that were written.
use dpi_warrior_native_xray.Base.{
  ℕ, suc, ◌+◌, ◌-◌, ◌%◌, ◌≤◌, ◌<◌, ◌≡◌, refl, sym, ◌∙◌, Bool, true, false, none, some, List, [],
  ◌∷◌, ◌++◌, append_assoc, arith, ltb, leb, ◌==◌, le→ltb, length, take, drop, same_bytes,
  length-append, take-length, drop-length, IsU16, be16, of_be16-be16,
}
use dpi_warrior_native_xray.Base.Outcome.{Outcome, returns}
use dpi_warrior_native_xray.Net.{
  AddressFamily, Address, ipv4_address, ipv6_address, domain_address, family, is_ip, mapped_prefix,
  ip_address, Text, trimmed, without_brackets, parse_address,
}
use dpi_warrior_native_xray.AddressParser.{
  AddressParser, capacity, read_full_from, bytes_from_end, port_from_bytes, read_port,
  is_valid_domain, read_ip, domain_or_ip, last_byte, read_domain, family_of, read_family,
  read_address, read_address_port, is_domain_too_long, write_address, write_address_port,
  read_port_first, read_port_last, write_port_first, write_port_last,
}

-- The two tables of a parser agree: the byte of a family leads back to it.
abbrev pub IsConsistent : AddressParser → Type 0
IsConsistent p =
    (f : AddressFamily) (b : ℕ)
    → p.addr_byte_map f ≡ some b
    → (p.type_parser b < 16) × (p.addr_type_map (p.type_parser b) ≡ some f)

-- An address as the constructors make it: an IPv4 address is not kept in sixteen bytes, and a domain
-- is a name of 1 to 255 letters, digits and the like that is not the text of an IP address.
abbrev pub IsCarried : Text → Address → Type 0
IsCarried text (ipv4_address ip) = length ip ≡ 4
IsCarried text (ipv6_address ip) =
    (length ip ≡ 16) × (same_bytes (take 12 ip) mapped_prefix ≡ false)
IsCarried text (domain_address d) =
    (1 ≤ length d)
    × (length d ≤ 255)
    × (is_valid_domain d ≡ true)
    × (text.parse_ip (trimmed text (without_brackets d)) ≡ none)

pub read_full_from-append :
    (b x rest : List ℕ) (n : ℕ)
    → length x ≡ n
    → length b + n ≤ capacity
    → read_full_from b (x ++ rest) n ≡ returns (b ++ x, rest)
unfolding read_full_from
read_full_from-append b x rest n e room =
    let fits : ltb capacity (length b + n) ≡ false = le→ltb _ _ room in
    let there : ltb (length (x ++ rest)) n ≡ false =
      le→ltb _ _ (omega (arith, length-append x rest)) in
    let front : take n (x ++ rest) ≡ x = rw (sym e) (take-length x rest) in
    let back : drop n (x ++ rest) ≡ rest = rw (sym e) (drop-length x rest) in
    rw (fits, there, front, back) refl

bytes_from_end-append :
    (b x : List ℕ) (n : ℕ) → length x ≡ n → 0 < n → bytes_from_end (b ++ x) n ≡ x
unfolding bytes_from_end
bytes_from_end-append b x n e pos =
    let some_bytes : (n == 0) ≡ false = ground (arith, pos) in
    let at : length (b ++ x) - n ≡ length b = omega (arith, length-append b x) in
    rw (some_bytes, at) (drop-length b x)

pub last_byte-append : (b : List ℕ) (c : ℕ) → last_byte (b ++ (c ∷ [])) ≡ c
unfolding last_byte
last_byte-append [] c = refl
last_byte-append (d ∷ []) c = refl
last_byte-append (d ∷ d' ∷ b) c = last_byte-append (d' ∷ b) c

read_ip-append :
    (b ip rest : List ℕ) (n : ℕ) (addr : Address)
    → length ip ≡ n
    → 0 < n
    → length b + n ≤ capacity
    → ip_address ip ≡ some addr
    → read_ip n b (ip ++ rest) ≡ returns (addr, b ++ ip, rest)
unfolding read_ip
read_ip-append b ip rest n addr e pos room a =
    rw (read_full_from-append b ip rest n e room, bytes_from_end-append b ip n e pos, a) refl

domain_or_ip-name :
    (text : Text) (d : List ℕ)
    → IsCarried text (domain_address d)
    → domain_or_ip text d ≡ returns (domain_address d)
unfolding domain_or_ip parse_address is_ip family
domain_or_ip-name text [] h = absurd (omega (arith, h.0))
domain_or_ip-name text (c ∷ d) h = ground (arith, h)

read_domain-append :
    (text : Text) (b d rest : List ℕ)
    → IsCarried text (domain_address d)
    → length b + 256 ≤ capacity
    → read_domain text b ((length d % 256) ∷ (d ++ rest))
      ≡ returns (domain_address d, b ++ ((length d % 256) ∷ d), rest)
unfolding read_domain
read_domain-append text b d rest h room =
    let n = length d % 256 in
    let b1 = b ++ (n ∷ []) in
    let len : length d ≡ n = omega (arith, h.1) in
    let len1 : length b1 ≡ length b + 1 = length-append b (n ∷ []) ∙ omega arith in
    let first_read = read_full_from-append b (n ∷ []) (d ++ rest) 1 refl (omega arith) in
    let next_read = read_full_from-append b1 d rest n len (omega (arith, len1)) in
    rw
      (
        first_read,
        last_byte-append b n,
        next_read,
        bytes_from_end-append b1 d n len (omega (arith, h.0, len)),
        domain_or_ip-name text d h,
        append_assoc b (n ∷ []) d,
      )
      refl

-- The bytes of an address behind its type.
abbrev pub address_body : Address → List ℕ
address_body (ipv4_address ip) = ip
address_body (ipv6_address ip) = ip
address_body (domain_address d) = (length d % 256) ∷ d

ip_address-ipv4 : (ip : List ℕ) → length ip ≡ 4 → ip_address ip ≡ some (ipv4_address ip)
unfolding ip_address
ip_address-ipv4 ip e = rw e refl

ip_address-ipv6 :
    (ip : List ℕ)
    → length ip ≡ 16
    → same_bytes (take 12 ip) mapped_prefix ≡ false
    → ip_address ip ≡ some (ipv6_address ip)
unfolding ip_address
ip_address-ipv6 ip e plain = rw (e, plain) refl

pub family_of-byte :
    (p : AddressParser) (f : AddressFamily) (tb : ℕ)
    → IsConsistent p
    → p.addr_byte_map f ≡ some tb
    → family_of p tb ≡ some f
unfolding family_of
family_of-byte p f tb agree e =
    let (small, back) = agree f tb e in
    let known : leb 16 (p.type_parser tb) ≡ false = ground (arith, small) in rw (known, back) refl

read_family-body :
    (text : Text) (addr : Address) (b rest : List ℕ)
    → IsCarried text addr
    → length b + 256 ≤ capacity
    → read_family text (some (family addr)) b (address_body addr ++ rest)
      ≡ returns (addr, b ++ address_body addr, rest)
unfolding read_family family
read_family-body text (ipv4_address ip) b rest h room =
    read_ip-append b ip rest 4 (ipv4_address ip) h (omega arith) (omega arith)
      (ip_address-ipv4 ip h)
read_family-body text (ipv6_address ip) b rest h room =
    read_ip-append b ip rest 16 (ipv6_address ip) h.0 (omega arith) (omega arith)
      (ip_address-ipv6 ip h.0 h.1)
read_family-body text (domain_address d) b rest h room = read_domain-append text b d rest h room

-- What is written of an address that can be carried is read back as that address.
read_address-body :
    (text : Text) (p : AddressParser) (addr : Address) (b rest : List ℕ) (tb : ℕ)
    → IsConsistent p
    → IsCarried text addr
    → p.addr_byte_map (family addr) ≡ some tb
    → length b + 257 ≤ capacity
    → read_address text p b (tb ∷ (address_body addr ++ rest))
      ≡ returns (addr, b ++ (tb ∷ address_body addr), rest)
unfolding read_address
read_address-body text p addr b rest tb agree h e room =
    let b1 = b ++ (tb ∷ []) in
    let len1 : length b1 ≡ length b + 1 = length-append b (tb ∷ []) ∙ omega arith in
    rw
      (
        read_full_from-append b (tb ∷ []) (address_body addr ++ rest) 1 refl (omega arith),
        last_byte-append b tb,
        family_of-byte p (family addr) tb agree e,
        read_family-body text addr b1 rest h (omega (arith, len1)),
        append_assoc b (tb ∷ []) (address_body addr),
      )
      refl

pub write_address-body :
    (text : Text) (p : AddressParser) (addr : Address) (tb : ℕ)
    → IsCarried text addr
    → p.addr_byte_map (family addr) ≡ some tb
    → write_address p addr ≡ (tb ∷ address_body addr, true)
unfolding write_address family is_domain_too_long
write_address-body text p (ipv4_address ip) tb h e = rw (e, write_address) refl
write_address-body text p (ipv6_address ip) tb h e = rw (e, write_address) refl
write_address-body text p (domain_address d) tb h e =
    let short : ltb 256 (length d) ≡ false = le→ltb _ _ (omega (arith, h.1)) in
    rw (e, short, write_address) refl

pub read_port-append :
    (b rest : List ℕ) (port : ℕ)
    → IsU16 port
    → length b + 2 ≤ capacity
    → read_port b (be16 port ++ rest) ≡ returns (port, b ++ be16 port, rest)
unfolding read_port port_from_bytes
read_port-append b rest port h room =
    rw
      (
        read_full_from-append b (be16 port) rest 2 refl room,
        bytes_from_end-append b (be16 port) 2 refl (omega arith),
        of_be16-be16 port h,
      )
      refl

pub length-address_body :
    (text : Text) (addr : Address) → IsCarried text addr → length (address_body addr) ≤ 256
length-address_body text (ipv4_address ip) h = omega (arith, h)
length-address_body text (ipv6_address ip) h = omega (arith, h.0)
length-address_body text (domain_address d) h = omega (arith, h.1)

-- What was written is read back, by one of the two orders.
abbrev pub ReadsBack :
    (List ℕ × Bool) → (List ℕ → Outcome (Address × ℕ × List ℕ)) → Address → ℕ → List ℕ → Type 0
ReadsBack (w, done) read addr port rest =
    (done ≡ true) × (read (w ++ rest) ≡ returns (addr, port, rest))

module _ (text : Text) (p : AddressParser) (addr : Address) (port : ℕ) (b rest : List ℕ) (tb : ℕ)
    (agree : IsConsistent p) (e : p.addr_byte_map (family addr) ≡ some tb) (h : IsCarried text addr)
    (u : IsU16 port) (room : length b + 259 ≤ capacity) where
  port_first_back :
      ReadsBack (write_port_first p addr port) (read_port_first text p b) addr port rest
  unfolding read_port_first write_port_first
  port_first_back =
      let b2 = b ++ be16 port in
      let len2 : length b2 ≡ length b + 2 = length-append b (be16 port) in
      let number = read_port-append b (tb ∷ (address_body addr ++ rest)) port u (omega arith) in
      let address = read_address-body text p addr b2 rest tb agree h e (omega (arith, len2)) in
      rw (write_address-body text p addr tb h e) (refl, rw (number, address) refl)

  port_last_back : ReadsBack (write_port_last p addr port) (read_port_last text p b) addr port rest
  unfolding read_port_last write_port_last
  port_last_back =
      let body = address_body addr in
      let b1 = b ++ (tb ∷ body) in
      let len1 : length b1 ≡ length b + suc (length body) = length-append b (tb ∷ body) in
      let short = length-address_body text addr h in
      let address =
        read_address-body text p addr b (be16 port ++ rest) tb agree h e (omega arith) in
      let number = read_port-append b1 rest port u (omega (arith, len1, short)) in
      rw (write_address-body text p addr tb h e)
        (refl, rw (append_assoc body (be16 port) rest, address, number) refl)

  -- The address and the port that a parser wrote, in either order, the same parser reads back, and
  -- leaves what follows. Assumed is that the parser has a byte for the family, that its tables agree,
  -- that the address can be carried, and that the buffer that is read into has room.
  pub read-write_address_port :
      ReadsBack (write_address_port p addr port) (read_address_port text p b) addr port rest
  unfolding read_address_port write_address_port
  read-write_address_port = ground (arith, port_first_back, port_last_back)
