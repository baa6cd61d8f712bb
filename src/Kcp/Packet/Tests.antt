-- ===== src/Kcp/Packet/Tests.antt =====
-- The theorems on packets at concrete inputs.
use dpi_warrior_native_xray.Base.{
  ℕ, ◌+◌, ◌*◌, ◌≤◌, ◌≡◌, refl, Option, none, some, List, [], ◌∷◌, arith, length,
}
use dpi_warrior_native_xray.Kcp.Crypt
use dpi_warrior_native_xray.Kcp.Crypt.Undo.{length-seal}
use dpi_warrior_native_xray.Kcp.Segment.{bytes, Segment, data_segment, new_data_segment}
use dpi_warrior_native_xray.Kcp.Packet.{
  Aead, Wrapping, read_segments, overhead, write, security_overhead, header_overhead,
}
use dpi_warrior_native_xray.Kcp.Packet.Delivery.{
  Parses, read_segments-Parses, AddsOverhead, nonce_size, length-write,
}

-- What the authenticator of crypt.go opened, and `none` for its error; it does not panic here.
abbrev opened : Option (Option (List ℕ)) → Option (List ℕ)
opened none = none
opened (some r) = r

-- That authenticator as a cipher: it has no nonce, and an overhead of six bytes.
abbrev authenticator : Aead
authenticator = record {
  nonce_size = 0;
  overhead = 6;
  seal = λ nonce p. bytes (Crypt.seal p);
  open_sealed = λ nonce c. opened (Crypt.open_sealed c);
}

authenticator-AddsOverhead : AddsOverhead (some authenticator)
authenticator-AddsOverhead = λ nonce p e f. length-seal p

-- With a header of two bytes.
abbrev wrapping : Wrapping
wrapping = record {
  header = some (record { size = 2; serialize = λ z. z });
  security = some authenticator;
}

abbrev hi : Segment
hi =
    data_segment (record new_data_segment { conv = 7; number = 3; payload = some (104 ∷ 105 ∷ []) })

length-write_example :
    (p : List ℕ) × (write wrapping [] (1 ∷ 2 ∷ []) ≡ some p)
    × (length p ≡ overhead wrapping + nonce_size wrapping.security + 2)
length-write_example =
    length-write wrapping [] (1 ∷ 2 ∷ []) (λ z. refl) authenticator-AddsOverhead refl
      (unfold overhead header_overhead security_overhead in omega arith)

-- A ping, and two bytes that are no segment.
abbrev ping_and_rest : List ℕ
ping_and_rest = 0 ∷ 7 ∷ 3 ∷ 0 ∷ 0 ∷ 0 ∷ 0 ∷ 1 ∷ 0 ∷ 0 ∷ 0 ∷ 2 ∷ 0 ∷ 0 ∷ 0 ∷ 100 ∷ 9 ∷ 9 ∷ []

read_segments-Parses_example :
    (ss : List Segment) × (read_segments 18 ping_and_rest ≡ some ss)
    × Parses ping_and_rest ss
    × (16 * length ss ≤ 18)
read_segments-Parses_example = read_segments-Parses 18 ping_and_rest (omega arith)
