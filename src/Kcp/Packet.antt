-- ===== src/Kcp/Packet.antt =====
-- io.go: the packets that carry the segments.
-- The header and the cipher are interfaces, and are arguments: a header fills the slice that it is
-- given, and a cipher opens what it sealed under the same nonce. The nonce of a packet is an argument.
-- The result `none` is a panic; a packet that is refused gives no segments.
pub mod Delivery
mod Tests
use dpi_warrior_native_xray.Base.{
  ℕ, zero, suc, ◌+◌, ◌-◌, Option, none, some, List, [], ◌∷◌, ◌++◌, ltb, leb, if◌then◌else◌, length,
  take, drop, copy, zeros, ◌>>=◌,
}
use dpi_warrior_native_xray.Kcp.Segment.{Segment, read_segment, buf_size}

-- internet.PacketHeader.
pub record PacketHeader : Type 0 where
  pub size : ℕ
  pub serialize : List ℕ → List ℕ

-- cipher.AEAD, without additional data: both functions take the nonce first.
pub record Aead : Type 0 where
  pub nonce_size : ℕ
  pub overhead : ℕ
  pub seal : List ℕ → List ℕ → List ℕ
  pub open_sealed : List ℕ → List ℕ → Option (List ℕ)

-- The header and the security of a reader or a writer, each of which may be nil.
pub record Wrapping : Type 0 where
  pub header : Option PacketHeader
  pub security : Option Aead

unfoldable pub strip_header : Option PacketHeader → List ℕ → Option (List ℕ)
strip_header none b = some b
strip_header (some h) b = if leb (length b) h.size then none else some (drop h.size b)

unfoldable pub decrypt : Option Aead → List ℕ → Option (List ℕ)
decrypt none b = some b
decrypt (some a) b =
    if leb (length b) (a.nonce_size + a.overhead)
    then none
    else a.open_sealed (take a.nonce_size b) (drop a.nonce_size b)

-- The loop over the segments of a packet, each of which takes a byte at least.
unfoldable pub read_segments : ℕ → List ℕ → Option (List Segment)
read_segments zero b = some []
read_segments (suc n) [] = some []
read_segments (suc n) (x ∷ b) = read_segment (x ∷ b) >>= λ r. elim r [
  | none ↦ some []
  | some (s, rest) ↦ read_segments n rest >>= λ ss. some (s ∷ ss)
]

-- `KCPPacketReader.Read`.
unfoldable pub read : Wrapping → List ℕ → Option (List Segment)
read w b = elim (strip_header w.header b >>= decrypt w.security) [
  | none ↦ some []
  | some out ↦ read_segments (length out) out
]

unfoldable pub header_overhead : Option PacketHeader → ℕ
header_overhead none = 0
header_overhead (some h) = h.size

unfoldable pub security_overhead : Option Aead → ℕ
security_overhead none = 0
security_overhead (some a) = a.overhead

-- `KCPPacketWriter.Overhead`.
unfoldable pub overhead : Wrapping → ℕ
unfolding header_overhead security_overhead
overhead w = header_overhead w.header + security_overhead w.security

-- `bb.Extend(n)` on a buffer that holds `used` bytes; what is done with the new bytes is `fill`.
unfoldable pub extend : List ℕ → ℕ → (List ℕ → List ℕ) → Option (List ℕ)
extend bb n fill = if ltb buf_size (length bb + n) then none else some (bb ++ fill (zeros n))

unfoldable pub write_header : Option PacketHeader → Option (List ℕ)
unfolding extend
write_header none = some []
write_header (some h) = extend [] h.size h.serialize

-- `bb.Write` keeps what fits; `Seal` writes over the front of the slice that it is given, and the
-- nonce is read into the buffer in front of it.
unfoldable pub write_body : Option Aead → List ℕ → List ℕ → List ℕ → Option (List ℕ)
unfolding extend
write_body none nonce b bb = some (bb ++ take (buf_size - length bb) b)
write_body (some a) nonce b bb = do
  bb ← extend bb a.nonce_size (λ z. copy z nonce)
  extend bb (a.overhead + length b) (λ z. copy z (a.seal nonce b))

-- `KCPPacketWriter.Write`: the bytes handed to its own writer.
unfoldable pub write : Wrapping → List ℕ → List ℕ → Option (List ℕ)
unfolding write_header write_body
write w nonce b = write_header w.header >>= write_body w.security nonce b
