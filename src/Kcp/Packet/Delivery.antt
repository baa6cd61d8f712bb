-- ===== src/Kcp/Packet/Delivery.antt =====
use dpi_warrior_native_xray.Base.{
  ℕ, zero, suc, ◌+◌, ◌-◌, ◌*◌, ◌≤◌, ◌≡◌, refl, sym, ap, ◌∙◌, ◌⊎◌, inl, inr, false, Option, none,
  some, List, [], ◌∷◌, ◌++◌, append_assoc, arith, ltb, Option-cases, le→ltb, length, length-append,
  length-replicate, take-all, copy, zeros, copy-zeros,
}
use dpi_warrior_native_xray.Kcp.Segment.{Segment, read_segment, buf_size}
use dpi_warrior_native_xray.Kcp.Segment.Safety.{read_segment_total}
use dpi_warrior_native_xray.Kcp.Packet.{
  PacketHeader, Aead, Wrapping, read_segments, header_overhead, security_overhead, overhead, extend,
  write_header, write_body, write,
}

-- The segments of a packet, one after another, up to its end or to what is not a segment.
abbrev pub Parses : List ℕ → List Segment → Type 0
Parses b [] = (b ≡ []) ⊎ (read_segment b ≡ some none)
Parses b (s ∷ ss) = (rest : List ℕ) × (read_segment b ≡ some (some (s, rest))) × Parses rest ss

-- The loop over a packet of any bytes does not panic and does not run out of its rounds, of which
-- there are as many as bytes: it ends where the packet does, or at what is not a segment, and each of
-- the segments that it gives was read, in order, and took sixteen bytes at least.
pub read_segments-Parses :
    (n : ℕ) (b : List ℕ)
    → length b ≤ n
    → (ss : List Segment) × (read_segments n b ≡ some ss)
      × Parses b ss
      × (16 * length ss ≤ length b)
unfolding read_segments
read_segments-Parses zero [] h = ([], refl, inl refl, omega arith)
read_segments-Parses zero (x ∷ b) h = absurd (omega arith)
read_segments-Parses (suc n) [] h = ([], refl, inl refl, omega arith)
read_segments-Parses (suc n) (x ∷ b) h =
    let (safe, takes) = read_segment_total (x ∷ b) in
    elim (Option-cases (read_segment (x ∷ b))) [
      | inl e ↦ absurd (safe e)
      | inr (none, e) ↦ ([], rw e refl, inr e, omega arith)
      | inr (some (s, rest), e) ↦
          let l = takes s rest e in
          let (ss, f, p, m) = read_segments-Parses n rest (omega arith) in
          (s ∷ ss, rw (e, f) refl, (rest, e, p), omega arith)
    ]

-- What a header does: it fills what it is given.
abbrev pub HeaderLaw : Option PacketHeader → Type 0
HeaderLaw none = Unit {0}
HeaderLaw (some h) = (z : List ℕ) → length (h.serialize z) ≡ length z

-- What a cipher does to what fits a buffer: it adds its overhead.
abbrev pub AddsOverhead : Option Aead → Type 0
AddsOverhead none = Unit {0}
AddsOverhead (some a) =
    (nonce p : List ℕ)
    → length nonce ≡ a.nonce_size
    → length p ≤ buf_size
    → length (a.seal nonce p) ≡ a.overhead + length p

-- And it opens what it sealed.
abbrev pub Opens : Option Aead → Type 0
Opens none = Unit {0}
Opens (some a) =
    (nonce p : List ℕ)
    → length nonce ≡ a.nonce_size
    → length p ≤ buf_size
    → a.open_sealed nonce (a.seal nonce p) ≡ some p

abbrev pub nonce_size : Option Aead → ℕ
nonce_size none = 0
nonce_size (some a) = a.nonce_size

abbrev header_bytes : Option PacketHeader → List ℕ
header_bytes none = []
header_bytes (some h) = h.serialize (zeros h.size)

abbrev body : Option Aead → List ℕ → List ℕ → List ℕ
body none nonce b = b
body (some a) nonce b = nonce ++ a.seal nonce b

length-header_bytes :
    (h : Option PacketHeader) → HeaderLaw h → length (header_bytes h) ≡ header_overhead h
unfolding header_overhead
length-header_bytes none l = refl
length-header_bytes (some h) l = l (zeros h.size) ∙ length-replicate h.size 0

length-body :
    (a : Option Aead) (nonce b : List ℕ)
    → AddsOverhead a
    → length nonce ≡ nonce_size a
    → length b ≤ buf_size
    → length (body a nonce b) ≡ security_overhead a + nonce_size a + length b
unfolding security_overhead
length-body none nonce b l e f = omega arith
length-body (some a) nonce b l e f =
    omega (arith, length-append nonce (a.seal nonce b), l nonce b e f)

extend-fits :
    (bb : List ℕ) (n : ℕ) (fill : List ℕ → List ℕ)
    → length bb + n ≤ buf_size
    → extend bb n fill ≡ some (bb ++ fill (zeros n))
unfolding extend
extend-fits bb n fill f = rw (le→ltb _ _ f) refl

write_header-bytes :
    (h : Option PacketHeader)
    → header_overhead h ≤ buf_size
    → write_header h ≡ some (header_bytes h)
unfolding write_header header_overhead
write_header-bytes none f = refl
write_header-bytes (some h) f = extend-fits [] h.size h.serialize (omega arith)

write_body-bytes :
    (a : Option Aead) (nonce b bb : List ℕ)
    → AddsOverhead a
    → length nonce ≡ nonce_size a
    → length bb + (security_overhead a + nonce_size a + length b) ≤ buf_size
    → write_body a nonce b bb ≡ some (bb ++ body a nonce b)
unfolding write_body security_overhead extend
write_body-bytes none nonce b bb l e f = rw (take-all (buf_size - length bb) b (omega arith))
write_body-bytes (some a) nonce b bb l e f =
    let sealed = a.seal nonce b in
    let sized = l nonce b e (omega arith) in
    let fits0 : ltb buf_size (length bb + a.nonce_size) ≡ false = le→ltb _ _ (omega arith) in
    let n : copy (zeros a.nonce_size) nonce ≡ nonce = rw (sym e) (copy-zeros nonce) in
    let s : copy (zeros (a.overhead + length b)) sealed ≡ sealed =
      rw (sym sized) (copy-zeros sealed) in
    let fits1 : ltb buf_size (length (bb ++ nonce) + (a.overhead + length b)) ≡ false =
      le→ltb _ _ (omega (arith, length-append bb nonce)) in
    rw (fits0, n, fits1, s) (ap some (append_assoc bb nonce sealed))

write-bytes :
    (w : Wrapping) (nonce b : List ℕ)
    → HeaderLaw w.header
    → AddsOverhead w.security
    → length nonce ≡ nonce_size w.security
    → overhead w + nonce_size w.security + length b ≤ buf_size
    → write w nonce b ≡ some (header_bytes w.header ++ body w.security nonce b)
unfolding write overhead
write-bytes w nonce b h s e f =
    let n = length-header_bytes w.header h in
    rw (write_header-bytes w.header (omega arith))
      (write_body-bytes w.security nonce b (header_bytes w.header) s e (omega arith))

-- A packet is the header, the nonce and the sealed segments, and so longer than `Overhead` tells by
-- the nonce. Assumed is that it fits a buffer, that the nonce has its size, that the header fills what
-- it is given and that the cipher, for what fits a buffer, adds its overhead.
pub length-write :
    (w : Wrapping) (nonce b : List ℕ)
    → HeaderLaw w.header
    → AddsOverhead w.security
    → length nonce ≡ nonce_size w.security
    → overhead w + nonce_size w.security + length b ≤ buf_size
    → (p : List ℕ) × (write w nonce b ≡ some p)
      × (length p ≡ overhead w + nonce_size w.security + length b)
unfolding overhead
length-write w nonce b h s e f =
    let head = header_bytes w.header in
    let tail = body w.security nonce b in
    (
      head ++ tail,
      write-bytes w nonce b h s e f,
      omega (
        arith,
        length-append head tail,
        length-header_bytes w.header h,
        length-body w.security nonce b s e (omega arith),
      ),
    )
