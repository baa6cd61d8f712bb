-- ===== src/Buf/Compacting.antt =====
-- Buffers that are put together.
use dpi_warrior_native_xray.Base.{
  ℕ, ◌+◌, ◌-◌, ◌≤◌, ◌<◌, ◌≡◌, refl, sym, ap, ◌∙◌, ◌≢◌, inl, inr, true, false, some, List, [], ◌∷◌,
  ◌++◌, append-nil, append_assoc, arith, ltb, ◌==◌, Bool-cases, ltb→lt, ltb→le, length,
  length-append, take-all, All,
}
use dpi_warrior_native_xray.Base.Outcome.{returns}
use dpi_warrior_native_xray.Buf.{
  Buffer, buffer_size, len, room, clear, read, read_from, MultiBuffer, bytes_in, compact_from,
  compact,
}

-- A buffer as `New` makes it and `Write` fills it, with some content.
abbrev pub IsFresh : Buffer → Type 0
IsFresh b =
    (b.size ≡ buffer_size)
    × (b.start ≡ 0)
    × (0 < length b.content)
    × (length b.content ≤ buffer_size)

read-fits : (b : Buffer) (n : ℕ) → 0 < len b → len b ≤ n → (read b n).1 ≡ some b.content
unfolding read len clear
read-fits b n p h =
    let some_left : (length b.content == 0) ≡ false = ground (arith, p) in
    let same : (length b.content == length b.content) ≡ true = ground arith in
    rw (some_left, take-all n b.content h, same) refl

read-none : (b : Buffer) → 0 < length b.content → (read b 0).1 ≡ some []
unfolding read len
read-none b p =
    let some_left : (length b.content == 0) ≡ false = ground (arith, p) in
    let none_read : (0 == length b.content) ≡ false = ground (arith, p) in
    rw (some_left, none_read) refl

-- The buffer after it has been filled with another.
abbrev filled : Buffer → List ℕ → Buffer
filled b bytes = record b { content = b.content ++ bytes }

compact_from-together :
    (last curr : Buffer) (mb : MultiBuffer)
    → length last.content + length curr.content ≤ buffer_size
    → (bytes : List ℕ) → (read curr (room last)).1 ≡ some bytes
    → compact_from last (curr ∷ mb) ≡ compact_from (filled last bytes) mb
unfolding compact_from len read_from
compact_from-together last curr mb h bytes e =
    let fits : ltb buffer_size (length last.content + length curr.content) ≡ false =
      ground (arith, h) in
    rw (fits, e) refl

compact_from-apart :
    (last curr : Buffer) (mb rest : MultiBuffer)
    → buffer_size < length last.content + length curr.content
    → compact_from curr mb ≡ returns rest
    → compact_from last (curr ∷ mb) ≡ returns (last ∷ rest)
unfolding compact_from len
compact_from-apart last curr mb rest h e =
    let over : ltb buffer_size (length last.content + length curr.content) ≡ true =
      ground (arith, h) in
    rw (over, e) refl

room-IsFresh : (b : Buffer) → IsFresh b → room b ≡ buffer_size - length b.content
unfolding room len
room-IsFresh b (s, z, p, h) = rw (s, z) (omega arith)

abbrev Compacts : Buffer → MultiBuffer → Type 0
Compacts last mb =
    (out : MultiBuffer) × (compact_from last mb ≡ returns out)
    × (bytes_in out ≡ last.content ++ bytes_in mb)

compact_from-keeps :
    (last : Buffer) (mb : MultiBuffer) → IsFresh last → All IsFresh mb → Compacts last mb
unfolding bytes_in
compact_from-keeps last [] f all = (last ∷ [], unfold compact_from in refl, refl)
compact_from-keeps last (curr ∷ mb) f (g, all) =
    elim (Bool-cases (ltb buffer_size (length last.content + length curr.content))) [
      | inl over ↦
          let (rest, e, bytes) = compact_from-keeps curr mb g all in
          (
            last ∷ rest,
            compact_from-apart last curr mb rest
                (ltb→lt buffer_size (length last.content + length curr.content) over) e,
            ap (λ l. last.content ++ l) bytes,
          )
      | inr fits ↦
          let (s, z, p, h) = f in
          let (s', z', p', h') = g in
          let le = ltb→le buffer_size (length last.content + length curr.content) fits in
          let n = length-append last.content curr.content in
          let got =
            read-fits curr (room last) (unfold len in p')
              (unfold len in rw (room-IsFresh last f) (omega (arith, le))) in
          let last' = filled last curr.content in
          let (out, e, bytes) =
            compact_from-keeps last' mb (s, z, omega (arith, n, p), omega (arith, n, le)) all in
          (
            out,
            compact_from-together last curr mb le curr.content got ∙ e,
            bytes ∙ append_assoc last.content curr.content (bytes_in mb),
          )
    ]

-- `Compact` keeps the bytes and their order. Assumed is that every buffer is of the regular size, holds
-- a byte at least, and has its content at the start of its array.
pub compact-keeps :
    (mb : MultiBuffer)
    → All IsFresh mb
    → (out : MultiBuffer) × (compact mb ≡ returns out) × (bytes_in out ≡ bytes_in mb)
unfolding compact bytes_in
compact-keeps [] all = ([], refl, refl)
compact-keeps (b ∷ mb) (f, all) = compact_from-keeps b mb f all

-- `Compact` of two buffers of the regular size whose bytes fit into one: the first is given only as many
-- bytes of the second as come after its content, and the second is released. When the content of the
-- first ends where its array ends, after a part of it has been read, all bytes of the second are lost.
pub compact-loses :
    (b c : Buffer)
    → b.size ≡ buffer_size
    → b.start + length b.content ≡ buffer_size
    → 0 < length c.content
    → length c.content ≤ b.start
    → (out : MultiBuffer) × (compact (b ∷ c ∷ []) ≡ returns out)
      × (bytes_in out ≡ b.content)
      × (bytes_in out ≢ bytes_in (b ∷ c ∷ []))
unfolding compact bytes_in
compact-loses b c s full p fits =
    let no_room : room b ≡ 0 = unfold room len in omega (arith, s, full) in
    let last = filled b [] in
    let same : bytes_in (last ∷ []) ≡ b.content =
      append-nil (b.content ++ []) ∙ append-nil b.content in
    (
      last ∷ [],
      compact_from-together b c [] (omega (arith, full, fits)) [] (rw no_room (read-none c p))
          ∙ (unfold compact_from in refl),
      same,
      λ e.
          let n = length-append b.content (c.content ++ []) in
          let m = ap length (append-nil c.content) in
          omega (arith, ap length (sym same ∙ e), n, m, p),
    )
