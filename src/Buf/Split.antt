-- ===== src/Buf/Split.antt =====
-- Bytes that are split off the front.
use mathlib.Core.Path.{subst}
use dpi_warrior_native_xray.Base.{
  ℕ, ◌+◌, ◌-◌, ◌≤◌, ◌<◌, ◌≡◌, refl, sym, ap, ◌∙◌, inl, inr, true, false, [], ◌∷◌, ◌++◌, append-nil,
  append_assoc, arith, ltb, ◌==◌, Bool-cases, ltb→lt, ltb→le, length, take, drop, length-append,
  length-take, length-drop, take-all, drop-all, take-nil, take-append, eq_nil, take-append-drop,
}
use dpi_warrior_native_xray.Base.{drop-append}
use dpi_warrior_native_xray.Base.Outcome.{returns}
use dpi_warrior_native_xray.Buf.{
  Buffer, buffer_size, new, len, is_empty, clear, advance, read, extend_with, MultiBuffer, bytes_in,
  bytes_or_none, split_bytes, split_whole, split_size,
}

-- A read of a buffer that leaves no bytes in it, and one that does.
read-whole :
    (b : Buffer) (n : ℕ)
    → len b ≤ n
    → (is_empty (read b n).0 ≡ true) × (bytes_or_none (read b n).1 ≡ b.content)
unfolding read len is_empty clear
read-whole b n h = elim (Bool-cases (len b == 0)) [
  | inl e ↦ rw e (e, sym (eq_nil b.content (ground (arith, e))))
  | inr f ↦
      let all = take-all n b.content h in
      let same : (length b.content == length b.content) ≡ true = ground arith in
      rw (f, all, same) (refl, refl)
]

read-part :
    (b : Buffer) (n : ℕ)
    → n < len b
    → (is_empty (read b n).0 ≡ false)
      × (bytes_or_none (read b n).1 ≡ take n b.content)
      × ((read b n).0.content ≡ drop n b.content)
unfolding read len is_empty clear
read-part b n h =
    let some_left : (length b.content == 0) ≡ false = ground (arith, h) in
    let short : (length (take n b.content) == length b.content) ≡ false =
      ground (arith, length-take n b.content, h) in
    let rest : (length (drop n b.content) == 0) ≡ false =
      ground (arith, length-drop n b.content, h) in
    rw (some_left, short) (rest, refl, refl)

-- `SplitBytes` reads the bytes from the front, as many as there are and as asked for, and leaves the
-- rest of them, however they lie in the buffers.
pub split_bytes-takes :
    (mb : MultiBuffer) (n : ℕ)
    → ((split_bytes mb n).1 ≡ take n (bytes_in mb))
      × (bytes_in (split_bytes mb n).0 ≡ drop n (bytes_in mb))
unfolding split_bytes bytes_in
split_bytes-takes [] n = (sym (take-nil n), sym (drop-all n [] (omega arith)))
split_bytes-takes (b ∷ mb) n = elim (Bool-cases (ltb n (len b))) [
  | inl t ↦
      let lt : n < length b.content = unfold len in ltb→lt n (len b) t in
      let none_more : n - length b.content ≡ 0 = omega (arith, lt) in
      let (left, got, rest) = read-part b n (ltb→lt n (len b) t) in
      rw
        (
          left,
          got,
          take-append n b.content (bytes_in mb),
          drop-append n b.content (bytes_in mb),
          none_more,
        )
        (sym (append-nil (take n b.content)), ap (λ l. l ++ bytes_in mb) rest)
  | inr f ↦
      let le : length b.content ≤ n = unfold len in ltb→le n (len b) f in
      let (gone, got) = read-whole b n (ltb→le n (len b) f) in
      let (more, rest) = split_bytes-takes mb (n - length b.content) in
      rw
        (
          gone,
          got,
          take-append n b.content (bytes_in mb),
          drop-append n b.content (bytes_in mb),
          take-all n b.content le,
          drop-all n b.content le,
          more,
          rest,
        )
        (refl, refl)
]

-- The first of the buffers that are left is one too many.
abbrev pub FirstTooLong : ℕ → MultiBuffer → Type 0
FirstTooLong n [] = Unit
FirstTooLong n (b ∷ mb) = n < length b.content

-- The bytes are in order, no more than asked for are split off, and the next buffer is too long.
abbrev pub SplitsOff : ℕ → MultiBuffer → MultiBuffer × MultiBuffer → Type 0
SplitsOff size mb (left, r) =
    (bytes_in r ++ bytes_in left ≡ bytes_in mb)
    × (length (bytes_in r) ≤ size)
    × FirstTooLong (size - length (bytes_in r)) left

split_whole-SplitsOff :
    (size total : ℕ) (mb : MultiBuffer)
    → total ≤ size
    → SplitsOff (size - total) mb (split_whole size total mb)
unfolding split_whole bytes_in len
split_whole-SplitsOff size total [] h = (refl, omega arith, tt)
split_whole-SplitsOff size total (b ∷ mb) h =
    elim (Bool-cases (ltb size (total + length b.content))) [
      | inl t ↦ rw t (refl, omega arith, omega (arith, ltb→lt size (total + length b.content) t))
      | inr f ↦
          let fits = ltb→le size (total + length b.content) f in
          let (order, bound, next) =
            split_whole-SplitsOff size (total + length b.content) mb fits in
          let (left, r) = split_whole size (total + length b.content) mb in
          let n = length-append b.content (bytes_in r) in
          let same : size - (total + length b.content) - length (bytes_in r)
              ≡ size - total - length (b.content ++ bytes_in r) =
            omega (arith, n) in
          rw f (
            append_assoc b.content (bytes_in r) (bytes_in left) ∙ ap (λ l. b.content ++ l) order,
            omega (arith, n, bound, fits),
            subst (λ k. FirstTooLong k left) same next,
          )
    ]

-- `SplitSize` splits off the bytes from the front, no more than asked for, and leaves the rest in order;
-- it stops before the asked-for size only where the next whole buffer would exceed it. Assumed is that
-- no more is asked for than a buffer holds, else the copy can panic.
pub split_size-SplitsOff :
    (mb : MultiBuffer) (size : ℕ)
    → size ≤ buffer_size
    → (left r : MultiBuffer) × (split_size mb size ≡ returns (left, r))
      × SplitsOff size mb (left, r)
unfolding split_size bytes_in len extend_with new advance
split_size-SplitsOff [] size h = ([], [], refl, (refl, omega arith, tt))
split_size-SplitsOff (b ∷ mb) size h = elim (Bool-cases (ltb size (length b.content))) [
  | inl t ↦
      let lt = ltb→lt size (length b.content) t in
      let n = length-take size b.content in
      let m = length-drop size b.content in
      let fits : ltb buffer_size (0 + length (take size b.content)) ≡ false =
        ground (arith, n, h) in
      let part : Buffer = record { size = buffer_size; start = 0; content = take size b.content } in
      (
        advance b size ∷ mb,
        part ∷ [],
        rw (t, fits) refl,
        (
          rw (append-nil (take size b.content)) (
              sym (append_assoc (take size b.content) (drop size b.content) (bytes_in mb))
              ∙ ap (λ l. l ++ bytes_in mb) (take-append-drop size b.content)),
          rw (append-nil (take size b.content)) (omega (arith, n)),
          rw (append-nil (take size b.content)) (omega (arith, n, m, lt)),
        ),
      )
  | inr f ↦
      let all : size - 0 ≡ size = omega arith in
      let s =
        subst (λ k. SplitsOff k (b ∷ mb) (split_whole size 0 (b ∷ mb))) all
          (split_whole-SplitsOff size 0 (b ∷ mb) (omega arith)) in
      ((split_whole size 0 (b ∷ mb)).0, (split_whole size 0 (b ∷ mb)).1, rw f refl, s)
]
