-- ===== src/Buf/Merge.antt =====
-- Bytes that are added at the end.
use dpi_warrior_native_xray.Base.{
  ℕ, zero, suc, ◌≤◌, ◌<◌, ◌≡◌, refl, sym, ap, ◌∙◌, inl, inr, List, [], ◌∷◌, ◌++◌, append-nil,
  append_assoc, arith, ◌==◌, Bool-cases, length, take, drop, length-take, length-drop, eq_nil,
}
use dpi_warrior_native_xray.Buf.{
  Buffer, buffer_size, new, len, room, is_full, write, MultiBuffer, bytes_in, new_buffers,
  merge_bytes,
}

-- What a write takes and what it leaves.
taken-left : (r : ℕ) (src : List ℕ) → take r src ++ drop (length (take r src)) src ≡ src
taken-left zero src = refl
taken-left (suc r) [] = refl
taken-left (suc r) (x ∷ src) = ap (◌∷◌ x) (taken-left r src)

write-adds :
    (b : Buffer) (src : List ℕ)
    → (write b src).0.content ++ drop (write b src).1 src ≡ b.content ++ src
unfolding write
write-adds b src =
    append_assoc b.content (take (room b) src) (drop (length (take (room b) src)) src)
    ∙ ap (λ l. b.content ++ l) (taken-left (room b) src)

write-new-some : (src : List ℕ) → 0 < length src → 0 < (write new src).1
unfolding write room len new
write-new-some src h = omega (arith, length-take buffer_size src, h)

new_buffers-bytes :
    (rounds : ℕ) (src : List ℕ) → length src ≤ rounds → bytes_in (new_buffers rounds src) ≡ src
unfolding new_buffers bytes_in
new_buffers-bytes zero src h = sym (eq_nil src (omega (arith, h)))
new_buffers-bytes (suc rounds) src h = elim (Bool-cases (length src == 0)) [
  | inl e ↦ rw e (sym (eq_nil src (ground (arith, e))))
  | inr f ↦
      let some_left : 0 < length src = ground (arith, f) in
      let n = (write new src).1 in
      let shorter : length (drop n src) ≤ rounds =
        omega (arith, length-drop n src, write-new-some src some_left, h) in
      rw f (
        ap (λ l. (write new src).0.content ++ l) (new_buffers-bytes rounds (drop n src) shorter)
        ∙ (unfold new in write-adds new src))
]

-- `MergeBytes` adds the bytes at the end, whatever room the last buffer has, and loses none.
pub merge_bytes-adds :
    (dest : MultiBuffer) (src : List ℕ) → bytes_in (merge_bytes dest src) ≡ bytes_in dest ++ src
unfolding merge_bytes bytes_in
merge_bytes-adds [] src = new_buffers-bytes (length src) src (omega arith)
merge_bytes-adds (b ∷ []) src =
    let (b', n) = write b src in
    rw (append-nil b.content) (elim (Bool-cases (is_full b)) [
      | inl t ↦ rw (t, new_buffers-bytes (length src) src (omega arith)) refl
      | inr f ↦ rw f (
          ap (λ l. b'.content ++ l)
            (new_buffers-bytes (length (drop n src)) (drop n src) (omega arith))
          ∙ write-adds b src)
    ])
merge_bytes-adds (b ∷ c ∷ mb) src =
    ap (λ l. b.content ++ l) (merge_bytes-adds (c ∷ mb) src)
    ∙ sym (append_assoc b.content (bytes_in (c ∷ mb)) src)
