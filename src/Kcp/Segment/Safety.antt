-- ===== src/Kcp/Segment/Safety.antt =====
-- Reading a segment from any bytes, well formed or not.
use dpi_warrior_native_xray.Base.{
  ℕ, zero, suc, ◌+◌, ◌*◌, ◌≤◌, ◌≡◌, refl, ◌≢◌, inl, inr, Option, none, some, List, arith, ltb, ◌==◌,
  if◌then◌else◌, Bool-cases, ltb→le, length, length-drop, ◌>>=◌,
}
use dpi_warrior_native_xray.Base.{
  Reads, Reads-some, read_byte-Reads, read_uint16-Reads, read_uint32-Reads,
}
use dpi_warrior_native_xray.Kcp.Segment.{
  AckSegment, Segment, command_data, command_ack, parse_data, parse_numbers, parse_ack,
  parse_cmd_only, as_segment, read_segment, put_number,
}

-- No panic; and what is accepted took `n` bytes at least.
abbrev pub Takes : {A : Type 0} → ℕ → List ℕ → Option (Option (A × List ℕ)) → Type 0
Takes n buf none = ⊥
Takes n buf (some none) = Unit {0}
Takes n buf (some (some (s, rest))) = n + length rest ≤ length buf

Takes-bind :
    {A : Type 0} (n m : ℕ) (buf b : List ℕ) (r : Option (ℕ × List ℕ))
    (k : ℕ × List ℕ → Option (Option (A × List ℕ)))
    → Reads m b r
    → ((x : ℕ) (rest : List ℕ) → m + length rest ≡ length b → Takes n buf (k (x, rest)))
    → Takes n buf (r >>= k)
Takes-bind n m buf b none k h t = absurd h
Takes-bind n m buf b (some (x, rest)) k h t = t x rest h

Takes-guard :
    {A : Type 0} (n m : ℕ) (buf b : List ℕ) (k : Option (Option (A × List ℕ)))
    → (m ≤ length b → Takes n buf k)
    → Takes n buf (if ltb (length b) m then some none else k)
Takes-guard n m buf b k t = elim (Bool-cases (ltb (length b) m)) [
  | inl e ↦ rw e tt
  | inr e ↦ rw e (t (ltb→le (length b) m e))
]

parse_data-Takes : (conv opt : ℕ) (buf : List ℕ) → Takes 14 buf (parse_data conv opt buf)
unfolding parse_data
parse_data-Takes conv opt buf = Takes-guard 14 15 buf buf _ λ h.
    Takes-bind 14 4 buf buf _ _ (read_uint32-Reads buf (omega arith)) λ t b1 e1.
      Takes-bind 14 4 buf b1 _ _ (read_uint32-Reads b1 (omega arith)) λ n b2 e2.
        Takes-bind 14 4 buf b2 _ _ (read_uint32-Reads b2 (omega arith)) λ s b3 e3.
          Takes-bind 14 2 buf b3 _ _ (read_uint16-Reads b3 (omega arith))
            λ l b4 e4. Takes-guard 14 l buf b4 _ λ h4. omega (arith, length-drop l b4)

-- Behind a check of the length the loop over the numbers reads all of them.
parse_numbers_total :
    (n : ℕ) (s : AckSegment) (b : List ℕ)
    → n * 4 ≤ length b
    → (t : AckSegment) × (rest : List ℕ) × (parse_numbers n s b ≡ some (t, rest))
      × (n * 4 + length rest ≡ length b)
unfolding parse_numbers
parse_numbers_total zero s b h = (s, b, refl, omega arith)
parse_numbers_total (suc n) s b h =
    let (x, rest, e, l) = Reads-some 4 b _ (read_uint32-Reads b (omega arith)) in
    let (t, more, e', l') = parse_numbers_total n (put_number s x) rest (omega arith) in
    (t, more, rw e e', omega arith)

Takes-numbers :
    (c : ℕ) (s : AckSegment) (buf b : List ℕ)
    → c * 4 ≤ length b
    → 13 + length b ≤ length buf
    → Takes 13 buf (parse_numbers c s b >>= λ r. some (some r))
Takes-numbers c s buf b h hb =
    let (t, rest, e, l) = parse_numbers_total c s b h in rw e (omega arith)

parse_ack-Takes : (conv opt : ℕ) (buf : List ℕ) → Takes 13 buf (parse_ack conv opt buf)
unfolding parse_ack
parse_ack-Takes conv opt buf = Takes-guard 13 13 buf buf _ λ h.
    Takes-bind 13 4 buf buf _ _ (read_uint32-Reads buf (omega arith)) λ w b1 e1.
      Takes-bind 13 4 buf b1 _ _ (read_uint32-Reads b1 (omega arith)) λ n b2 e2.
        Takes-bind 13 4 buf b2 _ _ (read_uint32-Reads b2 (omega arith)) λ t b3 e3.
          Takes-bind 13 1 buf b3 _ _ (read_byte-Reads b3 (omega arith)) λ c b4 e4.
            Takes-guard 13 (c * 4) buf b4 _ λ h4. Takes-numbers c _ buf b4 h4 (omega arith)

parse_cmd_only-Takes :
    (conv cmd opt : ℕ) (buf : List ℕ) → Takes 12 buf (parse_cmd_only conv cmd opt buf)
unfolding parse_cmd_only
parse_cmd_only-Takes conv cmd opt buf = Takes-guard 12 12 buf buf _ λ h.
    Takes-bind 12 4 buf buf _ _ (read_uint32-Reads buf (omega arith)) λ t b1 e1.
      Takes-bind 12 4 buf b1 _ _ (read_uint32-Reads b1 (omega arith)) λ n b2 e2.
        Takes-bind 12 4 buf b2 _ _ (read_uint32-Reads b2 (omega arith)) λ s b3 e3. omega arith

Takes-as_segment :
    {A : Type 0} (n : ℕ) (b buf : List ℕ) (c : A → Segment) (r : Option (Option (A × List ℕ)))
    → 4 + length b ≡ length buf
    → Takes n b r
    → Takes (4 + n) buf (as_segment c r)
Takes-as_segment n b buf c none e h = h
Takes-as_segment n b buf c (some none) e h = tt
Takes-as_segment n b buf c (some (some (s, rest))) e h = omega arith

Takes-mono :
    {A : Type 0} (n m : ℕ) (buf : List ℕ) (r : Option (Option (A × List ℕ)))
    → m ≤ n
    → Takes n buf r
    → Takes m buf r
Takes-mono n m buf none e h = h
Takes-mono n m buf (some none) e h = tt
Takes-mono n m buf (some (some (s, rest))) e h = omega arith

read_segment-Takes : (buf : List ℕ) → Takes 16 buf (read_segment buf)
unfolding read_segment
read_segment-Takes buf = Takes-guard 16 4 buf buf _ λ h.
    Takes-bind 16 2 buf buf _ _ (read_uint16-Reads buf (omega arith)) λ conv b1 e1.
      Takes-bind 16 1 buf b1 _ _ (read_byte-Reads b1 (omega arith)) λ cmd b2 e2.
        Takes-bind 16 1 buf b2 _ _ (read_byte-Reads b2 (omega arith)) λ opt b3 e3.
          let l : 4 + length b3 ≡ length buf = omega arith in
          elim (Bool-cases (cmd == command_data)) [
            | inl d ↦ rw d (
                Takes-mono 18 16 buf _ (omega arith)
                  (Takes-as_segment 14 b3 buf _ _ l (parse_data-Takes conv opt b3)))
            | inr d ↦ rw d (elim (Bool-cases (cmd == command_ack)) [
              | inl a ↦ rw a (
                  Takes-mono 17 16 buf _ (omega arith)
                    (Takes-as_segment 13 b3 buf _ _ l (parse_ack-Takes conv opt b3)))
              | inr a ↦
                  rw a (Takes-as_segment 12 b3 buf _ _ l (parse_cmd_only-Takes conv cmd opt b3))
            ])
          ]

-- On any bytes at all `ReadSegment` does not panic, and whatever it accepts took at least sixteen
-- bytes, so a loop over a packet ends.
pub read_segment_total :
    (buf : List ℕ)
    → (read_segment buf ≢ none)
      × ((s : Segment) (rest : List ℕ)
          → read_segment buf ≡ some (some (s, rest))
          → 16 + length rest ≤ length buf)
read_segment_total buf =
    (λ e. rw e at (read_segment-Takes buf), λ s rest e. rw e at (read_segment-Takes buf))
