-- ===== src/Kcp/Segment/Layout.antt =====
-- The bytes of a segment on the wire, field by field: what the index-wise writes of segment.go add up
-- to.
use dpi_warrior_native_xray.Base.{
  ℕ, suc, ◌+◌, ◌*◌, ◌%◌, ◌^◌, ◌≤◌, ◌≡◌, ◌⊎◌, inl, inr, refl, ap, none, some, Option-cases, List, [],
  ◌∷◌, ◌++◌, append_assoc, arith, le→ltb, length, length-append, be16, be32, zeros, zeros-add,
  copy-zeros, put_at-append,
}
use dpi_warrior_native_xray.Kcp.Segment.{
  DataSegment, AckSegment, CmdOnlySegment, Segment, data_segment, ack_segment, cmd_only_segment,
  bytes, command_data, command_ack, serialize_data, serialize_numbers, serialize_ack,
  serialize_cmd_only, byte_size, encode, buf_size,
}

abbrev pub data_layout : DataSegment → List ℕ
data_layout s =
    be16 s.conv
    ++ (command_data ∷ s.option ∷ [])
    ++ be32 s.timestamp
    ++ be32 s.number
    ++ be32 s.sending_next
    ++ be16 (length (bytes s.payload) % 2 ^ 16)
    ++ bytes s.payload

abbrev pub numbers_layout : List ℕ → List ℕ
numbers_layout [] = []
numbers_layout (x ∷ xs) = be32 x ++ numbers_layout xs

abbrev pub ack_layout : AckSegment → List ℕ
ack_layout s =
    be16 s.conv
    ++ (command_ack ∷ s.option ∷ [])
    ++ be32 s.receiving_window
    ++ be32 s.receiving_next
    ++ be32 s.timestamp
    ++ ((length s.number_list % 256) ∷ [])
    ++ numbers_layout s.number_list

abbrev pub cmd_only_layout : CmdOnlySegment → List ℕ
cmd_only_layout s =
    be16 s.conv
    ++ (s.cmd ∷ s.option ∷ [])
    ++ be32 s.sending_next
    ++ be32 s.receiving_next
    ++ be32 s.peer_rto

abbrev pub layout : Segment → List ℕ
layout (data_segment s) = data_layout s
layout (ack_segment s) = ack_layout s
layout (cmd_only_segment s) = cmd_only_layout s

serialize_data-layout :
    (s : DataSegment) (p : List ℕ)
    → s.payload ≡ some p
    → serialize_data s (zeros (18 + length (bytes s.payload))) ≡ some (data_layout s)
unfolding serialize_data
serialize_data-layout s p e = rw (e, zeros-add 18 (length p), copy-zeros p) refl

-- Each number is written behind what is there already.
serialize_numbers-layout :
    (xs pre : List ℕ)
    → serialize_numbers xs (length pre) (pre ++ zeros (length xs * 4))
      ≡ some (pre ++ numbers_layout xs)
unfolding serialize_numbers
serialize_numbers-layout [] pre = refl
serialize_numbers-layout (x ∷ xs) pre =
    let four : suc (length xs) * 4 ≡ 4 + length xs * 4 = omega arith in
    let after : length pre + 4 ≡ length (pre ++ be32 x) =
      omega (arith, length-append pre (be32 x)) in
    rw
      (
        four,
        zeros-add 4 (length xs * 4),
        put_at-append pre (be32 x) (zeros 4 ++ zeros (length xs * 4)),
        after,
        ← append_assoc pre (be32 x) (zeros (length xs * 4)),
        serialize_numbers-layout xs (pre ++ be32 x),
      )
      (ap some (append_assoc pre (be32 x) (numbers_layout xs)))

serialize_ack-layout :
    (s : AckSegment) → serialize_ack s (zeros (17 + length s.number_list * 4)) ≡ some (ack_layout s)
unfolding serialize_ack
serialize_ack-layout s = rw (zeros-add 17 (length s.number_list * 4)) (
    serialize_numbers-layout s.number_list (
      be16 s.conv
      ++ (command_ack ∷ s.option ∷ [])
      ++ be32 s.receiving_window
      ++ be32 s.receiving_next
      ++ be32 s.timestamp
      ++ ((length s.number_list % 256) ∷ [])))

-- A data segment has a buffer, which may be empty.
abbrev pub HasPayload : Segment → Type 0
HasPayload (data_segment s) = (p : List ℕ) × (s.payload ≡ some p)
HasPayload _ = Unit {0}

pub encode-some : (s : Segment) → HasPayload s → byte_size s ≤ buf_size → encode s ≡ some (layout s)
unfolding encode
encode-some (data_segment s) (p, e) h = rw (le→ltb _ _ h) (serialize_data-layout s p e)
encode-some (ack_segment s) p h = rw (le→ltb _ _ h) (serialize_ack-layout s)
encode-some (cmd_only_segment s) p h = unfold serialize_cmd_only in refl

encode-none : (s : DataSegment) → s.payload ≡ none → encode (data_segment s) ≡ none
unfolding encode serialize_data byte_size
encode-none s e = rw e refl

-- Of a segment that fits the packet buffer: it is written without a panic, field by field, if it is
-- not a data segment without a buffer; of a data segment without one, the writer panics.
pub encode-layout :
    (s : Segment)
    → byte_size s ≤ buf_size
    → (HasPayload s × (encode s ≡ some (layout s))) ⊎ ((¬ HasPayload s) × (encode s ≡ none))
encode-layout (data_segment s) h = elim (Option-cases s.payload) [
  | inl e ↦ inr (λ p. cc (e, p.1), encode-none s e)
  | inr (p, e) ↦ inl ((p, e), encode-some (data_segment s) (p, e) h)
]
encode-layout (ack_segment s) h = inl (tt, encode-some (ack_segment s) tt h)
encode-layout (cmd_only_segment s) h = inl (tt, encode-some (cmd_only_segment s) tt h)
