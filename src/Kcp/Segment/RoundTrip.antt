-- ===== src/Kcp/Segment/RoundTrip.antt =====
-- What the peer reads of a segment that was written.
use dpi_warrior_native_xray.Base.{
  ℕ, ◌+◌, ◌*◌, ◌/◌, ◌%◌, ◌^◌, ◌≤◌, ◌≡◌, refl, ◌∙◌, ◌≢◌, false, none, some, List, [], ◌∷◌, ◌++◌,
  append-nil, append_assoc, arith, ltb, ◌==◌, le→ltb, length, length-append, take-length,
  drop-length, take-all, All, IsU16, IsU32, be16, be32, of_be16, of_be16-be16, of_be32-be32, ◌>>=◌,
}
use dpi_warrior_native_xray.Kcp.Segment.{
  DataSegment, AckSegment, CmdOnlySegment, Segment, data_segment, ack_segment, cmd_only_segment,
  bytes, command_data, command_ack, parse_data, parse_numbers, parse_ack, parse_cmd_only,
  read_segment, put_number, buf_size, byte_size, encode,
}
use dpi_warrior_native_xray.Kcp.Segment.Layout.{numbers_layout, layout, HasPayload, encode-some}

-- The fields fit their Go types, a data segment has a buffer, a control segment carries no other kind's command, and an
-- acknowledgement counts its numbers in one byte.
abbrev pub IsWellFormed : Segment → Type 0
IsWellFormed (data_segment s) =
    IsU16 s.conv
    × IsU32 s.timestamp
    × IsU32 s.number
    × IsU32 s.sending_next
    × (18 + length (bytes s.payload) ≤ buf_size)
    × HasPayload (data_segment s)
IsWellFormed (ack_segment s) =
    IsU16 s.conv
    × IsU32 s.receiving_window
    × IsU32 s.receiving_next
    × IsU32 s.timestamp
    × All IsU32 s.number_list
    × (length s.number_list ≤ 255)
IsWellFormed (cmd_only_segment s) =
    IsU16 s.conv
    × IsU32 s.sending_next
    × IsU32 s.receiving_next
    × IsU32 s.peer_rto
    × (s.cmd ≢ command_data)
    × (s.cmd ≢ command_ack)

-- What travels: the payload, and not the sender's timer and count of transmissions.
abbrev pub on_the_wire : Segment → Segment
on_the_wire (data_segment s) =
    data_segment (record s { payload = some (bytes s.payload); timeout = 0; transmit = 0 })
on_the_wire (ack_segment s) = ack_segment s
on_the_wire (cmd_only_segment s) = cmd_only_segment s

-- The bytes behind the four of the common header: a data segment with nothing in it and nothing
-- behind it does not have the fifteen bytes that `parse` asks for.
abbrev pub IsReadable : Segment → List ℕ → Type 0
IsReadable (data_segment s) rest = 1 ≤ length (bytes s.payload) + length rest
IsReadable _ rest = Unit {0}

abbrev data_body : DataSegment → List ℕ → List ℕ
data_body s rest =
    be32 s.timestamp
    ++ be32 s.number
    ++ be32 s.sending_next
    ++ be16 (length (bytes s.payload) % 2 ^ 16)
    ++ (bytes s.payload ++ rest)

parse_data-layout :
    (s : DataSegment) (rest : List ℕ)
    → IsWellFormed (data_segment s)
    → IsReadable (data_segment s) rest
    → parse_data s.conv s.option (data_body s rest)
      ≡ some (some (record s { payload = some (bytes s.payload); timeout = 0; transmit = 0 }, rest))
unfolding parse_data
parse_data-layout s rest (c, t, n, x, l, b) h =
    let p = bytes s.payload in
    let e0 : ltb (length (data_body s rest)) 15 ≡ false =
      le→ltb _ _ (omega (arith, length-append p rest)) in
    let e1 = of_be32-be32 s.timestamp t in
    let e2 = of_be32-be32 s.number n in
    let e3 = of_be32-be32 s.sending_next x in
    let e4 : of_be16 ((length p % 2 ^ 16) / 2 ^ 8 % 256) (length p % 2 ^ 16 % 256) ≡ length p =
      omega arith in
    let e5 : ltb (length (p ++ rest)) (length p) ≡ false =
      le→ltb _ _ (omega (arith, length-append p rest)) in
    rw e0 (
      rw (e1, e2, e3, e4)
        (rw (e5, take-length p rest, drop-length p rest, take-all buf_size p (omega arith))))

parse_numbers-layout :
    (xs : List ℕ) (s : AckSegment) (rest : List ℕ)
    → All IsU32 xs
    → parse_numbers (length xs) s (numbers_layout xs ++ rest)
      ≡ some (record s { number_list = s.number_list ++ xs }, rest)
unfolding parse_numbers
parse_numbers-layout [] s rest h = rw (append-nil s.number_list)
parse_numbers-layout (x ∷ xs) s rest h =
    rw (of_be32-be32 x h.0, parse_numbers-layout xs (put_number s x) rest h.1)
      (unfold put_number in rw (append_assoc s.number_list (x ∷ []) xs))

length-numbers_layout : (xs : List ℕ) → length (numbers_layout xs) ≡ length xs * 4
length-numbers_layout [] = refl
length-numbers_layout (x ∷ xs) = omega (arith, length-numbers_layout xs)

abbrev ack_body : AckSegment → List ℕ → List ℕ
ack_body s rest =
    be32 s.receiving_window
    ++ be32 s.receiving_next
    ++ be32 s.timestamp
    ++ ((length s.number_list % 256) ∷ [])
    ++ (numbers_layout s.number_list ++ rest)

parse_ack-layout :
    (s : AckSegment) (rest : List ℕ)
    → IsWellFormed (ack_segment s)
    → parse_ack s.conv s.option (ack_body s rest) ≡ some (some (s, rest))
unfolding parse_ack
parse_ack-layout s rest (c, w, n, t, a, l) =
    let xs = s.number_list in
    let size : length (numbers_layout xs ++ rest) ≡ length xs * 4 + length rest =
      length-append (numbers_layout xs) rest ∙ omega (arith, length-numbers_layout xs) in
    let e0 : ltb (length (ack_body s rest)) 13 ≡ false = le→ltb _ _ (omega arith) in
    let e1 = of_be32-be32 s.receiving_window w in
    let e2 = of_be32-be32 s.receiving_next n in
    let e3 = of_be32-be32 s.timestamp t in
    let e4 : length xs % 256 ≡ length xs = omega arith in
    let e5 : ltb (length (numbers_layout xs ++ rest)) (length xs * 4) ≡ false =
      le→ltb _ _ (omega arith) in
    rw e0 (
      rw (e1, e2, e3, e4)
        (rw e5 (rw (parse_numbers-layout xs (record s { number_list = [] }) rest a))))

parse_cmd_only-layout :
    (s : CmdOnlySegment) (rest : List ℕ)
    → IsWellFormed (cmd_only_segment s)
    → parse_cmd_only s.conv s.cmd s.option
        (be32 s.sending_next ++ be32 s.receiving_next ++ be32 s.peer_rto ++ rest)
      ≡ some (some (s, rest))
unfolding parse_cmd_only
parse_cmd_only-layout s rest (c, n, r, o, d, a) =
    let e0 : ltb (length (be32 s.sending_next ++ be32 s.receiving_next ++ be32 s.peer_rto ++ rest))
          12
        ≡ false =
      le→ltb _ _ (omega arith) in
    rw e0 (
      rw (of_be32-be32 s.sending_next n, of_be32-be32 s.receiving_next r, of_be32-be32 s.peer_rto o)
        refl)

not-eq : (a b : ℕ) → a ≢ b → (a == b) ≡ false
not-eq a b h = ground arith

pub read_segment-layout :
    (s : Segment) (rest : List ℕ)
    → IsWellFormed s
    → IsReadable s rest
    → read_segment (layout s ++ rest) ≡ some (some (on_the_wire s, rest))
unfolding read_segment
read_segment-layout (data_segment s) rest h r = rw (
  le→ltb (length (layout (data_segment s) ++ rest)) 4 (omega arith),
  of_be16-be16 s.conv h.0,
  parse_data-layout s rest h r,
)
read_segment-layout (ack_segment s) rest h r = rw (
  le→ltb (length (layout (ack_segment s) ++ rest)) 4 (omega arith),
  of_be16-be16 s.conv h.0,
  parse_ack-layout s rest h,
)
read_segment-layout (cmd_only_segment s) rest h r = rw (
  le→ltb (length (layout (cmd_only_segment s) ++ rest)) 4 (omega arith),
  of_be16-be16 s.conv h.0,
  not-eq s.cmd command_data h.4,
  not-eq s.cmd command_ack h.5,
  parse_cmd_only-layout s rest h,
)

fits : (s : Segment) → IsWellFormed s → byte_size s ≤ buf_size
unfolding byte_size
fits (data_segment s) h = h.4
fits (ack_segment s) h = omega arith
fits (cmd_only_segment s) h = omega arith

pub buffered : (s : Segment) → IsWellFormed s → HasPayload s
buffered (data_segment s) h = h.5
buffered (ack_segment s) h = tt
buffered (cmd_only_segment s) h = tt

-- Of a well-formed segment the writer panics on none, and `ReadSegment` gives back what was written,
-- less the sender's timer and count, with the bytes that follow it left over. A data segment must
-- carry a byte or be followed by one.
pub read_segment-encode :
    (s : Segment) (rest : List ℕ)
    → IsWellFormed s
    → IsReadable s rest
    → (encode s >>= λ w. read_segment (w ++ rest)) ≡ some (some (on_the_wire s, rest))
read_segment-encode s rest h r =
    rw (encode-some s (buffered s h) (fits s h)) (read_segment-layout s rest h r)

-- A data segment with an empty payload at the end of a packet is written, and refused when read: its
-- fixed fields behind the header take 14 bytes, and `parse` asks for 15.
pub read_segment-encode_empty :
    (s : DataSegment) → s.payload ≡ some [] → (encode (data_segment s) >>= read_segment) ≡ some none
unfolding read_segment parse_data byte_size
read_segment-encode_empty s e =
    rw (encode-some (data_segment s) ([], e) (rw e (omega arith)), e) refl
