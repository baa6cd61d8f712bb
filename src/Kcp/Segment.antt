-- ===== src/Kcp/Segment.antt =====
-- segment.go: the three kinds of KCP segments, how they are written and read.
-- A byte slice is a list of numbers; the outer `none` of a result is a run-time panic, and an inner
-- `none` the answer (false, nil) or (nil, nil) of the source.
pub mod Layout
pub mod RoundTrip
pub mod Safety
use dpi_warrior_native_xray.Base.{
  ℕ, zero, suc, ◌+◌, ◌*◌, ◌%◌, ◌^◌, Bool, Option, none, some, List, [], ◌∷◌, ◌++◌, ltb, ◌==◌,
  if◌then◌else◌, length, take, drop, sub32, be16, be32, ◌>>=◌, read_byte, read_uint16, read_uint32,
  put_at, copy_at, zeros,
}

-- `buf.Size`, the capacity of a pooled buffer.
abbrev pub buf_size : ℕ
buf_size = 8192

abbrev pub command_ack : ℕ
command_ack = 0

abbrev pub command_data : ℕ
command_data = 1

abbrev pub command_terminate : ℕ
command_terminate = 2

abbrev pub command_ping : ℕ
command_ping = 3

abbrev pub segment_option_close : ℕ
segment_option_close = 1

abbrev pub data_segment_overhead : ℕ
data_segment_overhead = 18

abbrev pub ack_number_limit : ℕ
ack_number_limit = 128

-- `payload` is what the `*buf.Buffer` holds, and `none` the nil pointer.
pub record DataSegment : Type 0 where
  pub conv : ℕ
  pub option : ℕ
  pub timestamp : ℕ
  pub number : ℕ
  pub sending_next : ℕ
  pub payload : Option (List ℕ)
  pub timeout : ℕ
  pub transmit : ℕ

pub record AckSegment : Type 0 where
  pub conv : ℕ
  pub option : ℕ
  pub receiving_window : ℕ
  pub receiving_next : ℕ
  pub timestamp : ℕ
  pub number_list : List ℕ

pub record CmdOnlySegment : Type 0 where
  pub conv : ℕ
  pub cmd : ℕ
  pub option : ℕ
  pub sending_next : ℕ
  pub receiving_next : ℕ
  pub peer_rto : ℕ

pub data Segment : Type 0 where
  data_segment : DataSegment → Segment
  ack_segment : AckSegment → Segment
  cmd_only_segment : CmdOnlySegment → Segment

abbrev pub new_data_segment : DataSegment
new_data_segment = record {
  conv = 0;
  option = 0;
  timestamp = 0;
  number = 0;
  sending_next = 0;
  payload = none;
  timeout = 0;
  transmit = 0;
}

abbrev pub new_ack_segment : AckSegment
new_ack_segment = record {
  conv = 0;
  option = 0;
  receiving_window = 0;
  receiving_next = 0;
  timestamp = 0;
  number_list = [];
}

abbrev pub new_cmd_only_segment : CmdOnlySegment
new_cmd_only_segment = record {
  conv = 0;
  cmd = 0;
  option = 0;
  sending_next = 0;
  receiving_next = 0;
  peer_rto = 0;
}

-- The bytes that a payload holds, of which the nil buffer has none: `(*Buffer).Len()` is 0 of nil.
abbrev pub bytes : Option (List ℕ) → List ℕ
bytes none = []
bytes (some p) = p

unfoldable pub conversation : Segment → ℕ
conversation (data_segment s) = s.conv
conversation (ack_segment s) = s.conv
conversation (cmd_only_segment s) = s.conv

-- `s.payload` is handed over and set to nil.
unfoldable pub detach : DataSegment → DataSegment × Option (List ℕ)
detach s = (record s { payload = none }, s.payload)

-- A new timestamp replaces the old one if it is not older, modulo 2 ^ 32.
unfoldable pub put_timestamp : AckSegment → ℕ → AckSegment
put_timestamp s t = if ltb (sub32 t s.timestamp) 0x7fff_ffff then record s { timestamp = t } else s

unfoldable pub put_number : AckSegment → ℕ → AckSegment
put_number s n = record s { number_list = s.number_list ++ (n ∷ []) }

unfoldable pub is_full : AckSegment → Bool
is_full s = length s.number_list == ack_number_limit

unfoldable pub is_empty : AckSegment → Bool
is_empty s = length s.number_list == 0

unfoldable pub byte_size : Segment → ℕ
byte_size (data_segment s) = 18 + length (bytes s.payload)
byte_size (ack_segment s) = 17 + length s.number_list * 4
byte_size (cmd_only_segment s) = 16

-- `s.payload.Bytes()` of the nil buffer is a panic.
unfoldable pub serialize_data : DataSegment → List ℕ → Option (List ℕ)
serialize_data s b = do
  b ← put_at 0 (be16 s.conv) b
  b ← put_at 2 (command_data ∷ []) b
  b ← put_at 3 (s.option ∷ []) b
  b ← put_at 4 (be32 s.timestamp) b
  b ← put_at 8 (be32 s.number) b
  b ← put_at 12 (be32 s.sending_next) b
  b ← put_at 16 (be16 (length (bytes s.payload) % 2 ^ 16)) b
  p ← s.payload
  copy_at 18 p b

-- `for _, number := range s.NumberList { PutUint32(b[n:], number); n += 4 }`.
unfoldable pub serialize_numbers : List ℕ → ℕ → List ℕ → Option (List ℕ)
serialize_numbers [] n b = some b
serialize_numbers (x ∷ xs) n b = put_at n (be32 x) b >>= λ b'. serialize_numbers xs (n + 4) b'

unfoldable pub serialize_ack : AckSegment → List ℕ → Option (List ℕ)
serialize_ack s b = do
  b ← put_at 0 (be16 s.conv) b
  b ← put_at 2 (command_ack ∷ []) b
  b ← put_at 3 (s.option ∷ []) b
  b ← put_at 4 (be32 s.receiving_window) b
  b ← put_at 8 (be32 s.receiving_next) b
  b ← put_at 12 (be32 s.timestamp) b
  b ← put_at 16 ((length s.number_list % 256) ∷ []) b
  serialize_numbers s.number_list 17 b

unfoldable pub serialize_cmd_only : CmdOnlySegment → List ℕ → Option (List ℕ)
serialize_cmd_only s b = do
  b ← put_at 0 (be16 s.conv) b
  b ← put_at 2 (s.cmd ∷ []) b
  b ← put_at 3 (s.option ∷ []) b
  b ← put_at 4 (be32 s.sending_next) b
  b ← put_at 8 (be32 s.receiving_next) b
  put_at 12 (be32 s.peer_rto) b

unfoldable pub serialize : Segment → List ℕ → Option (List ℕ)
unfolding serialize_data serialize_ack serialize_cmd_only
serialize (data_segment s) = serialize_data s
serialize (ack_segment s) = serialize_ack s
serialize (cmd_only_segment s) = serialize_cmd_only s

-- What the pooled buffer of `s.Data()` keeps of `buf[:dataLen]`: at most its capacity.
unfoldable pub parse_data : ℕ → ℕ → List ℕ → Option (Option (DataSegment × List ℕ))
parse_data conv opt buf = if ltb (length buf) 15 then some none else do
  (timestamp, buf) ← read_uint32 buf
  (number, buf) ← read_uint32 buf
  (sending_next, buf) ← read_uint32 buf
  (data_len, buf) ← read_uint16 buf
  if ltb (length buf) data_len
      then some none
      else some (
          some (
            record {
              conv = conv;
              option = opt;
              timestamp = timestamp;
              number = number;
              sending_next = sending_next;
              payload = some (take buf_size (take data_len buf));
              timeout = 0;
              transmit = 0;
            },
            drop data_len buf,
          ))

-- `for i := 0; i < count; i++ { s.PutNumber(Uint32(buf)); buf = buf[4:] }`.
unfoldable pub parse_numbers : ℕ → AckSegment → List ℕ → Option (AckSegment × List ℕ)
unfolding put_number
parse_numbers zero s buf = some (s, buf)
parse_numbers (suc n) s buf = read_uint32 buf >>= λ p. parse_numbers n (put_number s p.0) p.1

unfoldable pub parse_ack : ℕ → ℕ → List ℕ → Option (Option (AckSegment × List ℕ))
parse_ack conv opt buf = if ltb (length buf) 13 then some none else do
  (window, buf) ← read_uint32 buf
  (next, buf) ← read_uint32 buf
  (timestamp, buf) ← read_uint32 buf
  (count, buf) ← read_byte buf
  if ltb (length buf) (count * 4)
      then some none
      else parse_numbers count
          (record {
            conv = conv;
            option = opt;
            receiving_window = window;
            receiving_next = next;
            timestamp = timestamp;
            number_list = [];
          })
          buf
        >>= λ r. some (some r)

unfoldable pub parse_cmd_only : ℕ → ℕ → ℕ → List ℕ → Option (Option (CmdOnlySegment × List ℕ))
parse_cmd_only conv cmd opt buf = if ltb (length buf) 12 then some none else do
  (sending_next, buf) ← read_uint32 buf
  (receiving_next, buf) ← read_uint32 buf
  (peer_rto, buf) ← read_uint32 buf
  some (
      some (
        record {
          conv = conv;
          cmd = cmd;
          option = opt;
          sending_next = sending_next;
          receiving_next = receiving_next;
          peer_rto = peer_rto;
        },
        buf,
      ))

-- A parsed segment of one kind as a `Segment`.
abbrev pub as_segment :
    {A : Type 0} → (A → Segment) → Option (Option (A × List ℕ)) → Option (Option (Segment × List ℕ))
as_segment c none = none
as_segment c (some none) = some none
as_segment c (some (some (s, rest))) = some (some (c s, rest))

unfoldable pub read_segment : List ℕ → Option (Option (Segment × List ℕ))
read_segment buf = if ltb (length buf) 4 then some none else do
  (conv, buf) ← read_uint16 buf
  (cmd, buf) ← read_byte buf
  (opt, buf) ← read_byte buf
  if cmd == command_data
      then as_segment data_segment (parse_data conv opt buf)
      else if cmd == command_ack
      then as_segment ack_segment (parse_ack conv opt buf)
      else as_segment cmd_only_segment (parse_cmd_only conv cmd opt buf)

-- output.go, SimpleSegmentWriter.Write: the bytes of one packet. `Extend` panics beyond the capacity
-- of the buffer, and fills what it adds with zeros.
unfoldable pub encode : Segment → Option (List ℕ)
unfolding byte_size serialize
encode s = if ltb buf_size (byte_size s) then none else serialize s (zeros (byte_size s))
