-- ===== src/Buf.antt =====
-- common/buf/buffer.go, multi_buffer.go: buffers of bytes, and lists of them.
-- A buffer is an array `v` with the part between `start` and `end` as its content. The bytes of the
-- array outside of it are not kept: nothing here reads them. The length of one buffer and of a slice
-- is not bounded to 32 bits, since the memory of it is less; that of a list of buffers is. Pools and ownership are not modelled: a buffer that is released is gone.
pub mod Split
pub mod Merge
pub mod Compacting
mod Tests
use dpi_warrior_native_xray.Base.{
  ℕ, zero, suc, ◌+◌, ◌-◌, Bool, true, false, Option, none, some, List, [], ◌∷◌, ◌++◌, ltb, ◌==◌,
  if◌then◌else◌, length, take, drop, min, add32,
}
use dpi_warrior_native_xray.Base.Outcome.{Outcome, returns, panics, ◌>>=◌}

pub record Buffer : Type 0 where
  pub size : ℕ
  pub start : ℕ
  pub content : List ℕ

abbrev pub buffer_size : ℕ
buffer_size = 8192

unfoldable pub new : Buffer
new = record { size = buffer_size; start = 0; content = [] }

unfoldable pub len : Buffer → ℕ
len b = length b.content

-- The bytes of the array after the content.
unfoldable pub room : Buffer → ℕ
unfolding len
room b = b.size - (b.start + len b)

unfoldable pub is_empty : Buffer → Bool
unfolding len
is_empty b = len b == 0

unfoldable pub is_full : Buffer → Bool
unfolding len
is_full b = (b.start + len b) == b.size

unfoldable pub clear : Buffer → Buffer
clear b = record b { start = 0; content = [] }

-- `Advance` by a count that is not negative; `Check` keeps the start at the end at most.
unfoldable pub advance : Buffer → ℕ → Buffer
unfolding len
advance b from = record b {
  start = min (b.start + from) (b.start + len b);
  content = drop from b.content;
}

-- What was written, and its length.
unfoldable pub write : Buffer → List ℕ → Buffer × ℕ
unfolding room
write b src =
    let part = take (room b) src in (record b { content = b.content ++ part }, length part)

-- `Read` into a slice of a length; `none` is `io.EOF`.
unfoldable pub read : Buffer → ℕ → Buffer × Option (List ℕ)
unfolding len clear
read b n =
    let got = take n b.content in
    if len b == 0
    then (b, none)
    else if length got == len b
    then (clear b, some got)
    else (record b { start = b.start + length got; content = drop n b.content }, some got)

-- `ReadFrom` of a buffer; `none` is an error, and the second buffer is the one that was read.
unfoldable pub read_from : Buffer → Buffer → Option (Buffer × Buffer)
unfolding room
read_from b src =
    let (src', got) = read src (room b) in
    elim got [ none ↦ none | some bytes ↦ some (record b { content = b.content ++ bytes }, src') ]

-- `Extend` and a copy into the extension, of as many bytes.
unfoldable pub extend_with : Buffer → List ℕ → Outcome Buffer
unfolding len
extend_with b bytes =
    if ltb b.size (b.start + len b + length bytes)
    then panics
    else returns (record b { content = b.content ++ bytes })

abbrev pub MultiBuffer : Type 0
MultiBuffer = List Buffer

-- The bytes of a list of buffers.
unfoldable pub bytes_in : MultiBuffer → List ℕ
bytes_in [] = []
bytes_in (b ∷ mb) = b.content ++ bytes_in mb

-- `MultiBuffer.Len()`, a sum in `int32`: the number is its bits, and from 2 ^ 31 on it is negative.
unfoldable pub total_len : MultiBuffer → ℕ
unfolding len
total_len [] = 0
total_len (b ∷ mb) = add32 (len b) (total_len mb)

unfoldable pub all_empty : MultiBuffer → Bool
unfolding is_empty
all_empty [] = true
all_empty (b ∷ mb) = let rest = all_empty mb in if is_empty b then rest else false

abbrev pub merge_multi : MultiBuffer → MultiBuffer → MultiBuffer
merge_multi dest src = dest ++ src

-- The rest of the bytes in new buffers; a round writes one byte at least.
unfoldable pub new_buffers : ℕ → List ℕ → MultiBuffer
unfolding write new
new_buffers zero src = []
new_buffers (suc rounds) src =
    let (b, n) = write new src in
    let rest = new_buffers rounds (drop n src) in if length src == 0 then [] else b ∷ rest

unfoldable pub merge_bytes : MultiBuffer → List ℕ → MultiBuffer
unfolding is_full
merge_bytes [] src = new_buffers (length src) src
merge_bytes (b ∷ []) src =
    let (b', n) = write b src in
    if is_full b
    then b ∷ new_buffers (length src) src
    else b' ∷ new_buffers (length (drop n src)) (drop n src)
merge_bytes (b ∷ c ∷ mb) src = b ∷ merge_bytes (c ∷ mb) src

abbrev pub bytes_or_none : Option (List ℕ) → List ℕ
bytes_or_none none = []
bytes_or_none (some bytes) = bytes

-- What is left, and the bytes that were read.
unfoldable pub split_bytes : MultiBuffer → ℕ → MultiBuffer × List ℕ
split_bytes [] n = ([], [])
split_bytes (b ∷ mb) n =
    let (b', read_bytes) = read b n in
    let got = bytes_or_none read_bytes in
    let (left, more) = split_bytes mb (n - length got) in
    if is_empty b' then (left, got ++ more) else (b' ∷ mb, got)

-- `SplitFirst`.
unfoldable pub split_first : MultiBuffer → MultiBuffer × Option Buffer
split_first [] = ([], none)
split_first (b ∷ mb) = (mb, some b)

-- The buffers from the front that are of so many bytes together, with what is left before them.
unfoldable pub split_whole : ℕ → ℕ → MultiBuffer → MultiBuffer × MultiBuffer
split_whole size total [] = ([], [])
split_whole size total (b ∷ mb) =
    let (left, r) = split_whole size (total + len b) mb in
    if ltb size (total + len b) then (b ∷ mb, []) else (left, b ∷ r)

-- What is left, and the part that was split off.
unfoldable pub split_size : MultiBuffer → ℕ → Outcome (MultiBuffer × MultiBuffer)
unfolding new
split_size [] size = returns ([], [])
split_size (b ∷ mb) size =
    if ltb size (len b)
    then (extend_with new (take size b.content) >>= λ part.
        returns (advance b size ∷ mb, part ∷ []))
    else returns (split_whole size 0 (b ∷ mb))

-- `Compact` with the buffer that is filled, the last one so far.
unfoldable pub compact_from : Buffer → MultiBuffer → Outcome MultiBuffer
compact_from last [] = returns (last ∷ [])
compact_from last (curr ∷ mb) =
    let apart = compact_from curr mb >>= λ rest. returns (last ∷ rest) in
    let together : Outcome MultiBuffer = elim (read_from last curr) [
      | none ↦ panics
      | some (last', curr') ↦ compact_from last' mb
    ] in
    if ltb buffer_size (len last + len curr) then apart else together

unfoldable pub compact : MultiBuffer → Outcome MultiBuffer
compact [] = returns []
compact (b ∷ mb) = compact_from b mb
