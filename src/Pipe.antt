-- ===== src/Pipe.antt =====
-- transport/pipe/impl.go, pipe.go: a pipe of bytes between two goroutines.
-- Each call that holds the lock is a step. A round of a read or a write that has to wait says so; what
-- wakes it, the notifiers and the timer, is not modelled, and neither is a reader's error channel.
-- A limit below 0 is `none`, and a nil list of buffers is `none`.
pub mod Fifo
pub mod Bounds
mod Tests
use dpi_warrior_native_xray.Base.{
  ℕ, ◌^◌, Bool, true, false, not, ◌&&◌, Option, none, some, List, [], ◌∷◌, ltb, if◌then◌else◌,
}
use dpi_warrior_native_xray.Buf.{MultiBuffer, total_len, all_empty, merge_multi}

pub data State : Type 0 where
  opened : State
  closed : State
  errord : State

pub data PipeError : Type 0 where
  buffer_full : PipeError
  slow_down : PipeError
  closed_pipe : PipeError
  eof : PipeError

pub record Pipe : Type 0 where
  pub held : Option MultiBuffer
  pub limit : Option ℕ
  pub discard_overflow : Bool
  pub state : State

-- `New` with `WithSizeLimit` or `WithoutSizeLimit`, and with or without `DiscardOverflow`.
unfoldable pub new_pipe : Option ℕ → Bool → Pipe
new_pipe size_limit discards = record {
  held = none;
  limit = size_limit;
  discard_overflow = discards;
  state = opened;
}

-- A nil list has no buffers.
abbrev pub buffers : Option MultiBuffer → MultiBuffer
buffers none = []
buffers (some mb) = mb

-- The size is the bits of an `int32`; a negative one is not over the limit, which is below 2 ^ 31.
unfoldable pub is_full : Option ℕ → ℕ → Bool
is_full none size = false
is_full (some n) size = ltb size (2 ^ 31) && ltb n size

-- `none` is that there is no error.
unfoldable pub get_state : Pipe → Bool → Option PipeError
unfolding is_full
get_state p for_read = elim p.state [
  | opened ↦
      if not for_read && is_full p.limit (total_len (buffers p.held))
      then some buffer_full
      else none
  | closed ↦
      if not for_read
      then some closed_pipe
      else if not (all_empty (buffers p.held))
      then none
      else some eof
  | errord ↦ some closed_pipe
]

-- `readMultiBufferInternal`: the pipe after it, and the data and the error that it returns.
unfoldable pub read_internal : Pipe → Pipe × (Option MultiBuffer × Option PipeError)
read_internal p = elim (get_state p true) [
  | some e ↦ (p, (none, some e))
  | none ↦ (record p { held = none }, (p.held, none))
]

-- `writeMultiBufferInternal`.
unfoldable pub write_internal : Pipe → MultiBuffer → Pipe × Option PipeError
write_internal p mb = elim (get_state p false) [
  | some e ↦ (p, some e)
  | none ↦ elim p.held [
    | none ↦ (record p { held = some mb }, none)
    | some before ↦ (record p { held = some (merge_multi before mb) }, some slow_down)
  ]
]

-- What a round of a call comes to.
pub data Event : Type 0 where
  wrote : MultiBuffer → Event
  discarded : Event
  rejected : PipeError → Event
  got : MultiBuffer → Event
  ended : PipeError → Event
  waits : Event
  nothing : Event

-- A round of `ReadMultiBuffer`.
unfoldable pub read_event : Option MultiBuffer × Option PipeError → Event
read_event (some mb, e) = got mb
read_event (none, some e) = ended e
read_event (none, none) = waits

unfoldable pub read_multi_buffer : Pipe → Pipe × Event
read_multi_buffer p = let (p', r) = read_internal p in (p', read_event r)

-- A round of `WriteMultiBuffer`.
unfoldable pub write_event : Bool → MultiBuffer → Option PipeError → Event
write_event discards mb none = wrote mb
write_event discards mb (some slow_down) = wrote mb
write_event discards mb (some buffer_full) = if discards then discarded else waits
write_event discards mb (some closed_pipe) = rejected closed_pipe
write_event discards mb (some eof) = rejected eof

unfoldable pub write_multi_buffer : Pipe → MultiBuffer → Pipe × Event
write_multi_buffer p mb =
    let (p', e) = write_internal p mb in
    if all_empty mb then (p, nothing) else (p', write_event p.discard_overflow mb e)

unfoldable pub close : Pipe → Pipe
close p = elim p.state [ opened ↦ record p { state = closed } | closed ↦ p | errord ↦ p ]

unfoldable pub interrupt : Pipe → Pipe
interrupt p = elim p.state [
  | opened ↦
      if all_empty (buffers p.held)
      then record p { state = errord }
      else record p { state = errord; held = none }
  | closed ↦ p
  | errord ↦ p
]

-- The calls on a pipe, in the order in which they take the lock.
pub data Call : Type 0 where
  write_call : MultiBuffer → Call
  read_call : Call
  close_call : Call
  interrupt_call : Call

unfoldable pub step : Pipe → Call → Pipe × Event
step p (write_call mb) = write_multi_buffer p mb
step p read_call = read_multi_buffer p
step p close_call = (close p, nothing)
step p interrupt_call = (interrupt p, nothing)

unfoldable pub run : Pipe → List Call → Pipe × List Event
run p [] = (p, [])
run p (c ∷ calls) = let (p', e) = step p c in let (p'', events) = run p' calls in (p'', e ∷ events)
