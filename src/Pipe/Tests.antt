-- ===== src/Pipe/Tests.antt =====
-- The theorems on pipes at a run of a pipe.
use dpi_warrior_native_xray.Base.{
  ℕ, ◌+◌, ◌≤◌, ◌≡◌, refl, ◌≢◌, ◌⊎◌, false, some, List, [], ◌∷◌, ◌++◌, arith, length,
}
use dpi_warrior_native_xray.Buf.{
  buffer_size, MultiBuffer, bytes_in, total_len, all_empty, is_empty, len,
}
use dpi_warrior_native_xray.Pipe.{
  Pipe, opened, errord, interrupt_call, new_pipe, Call, write_call, read_call, close_call, run,
  step, wrote, got, waits, nothing, ended, eof, rejected, closed_pipe, write_multi_buffer,
  read_multi_buffer, close, write_internal, read_internal, write_event, read_event, get_state,
  is_full,
}
use dpi_warrior_native_xray.Pipe.Fifo.{held_bytes, all_written, all_got, IsDead, run-Fifo}
use dpi_warrior_native_xray.Pipe.Bounds.{run-Bounded}

abbrev some_bytes : MultiBuffer
some_bytes = record { size = buffer_size; start = 0; content = 1 ∷ 2 ∷ 3 ∷ [] } ∷ []

abbrev small_pipe : Pipe
small_pipe = new_pipe (some 2) false

-- The second write has to wait, since the pipe is over its limit; after the close the bytes are read,
-- and then there are no more.
abbrev calls_made : List Call
calls_made =
    write_call some_bytes
    ∷ write_call some_bytes
    ∷ close_call
    ∷ write_call some_bytes
    ∷ read_call
    ∷ read_call
    ∷ []

run-calls_made :
    (run small_pipe calls_made).1
    ≡ wrote some_bytes ∷ waits ∷ nothing ∷ rejected closed_pipe ∷ got some_bytes ∷ ended eof ∷ []
unfolding run step write_multi_buffer read_multi_buffer close write_internal read_internal
    write_event read_event get_state is_full new_pipe total_len all_empty is_empty len
run-calls_made = refl

-- An interruption of the pipe with the first write in it, and then a read.
run-Fifo_example :
    ((lost : List ℕ) × (held_bytes small_pipe
          ++ all_written (run small_pipe (write_call some_bytes ∷ [])).1
        ≡ all_got (run small_pipe (write_call some_bytes ∷ [])).1
          ++ (lost ++ held_bytes (run small_pipe (write_call some_bytes ∷ [])).0))
      × ((run small_pipe (write_call some_bytes ∷ [])).0.state ≢ errord → lost ≡ []))
    × (((run small_pipe (write_call some_bytes ∷ [])).0.state ≢ opened)
        ⊎ IsDead
            (step (run small_pipe (write_call some_bytes ∷ [])).0 interrupt_call).0
            (read_call ∷ []))
run-Fifo_example = run-Fifo small_pipe (write_call some_bytes ∷ []) (read_call ∷ [])

run-Bounded_example : length (held_bytes (run small_pipe calls_made).0) ≤ 2 + 3
unfolding new_pipe bytes_in
run-Bounded_example =
    run-Bounded 2 3 small_pipe calls_made (omega arith) refl (omega arith)
      (omega arith, (omega arith, (tt, (omega arith, (tt, (tt, tt))))))
