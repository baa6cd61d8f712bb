-- ===== src/Pipe/Bounds.antt =====
-- How much a pipe holds.
use dpi_warrior_native_xray.Base.{
  ℕ, ◌+◌, ◌%◌, ◌^◌, ◌≤◌, ◌<◌, ◌≡◌, refl, ap, inl, inr, Bool, true, false, Option, none, some, List,
  [], ◌∷◌, arith, Bool-cases, Option-cases, All, length, length-append,
}
use dpi_warrior_native_xray.Buf.{MultiBuffer, bytes_in, total_len, all_empty, len}
use dpi_warrior_native_xray.Pipe.{
  State, opened, closed, errord, Pipe, buffers, is_full, get_state, nothing, read_multi_buffer,
  write_multi_buffer, close, interrupt, Call, write_call, read_call, close_call, interrupt_call,
  step, run,
}
use dpi_warrior_native_xray.Pipe.Fifo.{
  held_bytes, bytes_in-append, read_internal-stops, read_internal-gives, write-refused,
  write-accepted,
}

-- A pipe that has a limit, and holds no more over it than one write brings.
abbrev Bounded : ℕ → ℕ → Pipe → Type 0
Bounded n k p = (p.limit ≡ some n) × (length (held_bytes p) ≤ n + k)

-- A call that writes no more than so many bytes.
abbrev pub Writes : ℕ → Call → Type 0
Writes k (write_call mb) = length (bytes_in mb) ≤ k
Writes k _ = Unit

total_len-exact : (mb : MultiBuffer) → total_len mb ≡ length (bytes_in mb) % 2 ^ 32
unfolding total_len bytes_in len
total_len-exact [] = refl
total_len-exact (b ∷ mb) = omega (arith, total_len-exact mb, length-append b.content (bytes_in mb))

get_state-not_full :
    (p : Pipe) (n : ℕ)
    → p.limit ≡ some n
    → length (held_bytes p) < 2 ^ 31
    → get_state p false ≡ none
    → length (held_bytes p) ≤ n
unfolding get_state is_full
get_state-not_full p n l small s =
    let exact : total_len (buffers p.held) ≡ length (held_bytes p) =
      omega (arith, total_len-exact (buffers p.held), small) in
    ground (arith, l, s, exact, small)

read-Bounded : (n k : ℕ) (p : Pipe) → Bounded n k p → Bounded n k (read_multi_buffer p).0
read-Bounded n k p b = elim (Option-cases (get_state p true)) [
  | inr (e, s) ↦ rw (read_internal-stops p e s) b
  | inl s ↦ rw (read_internal-gives p s) (b.0, unfold bytes_in in omega arith)
]

write-Bounded :
    (n k : ℕ) (p : Pipe) (mb : MultiBuffer)
    → n + k < 2 ^ 31
    → length (bytes_in mb) ≤ k
    → Bounded n k p
    → Bounded n k (write_multi_buffer p mb).0
write-Bounded n k p mb small h b = elim (Bool-cases (all_empty mb)) [
  | inl t ↦
      let same : write_multi_buffer p mb ≡ (p, nothing) = unfold write_multi_buffer in rw t refl in
      rw same b
  | inr f ↦ elim (Option-cases (get_state p false)) [
    | inr (e, s) ↦ rw (write-refused p mb e f s) b
    | inl s ↦
        let room = get_state-not_full p n b.0 (omega (arith, b.1)) s in
        rw (write-accepted p mb f s) (
          b.0,
          omega (
            arith,
            ap length (bytes_in-append (buffers p.held) mb),
            length-append (held_bytes p) (bytes_in mb),
            room,
            h,
          ),
        )
  ]
]

close-Bounded_of :
    (n k : ℕ) (held : Option MultiBuffer) (limit : Option ℕ) (discards : Bool) (s : State)
    → let p : Pipe = record {
      held = held;
      limit = limit;
      discard_overflow = discards;
      state = s;
    } in
      Bounded n k p → Bounded n k (close p)
unfolding close
close-Bounded_of n k held limit discards opened b = b
close-Bounded_of n k held limit discards closed b = b
close-Bounded_of n k held limit discards errord b = b

interrupt-Bounded_of :
    (n k : ℕ) (held : Option MultiBuffer) (limit : Option ℕ) (discards : Bool) (s : State)
    → let p : Pipe = record {
      held = held;
      limit = limit;
      discard_overflow = discards;
      state = s;
    } in
      Bounded n k p → Bounded n k (interrupt p)
unfolding interrupt
interrupt-Bounded_of n k held limit discards closed b = b
interrupt-Bounded_of n k held limit discards errord b = b
interrupt-Bounded_of n k held limit discards opened b =
    elim (Bool-cases (all_empty (buffers held))) [
      | inl t ↦ rw t b
      | inr f ↦ rw f (b.0, unfold bytes_in in omega arith)
    ]

step-Bounded :
    (n k : ℕ) (p : Pipe) (c : Call)
    → n + k < 2 ^ 31
    → Writes k c
    → Bounded n k p
    → Bounded n k (step p c).0
unfolding step
step-Bounded n k p (write_call mb) small h b = write-Bounded n k p mb small h b
step-Bounded n k p read_call small h b = read-Bounded n k p b
step-Bounded n k p close_call small h b =
    close-Bounded_of n k p.held p.limit p.discard_overflow p.state b
step-Bounded n k p interrupt_call small h b =
    interrupt-Bounded_of n k p.held p.limit p.discard_overflow p.state b

-- Over any calls, a pipe with a limit holds at most its limit and one write more. Assumed is that it
-- does at first, that no write brings more bytes than the given bound, and that the two together are
-- below 2 ^ 31, so that the 32-bit count of the bytes does not become negative.
pub run-Bounded :
    (n k : ℕ) (p : Pipe) (calls : List Call)
    → n + k < 2 ^ 31
    → p.limit ≡ some n
    → length (held_bytes p) ≤ n + k
    → All (Writes k) calls
    → length (held_bytes (run p calls).0) ≤ n + k
unfolding run
run-Bounded n k p [] small l h w = h
run-Bounded n k p (c ∷ calls) small l h (w, ws) =
    let (l', h') = step-Bounded n k p c small w (l, h) in
    run-Bounded n k (step p c).0 calls small l' h' ws
