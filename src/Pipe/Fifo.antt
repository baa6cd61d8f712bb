-- ===== src/Pipe/Fifo.antt =====
-- What comes out of a pipe.
use mathlib.Core.Path.{subst}
use dpi_warrior_native_xray.Base.{
  ℕ, ◌≡◌, refl, sym, ap, ◌∙◌, ◌≢◌, ◌⊎◌, inl, inr, Bool, true, false, Option, none, some, List, [],
  ◌∷◌, ◌++◌, append-nil, append_assoc, arith, ◌==◌, Bool-cases, Option-cases, length, eq_nil,
}
use dpi_warrior_native_xray.Buf.{MultiBuffer, bytes_in, all_empty, is_empty, len}
use dpi_warrior_native_xray.Pipe.{
  State, opened, closed, errord, PipeError, buffer_full, slow_down, closed_pipe, eof, Pipe, buffers,
  get_state, read_internal, write_internal, Event, wrote, got, ended, nothing, read_event,
  read_multi_buffer, write_event, write_multi_buffer, close, interrupt, Call, write_call, read_call,
  close_call, interrupt_call, step, run,
}

abbrev pub held_bytes : Pipe → List ℕ
held_bytes p = bytes_in (buffers p.held)

-- The bytes that the events have of what went in, and of what came out.
abbrev pub bytes_written : Event → List ℕ
bytes_written (wrote mb) = bytes_in mb
bytes_written _ = []

abbrev pub bytes_got : Event → List ℕ
bytes_got (got mb) = bytes_in mb
bytes_got _ = []

abbrev pub all_written : List Event → List ℕ
all_written [] = []
all_written (e ∷ events) = bytes_written e ++ all_written events

abbrev pub all_got : List Event → List ℕ
all_got [] = []
all_got (e ∷ events) = bytes_got e ++ all_got events

pub bytes_in-append : (x y : MultiBuffer) → bytes_in (x ++ y) ≡ bytes_in x ++ bytes_in y
unfolding bytes_in
bytes_in-append [] y = refl
bytes_in-append (b ∷ x) y =
    ap (λ l. b.content ++ l) (bytes_in-append x y)
    ∙ sym (append_assoc b.content (bytes_in x) (bytes_in y))

pub all_empty-bytes : (mb : MultiBuffer) → all_empty mb ≡ true → bytes_in mb ≡ []
unfolding all_empty bytes_in is_empty len
all_empty-bytes [] h = refl
all_empty-bytes (b ∷ mb) h = elim (Bool-cases (length b.content == 0)) [
  | inl e ↦
      let rest : all_empty mb ≡ true = ground (arith, h, e) in
      rw (eq_nil b.content (ground (arith, e))) (all_empty-bytes mb rest)
  | inr f ↦ absurd (ground (arith, h, f))
]

-- No byte is lost or moved in a step.
abbrev Moves : Pipe → Pipe × Event → Type 0
Moves p (p', e) = held_bytes p ++ bytes_written e ≡ bytes_got e ++ held_bytes p'

pub read_internal-stops :
    (p : Pipe) (e : PipeError) → get_state p true ≡ some e → read_multi_buffer p ≡ (p, ended e)
unfolding read_multi_buffer read_internal read_event
read_internal-stops p e s = rw (s, read_multi_buffer, read_internal) refl

pub read_internal-gives :
    (p : Pipe)
    → get_state p true ≡ none
    → read_multi_buffer p ≡ (record p { held = none }, read_event (p.held, none))
unfolding read_multi_buffer read_internal
read_internal-gives p s = rw (s, read_multi_buffer, read_internal) refl

event-got :
    (held : Option MultiBuffer)
    → (bytes_written (read_event (held, none)) ≡ [])
      × (bytes_got (read_event (held, none)) ≡ bytes_in (buffers held))
unfolding read_event bytes_in
event-got none = (refl, refl)
event-got (some mb) = (refl, refl)

read-Moves : (p : Pipe) → Moves p (read_multi_buffer p)
read-Moves p = elim (Option-cases (get_state p true)) [
  | inr (e, s) ↦ subst (Moves p) (sym (read_internal-stops p e s)) (append-nil (held_bytes p))
  | inl s ↦
      let (w, g) = event-got p.held in
      subst (Moves p) (sym (read_internal-gives p s)) (rw (w, g) (unfold bytes_in in refl))
]

pub write-refused :
    (p : Pipe) (mb : MultiBuffer) (e : PipeError)
    → all_empty mb ≡ false
    → get_state p false ≡ some e
    → write_multi_buffer p mb ≡ (p, write_event p.discard_overflow mb (some e))
unfolding write_multi_buffer write_internal
write-refused p mb e f s = rw (f, s, write_multi_buffer, write_internal) refl

pub write-accepted :
    (p : Pipe) (mb : MultiBuffer)
    → all_empty mb ≡ false
    → get_state p false ≡ none
    → write_multi_buffer p mb ≡ (record p { held = some (buffers p.held ++ mb) }, wrote mb)
unfolding write_multi_buffer write_internal write_event
write-accepted p mb f s = elim (Option-cases p.held) [
  | inl h ↦ rw (f, s, h, write_multi_buffer, write_internal) refl
  | inr (before, h) ↦ rw (f, s, h, write_multi_buffer, write_internal) refl
]

get_state-no_slow_down : (p : Pipe) → get_state p false ≢ some slow_down
unfolding get_state
get_state-no_slow_down p s = ground (arith, s)

event-refused :
    (p : Pipe) (mb : MultiBuffer) (e : PipeError)
    → get_state p false ≡ some e
    → (bytes_written (write_event p.discard_overflow mb (some e)) ≡ [])
      × (bytes_got (write_event p.discard_overflow mb (some e)) ≡ [])
unfolding write_event
event-refused p mb slow_down s = absurd (get_state-no_slow_down p s)
event-refused p mb closed_pipe s = (refl, refl)
event-refused p mb eof s = (refl, refl)
event-refused p mb buffer_full s = elim (Bool-cases p.discard_overflow) [
  | inl t ↦ rw t (refl, refl)
  | inr f ↦ rw f (refl, refl)
]

write-Moves : (p : Pipe) (mb : MultiBuffer) → Moves p (write_multi_buffer p mb)
write-Moves p mb = elim (Bool-cases (all_empty mb)) [
  | inl t ↦
      let same : write_multi_buffer p mb ≡ (p, nothing) = unfold write_multi_buffer in rw t refl in
      subst (Moves p) (sym same) (append-nil (held_bytes p))
  | inr f ↦ elim (Option-cases (get_state p false)) [
    | inr (e, s) ↦
        let (w, g) = event-refused p mb e s in
        subst (Moves p) (sym (write-refused p mb e f s)) (rw (w, g) (append-nil (held_bytes p)))
    | inl s ↦
        subst (Moves p) (sym (write-accepted p mb f s)) (sym (bytes_in-append (buffers p.held) mb))
  ]
]

-- An interruption loses the bytes that are held.
abbrev Loses : Pipe → Pipe × Event → Type 0
Loses p (p', e) =
    (p'.state ≡ errord) × (held_bytes p' ≡ []) × (bytes_written e ≡ []) × (bytes_got e ≡ [])

interrupt-Loses : (p : Pipe) → p.state ≡ opened → Loses p (interrupt p, nothing)
unfolding interrupt
interrupt-Loses p o = elim (Bool-cases (all_empty (buffers p.held))) [
  | inl t ↦ rw (o, t) (refl, all_empty-bytes (buffers p.held) t, refl, refl)
  | inr f ↦ rw (o, f) (refl, unfold bytes_in in refl, refl, refl)
]

State-cases : (s : State) → (s ≡ opened) ⊎ (s ≡ closed) ⊎ (s ≡ errord)
State-cases opened = inl refl
State-cases closed = inr (inl refl)
State-cases errord = inr (inr refl)

interrupt-cases_of :
    (held : Option MultiBuffer) (limit : Option ℕ) (discards : Bool) (s : State)
    → let p : Pipe = record {
      held = held;
      limit = limit;
      discard_overflow = discards;
      state = s;
    } in
      (s ≡ opened) ⊎ (interrupt p ≡ p)
unfolding interrupt
interrupt-cases_of held limit discards opened = inl refl
interrupt-cases_of held limit discards closed = inr refl
interrupt-cases_of held limit discards errord = inr refl

pub interrupt-cases : (p : Pipe) → (p.state ≡ opened) ⊎ (interrupt p ≡ p)
interrupt-cases p = interrupt-cases_of p.held p.limit p.discard_overflow p.state

pub close-held : (p : Pipe) → (close p).held ≡ p.held
unfolding close
close-held p = elim (State-cases p.state) [
  | inl e ↦ rw (e, close) refl
  | inr (inl e) ↦ rw (e, close) refl
  | inr (inr e) ↦ rw (e, close) refl
]

step-Moves : (p : Pipe) (c : Call) → Moves p (step p c) ⊎ Loses p (step p c)
unfolding step
step-Moves p (write_call mb) = inl (write-Moves p mb)
step-Moves p read_call = inl (read-Moves p)
step-Moves p close_call = inl (rw (close-held p) (append-nil (held_bytes p)))
step-Moves p interrupt_call = elim (interrupt-cases p) [
  | inl o ↦ inr (interrupt-Loses p o)
  | inr same ↦ inl (rw same (append-nil (held_bytes p)))
]

get_state-dead :
    (p : Pipe) (for_read : Bool) → p.state ≡ errord → get_state p for_read ≡ some closed_pipe
unfolding get_state
get_state-dead p for_read h = rw (h, get_state) refl

-- After an interruption nothing goes in or comes out.
step-dead :
    (p : Pipe) (c : Call)
    → p.state ≡ errord
    → ((step p c).0 ≡ p) × (bytes_written (step p c).1 ≡ []) × (bytes_got (step p c).1 ≡ [])
unfolding step
step-dead p (write_call mb) h = elim (Bool-cases (all_empty mb)) [
  | inl t ↦
      let same : write_multi_buffer p mb ≡ (p, nothing) = unfold write_multi_buffer in rw t refl in
      rw same (refl, refl, refl)
  | inr f ↦
      rw (write-refused p mb closed_pipe f (get_state-dead p false h))
        (unfold write_event in (refl, refl, refl))
]
step-dead p read_call h =
    rw (read_internal-stops p closed_pipe (get_state-dead p true h)) (refl, refl, refl)
step-dead p close_call h = (unfold close in rw h refl, refl, refl)
step-dead p interrupt_call h = (unfold interrupt in rw h refl, refl, refl)

run-dead :
    (p : Pipe) (calls : List Call)
    → p.state ≡ errord
    → ((run p calls).0 ≡ p) × (all_written (run p calls).1 ≡ []) × (all_got (run p calls).1 ≡ [])
unfolding run
run-dead p [] h = (refl, refl, refl)
run-dead p (c ∷ calls) h =
    let (same, w, g) = step-dead p c h in
    let (end, ws, gs) = run-dead p calls h in rw (same, w, g) (end, ws, gs)

run_order :
    (p : Pipe) (calls : List Call)
    → (lost : List ℕ) × (held_bytes p ++ all_written (run p calls).1
        ≡ all_got (run p calls).1 ++ (lost ++ held_bytes (run p calls).0))
      × ((run p calls).0.state ≢ errord → lost ≡ [])
unfolding run
run_order p [] = ([], append-nil (held_bytes p), λ h. refl)
run_order p (c ∷ calls) =
    let (p1, e) = step p c in
    elim (step-Moves p c) [
      | inl moves ↦
          let (lost, order, alive) = run_order p1 calls in
          (
            lost,
            sym (append_assoc (held_bytes p) (bytes_written e) (all_written (run p1 calls).1))
                ∙ ap (λ l. l ++ all_written (run p1 calls).1) moves
                ∙ append_assoc (bytes_got e) (held_bytes p1) (all_written (run p1 calls).1)
                ∙ ap (λ l. bytes_got e ++ l) order
                ∙ sym (
                    append_assoc (bytes_got e) (all_got (run p1 calls).1)
                      (lost ++ held_bytes (run p1 calls).0)),
            alive,
          )
      | inr (dead, nothing_left, w, g) ↦
          let (same, ws, gs) = run-dead p1 calls dead in
          (
            held_bytes p,
            rw (w, g, ws, gs, same, nothing_left) refl,
            λ alive. absurd (alive (ap (λ q. q.state) same ∙ dead)),
          )
    ]

-- A pipe that holds nothing, and into and out of which nothing goes over these calls.
abbrev pub IsDead : Pipe → List Call → Type 0
IsDead p more =
    (held_bytes p ≡ [])
    × (all_written (run p more).1 ≡ [])
    × (all_got (run p more).1 ≡ [])
    × (held_bytes (run p more).0 ≡ [])

interrupt-IsDead :
    (p : Pipe) (more : List Call) → (p.state ≢ opened) ⊎ IsDead (step p interrupt_call).0 more
unfolding step
interrupt-IsDead p more = elim (State-cases p.state) [
  | inl o ↦
      let (dead, nothing_held, w, g) = interrupt-Loses p o in
      let (same, ws, gs) = run-dead (interrupt p) more dead in
      inr (nothing_held, ws, gs, ap held_bytes same ∙ nothing_held)
  | inr (inl c) ↦ inl (λ o. cc (c, o))
  | inr (inr e) ↦ inl (λ o. cc (e, o))
]

-- What comes out of a pipe, and then what it holds, is what went in, byte for byte and in order, over
-- any calls of its readers and writers, less what an interruption loses, which is nothing unless the
-- pipe is interrupted. An interruption of a pipe that is open by then drops all that it holds, and over
-- any further calls nothing goes in and nothing comes out.
pub run-Fifo :
    (p : Pipe) (calls more : List Call)
    → ((lost : List ℕ) × (held_bytes p ++ all_written (run p calls).1
          ≡ all_got (run p calls).1 ++ (lost ++ held_bytes (run p calls).0))
        × ((run p calls).0.state ≢ errord → lost ≡ []))
      × (((run p calls).0.state ≢ opened) ⊎ IsDead (step (run p calls).0 interrupt_call).0 more)
run-Fifo p calls more = (run_order p calls, interrupt-IsDead (run p calls).0 more)
