-- ===== src/Kcp/Receiving/Window.antt =====
-- What the receiving worker accepts, and what a read leaves in the window.
use dpi_warrior_native_xray.Base.{
  ℕ, zero, suc, ◌≤◌, ◌<◌, ◌≡◌, refl, ap, ◌∙◌, ◌⊎◌, inl, inr, false, none, some, [], ◌∷◌, ◌++◌,
  arith, leb, ◌==◌, if◌then◌else◌, Bool-cases, Option-cases, length, add32, sub32,
}
use dpi_warrior_native_xray.Kcp.Segment.{DataSegment}
use dpi_warrior_native_xray.Kcp.AckList.{AckEntry, AckList, add, clear}
use dpi_warrior_native_xray.Kcp.Receiving.{
  ReceivingWindow, ReceivingWorker, lookup, delete, window_set, window_has, process_segment, drain,
  read_multi_buffer, is_data_available,
}
use dpi_warrior_native_xray.Kcp.AckList.Clear.{not_below, entries-clear}
use dpi_warrior_native_xray.Kcp.Receiving.Drain.{drain-none, drain-some}

length-delete-le : (id : ℕ) (w : ReceivingWindow) → length (delete id w) ≤ length w
unfolding delete
length-delete-le id [] = omega arith
length-delete-le id ((k, t) ∷ w) = ground (arith, length-delete-le id w)

length-delete-lt :
    (id : ℕ) (w : ReceivingWindow) (s : DataSegment)
    → lookup id w ≡ some s
    → length (delete id w) < length w
unfolding delete lookup
length-delete-lt id [] s e = cc
length-delete-lt id ((k, t) ∷ w) s e =
    ground (arith, length-delete-le id w, length-delete-lt id w s)

-- As many rounds as there are segments are enough.
drain_ends :
    (fuel : ℕ) (w : ReceivingWindow) (next : ℕ)
    → length w ≤ fuel
    → lookup (drain fuel w next).1 (drain fuel w next).0 ≡ none
drain_ends zero [] next h = unfold drain lookup in refl
drain_ends zero (e ∷ w) next h = absurd (omega arith)
drain_ends (suc fuel) w next h = elim (Option-cases (lookup next w)) [
  | inl e ↦ rw (drain-none fuel w next e) e
  | inr (s, e) ↦
      rw (drain-some fuel w next s e) (
        drain_ends fuel (delete next w) (add32 next 1) (omega (arith, length-delete-lt next w s e)))
]

window_has-none : (w : ReceivingWindow) (id : ℕ) → lookup id w ≡ none → window_has w id ≡ false
unfolding window_has
window_has-none w id e = rw (e, window_has)

-- A read with nothing left over takes every segment that is in sequence: the loop does not stop
-- before the next number is missing from the window.
pub read_multi_buffer_drains :
    (w : ReceivingWorker) → w.left_over ≡ none → is_data_available (read_multi_buffer w).0 ≡ false
unfolding read_multi_buffer is_data_available
read_multi_buffer_drains w e =
    let d = drain_ends (length w.window) w.window w.next_number (omega arith) in
    rw (e, read_multi_buffer) (window_has-none _ _ d)

-- The map after `Set`: a number that is there keeps its segment.
lookup-window_set :
    (w : ReceivingWindow) (id j : ℕ) (s : DataSegment)
    → lookup j (window_set w id s).0
      ≡ elim (lookup j w) [ some t ↦ some t | none ↦ if id == j then some s else none ]
unfolding window_set
lookup-window_set w id j s = elim (Option-cases (lookup id w)) [
  | inl e ↦ rw (e, window_set) (unfold lookup in ground arith)
  | inr (t, e) ↦ rw (e, window_set) (ground arith)
]

-- The acknowledgement that a segment asks for.
abbrev pub entry : DataSegment → AckEntry
entry s = record { number = s.number; timestamp = s.timestamp; next_flush = 0 }

entries-add :
    (l : AckList) (s : DataSegment)
    → (add l s.number s.timestamp).entries ≡ l.entries ++ (entry s ∷ [])
unfolding add
entries-add l s = refl

abbrev pub Accepted : ReceivingWorker → DataSegment → ReceivingWorker → Type 0
Accepted w s w' =
    ((j : ℕ)
      → lookup j w'.window ≡ elim (lookup j w.window) [
        | some t ↦ some t
        | none ↦ if s.number == j then some s else none
      ])
    × (w'.acklist.entries ≡ not_below s.sending_next w.acklist.entries ++ (entry s ∷ []))
    × (w'.next_number ≡ w.next_number)
    × (w'.left_over ≡ w.left_over)

-- A segment whose number is one of the `windowSize` next ones, modulo 2 ^ 32, is put into the window
-- unless its number is there already, every other place of the window stays as it is, and it is
-- queued for acknowledgement either way, behind the entries of the list whose numbers are not below the
-- one that the sender has yet to be acknowledged, and all others are dropped; any other segment changes nothing.
pub process_segment-cases :
    (w : ReceivingWorker) (s : DataSegment)
    → ((sub32 s.number w.next_number < w.window_size) × Accepted w s (process_segment w s))
      ⊎ ((w.window_size ≤ sub32 s.number w.next_number) × (process_segment w s ≡ w))
unfolding process_segment
process_segment-cases w s = elim (Bool-cases (leb w.window_size (sub32 s.number w.next_number))) [
  | inl far ↦ inr (ground arith, rw far)
  | inr near ↦ inl (
    ground arith,
    rw near (
      (λ j. lookup-window_set w.window s.number j s),
      entries-add (clear w.acklist s.sending_next) s
          ∙ ap (λ q. q ++ (entry s ∷ [])) (entries-clear w.acklist s.sending_next),
      refl,
      refl,
    ),
  )
]
