-- ===== src/Kcp/Receiving/Drain.antt =====
-- Taking the next segments, in order, out of the receiving window.
use dpi_warrior_native_xray.Base.{
  ℕ, zero, suc, ◌%◌, ◌^◌, ◌≤◌, ◌<◌, ◌≡◌, refl, sym, ap, ◌∙◌, ◌≢◌, inl, inr, none, some, List, [],
  ◌∷◌, ◌++◌, append-nil, append_assoc, arith, ◌==◌, Bool-cases, Option-cases, All, add32, sub32,
  IsU32,
}
use dpi_warrior_native_xray.Kcp.Segment.{DataSegment, bytes, detach}
use dpi_warrior_native_xray.Kcp.Receiving.{ReceivingWindow, lookup, delete, window_remove, drain}
use dpi_warrior_native_xray.Kcp.Receiving.Split.{flatten}

-- `f` is what the sender put under each number. An entry of the window holds that, and its number is
-- one of the `size` numbers from `next` on.
abbrev pub IsEntry : (ℕ → List ℕ) → ℕ → ℕ → ℕ × DataSegment → Type 0
IsEntry f size next e = (bytes e.1.payload ≡ f e.0) × IsU32 e.0 × (sub32 e.0 next < size)

-- The first `m` pieces of the stream; numbers are 32 bits wide.
abbrev pub stream : (ℕ → List ℕ) → ℕ → List ℕ
stream f zero = []
stream f (suc m) = stream f m ++ f (m % 2 ^ 32)

lookup_lem :
    (f : ℕ → List ℕ) (size next id : ℕ) (w : ReceivingWindow) (s : DataSegment)
    → All (IsEntry f size next) w
    → lookup id w ≡ some s
    → bytes s.payload ≡ f id
unfolding lookup
lookup_lem f size next id [] s h e = cc
lookup_lem f size next id ((k, t) ∷ w) s h e = elim (Bool-cases (k == id)) [
  | inl y ↦ let i : k ≡ id = ground arith in let j : t ≡ s = cc (rw y at e) in rw (← i, ← j) h.0.0
  | inr n ↦ lookup_lem f size next id w s h.1 (rw n at e)
]

delete_lem :
    (f : ℕ → List ℕ) (size next : ℕ) (w : ReceivingWindow)
    → next < 2 ^ 32
    → All (IsEntry f size next) w
    → All (IsEntry f size (add32 next 1)) (delete next w)
unfolding delete
delete_lem f size next [] n h = tt
delete_lem f size next ((k, t) ∷ w) n h = elim (Bool-cases (k == next)) [
  | inl y ↦ rw y (delete_lem f size next w n h.1)
  | inr d ↦
      let ne : k ≢ next = ground arith in
      rw d ((h.0.0, h.0.1, omega arith), delete_lem f size next w n h.1)
]

pub drain-none :
    (fuel : ℕ) (w : ReceivingWindow) (next : ℕ)
    → lookup next w ≡ none
    → drain (suc fuel) w next ≡ (w, next, [])
unfolding drain
drain-none fuel w next e = ground arith

window_remove-some :
    (w : ReceivingWindow) (id : ℕ) (s : DataSegment)
    → lookup id w ≡ some s
    → window_remove w id ≡ (delete id w, some s)
unfolding window_remove
window_remove-some w id s e = rw (e, window_remove)

pub drain-some :
    (fuel : ℕ) (w : ReceivingWindow) (next : ℕ) (s : DataSegment)
    → lookup next w ≡ some s
    → drain (suc fuel) w next ≡ (
        let (w', next', mb) = drain fuel (delete next w) (add32 next 1) in
        (w', next', bytes s.payload ∷ mb))
unfolding drain
drain-some fuel w next s e =
    let r = window_remove-some w next s e in
    let left : (window_remove w next).0 ≡ delete next w = ap (λ q. q.0) r in
    rw (r, drain) (rw left (unfold detach in refl))

stream-suc :
    (f : ℕ → List ℕ) (m next : ℕ) (p rest all : List ℕ)
    → next ≡ m % 2 ^ 32
    → p ≡ f next
    → stream f (suc m) ++ rest ≡ all
    → stream f m ++ (p ++ rest) ≡ all
stream-suc f m next p rest all e pe h =
    sym (append_assoc (stream f m) p rest) ∙ ap (λ q. (stream f m ++ q) ++ rest) (pe ∙ ap f e) ∙ h

abbrev Drained : (ℕ → List ℕ) → ℕ → ℕ → ReceivingWindow × ℕ × List (List ℕ) → Type 0
Drained f size m (w', next', mb) =
    (m' : ℕ) × (m ≤ m')
    × (next' ≡ m' % 2 ^ 32)
    × (stream f m ++ flatten mb ≡ stream f m')
    × All (IsEntry f size next') w'

pub drain_lem :
    (f : ℕ → List ℕ) (size fuel : ℕ) (w : ReceivingWindow) (m next : ℕ)
    → next ≡ m % 2 ^ 32
    → All (IsEntry f size next) w
    → Drained f size m (drain fuel w next)
drain_lem f size zero w m next e h = unfold drain in (m, omega arith, e, append-nil _, h)
drain_lem f size (suc fuel) w m next e h = elim (Option-cases (lookup next w)) [
  | inl none_left ↦ rw (drain-none fuel w next none_left) (m, omega arith, e, append-nil _, h)
  | inr (s, found) ↦
      let (m', le, e', str, h') =
        drain_lem f size fuel (delete next w) (suc m) (add32 next 1) (omega arith)
          (delete_lem f size next w (omega arith) h) in
      rw (drain-some fuel w next s found) (
        m',
        omega arith,
        e',
        stream-suc f m next _ _ _ e (lookup_lem f size next next w s h found) str,
        h',
      )
]
