-- ===== src/Kcp/Sending/Order.antt =====
-- The order of the segments that wait for acknowledgement, which every method of the worker keeps.
use dpi_warrior_native_xray.Base.{
  ℕ, suc, ◌≤◌, ◌<◌, ◌≡◌, refl, sym, ap, inl, inr, Bool, true, false, Option, none, some, List, [],
  ◌∷◌, ◌++◌, arith, ltb, leb, ◌==◌, if◌then◌else◌, Bool-cases, ap₂, IsU32, ◌>>=◌,
}
use dpi_warrior_native_xray.Kcp.Segment.{DataSegment}
use dpi_warrior_native_xray.Kcp.SendingWindow.{
  SendingWindow, first_number, drop_below, visit, remove_number,
}
use dpi_warrior_native_xray.Kcp.SendingWindow
use dpi_warrior_native_xray.Kcp.Sending.{SendingWorker, find_first_unacknowledged}

abbrev pub numbers : List DataSegment → List ℕ
numbers [] = []
numbers (s ∷ ss) = s.number ∷ numbers ss

-- The numbers grow, from `lo` on and below `hi`.
abbrev pub Ascends : ℕ → ℕ → List ℕ → Type 0
Ascends lo hi [] = lo ≤ hi
Ascends lo hi (n ∷ ns) = (lo ≤ n) × (n < hi) × Ascends (suc n) hi ns

pub Ascends-le : (lo hi : ℕ) (ns : List ℕ) → Ascends lo hi ns → lo ≤ hi
Ascends-le lo hi [] h = h
Ascends-le lo hi (n ∷ ns) h = omega arith

pub Ascends-lower : (lo lo' hi : ℕ) (ns : List ℕ) → lo' ≤ lo → Ascends lo hi ns → Ascends lo' hi ns
Ascends-lower lo lo' hi [] l h = omega arith
Ascends-lower lo lo' hi (n ∷ ns) l h = (omega arith, h.1, h.2)

pub Ascends-snoc :
    (lo hi : ℕ) (ns : List ℕ) → Ascends lo hi ns → Ascends lo (suc hi) (ns ++ (hi ∷ []))
Ascends-snoc lo hi [] h = omega arith
Ascends-snoc lo hi (n ∷ ns) h = (h.0, omega arith, Ascends-snoc (suc n) hi ns h.2)

pub numbers-append : (xs ys : List DataSegment) → numbers (xs ++ ys) ≡ numbers xs ++ numbers ys
numbers-append [] ys = refl
numbers-append (x ∷ xs) ys = ap (◌∷◌ x.number) (numbers-append xs ys)

-- A visitor that leaves the numbers alone leaves the order alone.
pub numbers-visit {ℓ} :
    {S : Type ℓ} (v : DataSegment → S → Bool × DataSegment × S)
    → ((s : DataSegment) (st : S) → (v s st).1.number ≡ s.number)
    → (ss : List DataSegment) (st : S) → numbers (visit v ss st).0 ≡ numbers ss
unfolding visit
numbers-visit v h [] st = refl
numbers-visit v h (s ∷ ss) st = elim (Bool-cases (v s st).0) [
  | inl more ↦ rw more (ap₂ ◌∷◌ (h s st) (numbers-visit v h ss (v s st).2))
  | inr stop ↦ rw stop (ap (λ n. n ∷ numbers ss) (h s st))
]

-- What a release of the numbers below `una` leaves, and of the number `n`.
abbrev pub from : ℕ → List ℕ → List ℕ
from una [] = []
from una (n ∷ ns) = if leb una n then n ∷ from una ns else from una ns

abbrev pub without : ℕ → List ℕ → List ℕ
without k [] = []
without k (n ∷ ns) = if n == k then without k ns else n ∷ without k ns

from-above : (una lo hi : ℕ) (ns : List ℕ) → una ≤ lo → Ascends lo hi ns → from una ns ≡ ns
from-above una lo hi [] l h = refl
from-above una lo hi (n ∷ ns) l h = ground (arith, from-above una (suc n) hi ns)

without-above : (k lo hi : ℕ) (ns : List ℕ) → k < lo → Ascends lo hi ns → without k ns ≡ ns
without-above k lo hi [] l h = refl
without-above k lo hi (n ∷ ns) l h = ground (arith, without-above k (suc n) hi ns)

pub from-Ascends : (una lo hi : ℕ) (ns : List ℕ) → Ascends lo hi ns → Ascends lo hi (from una ns)
from-Ascends una lo hi [] h = h
from-Ascends una lo hi (n ∷ ns) h =
    ground (arith, from-Ascends una (suc n) hi ns, Ascends-lower (suc n) lo hi (from una ns))

pub without-Ascends : (k lo hi : ℕ) (ns : List ℕ) → Ascends lo hi ns → Ascends lo hi (without k ns)
without-Ascends k lo hi [] h = h
without-Ascends k lo hi (n ∷ ns) h =
    ground (arith, without-Ascends k (suc n) hi ns, Ascends-lower (suc n) lo hi (without k ns))

-- Both walks of the source stop early; in an ascending list they miss nothing.
pub numbers-drop_below :
    (una lo hi : ℕ) (ss : List DataSegment)
    → Ascends lo hi (numbers ss)
    → numbers (drop_below una ss) ≡ from una (numbers ss)
unfolding drop_below
numbers-drop_below una lo hi [] h = refl
numbers-drop_below una lo hi (s ∷ ss) h = elim (Bool-cases (leb una s.number)) [
  | inl stop ↦
      rw stop
        (ap (◌∷◌ s.number) (sym (from-above una (suc s.number) hi (numbers ss) (ground arith) h.2)))
  | inr on ↦ rw on (numbers-drop_below una (suc s.number) hi ss h.2)
]

unfoldable pub has : ℕ → List ℕ → Bool
has k [] = false
has k (n ∷ ns) = if n == k then true else has k ns

has-above : (k lo hi : ℕ) (ns : List ℕ) → k < lo → Ascends lo hi ns → has k ns ≡ false
unfolding has
has-above k lo hi [] l h = refl
has-above k lo hi (n ∷ ns) l h = ground (arith, has-above k (suc n) hi ns)

abbrev pub Removed : ℕ → List DataSegment → Option (List DataSegment) → Type 0
Removed k ss none = (has k (numbers ss) ≡ false) × (without k (numbers ss) ≡ numbers ss)
Removed k ss (some r) = (has k (numbers ss) ≡ true) × (numbers r ≡ without k (numbers ss))

Removed-cons :
    (k : ℕ) (s : DataSegment) (ss : List DataSegment) (r : Option (List DataSegment))
    → (s.number == k) ≡ false
    → Removed k ss r
    → Removed k (s ∷ ss) (r >>= λ q. some (s ∷ q))
unfolding has
Removed-cons k s ss none ne (h, w) = rw ne (h, ap (◌∷◌ s.number) w)
Removed-cons k s ss (some q) ne (h, w) = rw ne (h, ap (◌∷◌ s.number) w)

pub remove_number-Removed :
    (k lo hi : ℕ) (ss : List DataSegment)
    → Ascends lo hi (numbers ss)
    → Removed k ss (remove_number k ss)
unfolding remove_number has
remove_number-Removed k lo hi [] h = (refl, refl)
remove_number-Removed k lo hi (s ∷ ss) h = elim (Bool-cases (ltb k s.number)) [
  | inl past ↦
      let ne : (s.number == k) ≡ false = ground arith in
      rw past (
        rw ne (
          has-above k (suc s.number) hi (numbers ss) (ground arith) h.2,
          ap (◌∷◌ s.number) (without-above k (suc s.number) hi (numbers ss) (ground arith) h.2),
        ))
  | inr not_past ↦ elim (Bool-cases (s.number == k)) [
    | inl eq ↦ rw not_past (
        rw eq (
          rw (eq, has) refl,
          rw eq (sym (without-above k (suc s.number) hi (numbers ss) (ground arith) h.2)),
        ))
    | inr ne ↦ rw not_past (
        rw ne (
          Removed-cons k s ss (remove_number k ss) ne
            (remove_number-Removed k (suc s.number) hi ss h.2)))
  ]
]

-- What `Remove` does to the numbers, whether or not the number is there.
pub numbers-remove :
    (sw : SendingWindow) (k lo hi : ℕ)
    → Ascends lo hi (numbers sw.cache)
    → (numbers (SendingWindow.remove sw k).0.cache ≡ without k (numbers sw.cache))
      × ((SendingWindow.remove sw k).1 ≡ has k (numbers sw.cache))
unfolding SendingWindow.remove
numbers-remove sw k lo hi h =
    go (remove_number k sw.cache) refl (remove_number-Removed k lo hi sw.cache h)
  where
    go :
        (r : Option (List DataSegment))
        → remove_number k sw.cache ≡ r
        → Removed k sw.cache r
        → (numbers (SendingWindow.remove sw k).0.cache ≡ without k (numbers sw.cache))
          × ((SendingWindow.remove sw k).1 ≡ has k (numbers sw.cache))
    go none e (a, w) = rw (e, SendingWindow.remove) (sym w, sym a)
    go (some r) e (a, w) = rw (e, SendingWindow.remove) (w, sym a)

pub record IsOrdered (w : SendingWorker) : Type 0 where
  pub ascends : Ascends w.first_unacknowledged w.next_number (numbers w.window.cache)
  pub next_IsU32 : IsU32 w.next_number

pub find_first_unacknowledged-IsOrdered :
    (w : SendingWorker) (lo : ℕ)
    → Ascends lo w.next_number (numbers w.window.cache)
    → IsU32 w.next_number
    → IsOrdered (find_first_unacknowledged w)
      × (lo ≤ (find_first_unacknowledged w).first_unacknowledged)
unfolding find_first_unacknowledged first_number
find_first_unacknowledged-IsOrdered w lo h u = go w.window.cache refl h
  where
    go :
        (c : List DataSegment)
        → w.window.cache ≡ c
        → Ascends lo w.next_number (numbers c)
        → IsOrdered (find_first_unacknowledged w)
          × (lo ≤ (find_first_unacknowledged w).first_unacknowledged)
    go [] e a =
        rw (e, find_first_unacknowledged, first_number)
          (record { ascends = omega arith; next_IsU32 = u }, a)
    go (s ∷ ss) e a =
        rw (e, find_first_unacknowledged, first_number)
          (record { ascends = (omega arith, a.1, a.2); next_IsU32 = u }, a.0)
