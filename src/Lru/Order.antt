-- ===== src/Lru/Order.antt =====
-- The list of the elements, from the one used last to the one that leaves next.
use dpi_warrior_native_xray.Base.{
  ℕ, suc, ◌<◌, ◌≡◌, refl, ap, true, false, some, List, [], ◌∷◌, arith, ◌==◌, if◌then◌else◌, length,
}
use dpi_warrior_native_xray.Lru.{mem, without, move_to_front, back, front_part}

-- No element is in the list twice.
abbrev pub Distinct : List ℕ → Type 0
Distinct [] = Unit {0}
Distinct (i ∷ l) = (mem i l ≡ false) × Distinct l

mem-without :
    (i j : ℕ) (l : List ℕ) → Distinct l → mem i (without j l) ≡ (if j == i then false else mem i l)
unfolding mem without
mem-without i j [] d = ground arith
mem-without i j (k ∷ l) d = ground (arith, mem-without i j l d.1, d)

without-Distinct : (j : ℕ) (l : List ℕ) → Distinct l → Distinct (without j l)
unfolding without
without-Distinct j [] d = d
without-Distinct j (k ∷ l) d = ground (arith, without-Distinct j l d.1, mem-without k j l d.1, d)

length-without : (j : ℕ) (l : List ℕ) → mem j l ≡ true → suc (length (without j l)) ≡ length l
unfolding mem without
length-without j [] m = ground (arith, m)
length-without j (k ∷ l) m = ground (arith, length-without j l, m)

pub mem-move_to_front : (i j : ℕ) (l : List ℕ) → Distinct l → mem i (move_to_front j l) ≡ mem i l
unfolding mem move_to_front
mem-move_to_front i j l d = ground (arith, mem-without i j l d)

pub move_to_front-Distinct : (j : ℕ) (l : List ℕ) → Distinct l → Distinct (move_to_front j l)
unfolding move_to_front
move_to_front-Distinct j l d = ground (arith, without-Distinct j l d, mem-without j j l d, d)

pub length-move_to_front : (j : ℕ) (l : List ℕ) → length (move_to_front j l) ≡ length l
unfolding move_to_front
length-move_to_front j l = ground (arith, length-without j l)

pub back-mem : (l : List ℕ) (b : ℕ) → back l ≡ some b → mem b l ≡ true
unfolding back mem
back-mem [] b e = ground (arith, e)
back-mem (i ∷ []) b e = ground (arith, e)
back-mem (i ∷ j ∷ l) b e = ground (arith, back-mem (j ∷ l) b e)

pub mem-front_part :
    (i b : ℕ) (l : List ℕ)
    → Distinct l
    → back l ≡ some b
    → mem i (front_part l) ≡ (if b == i then false else mem i l)
unfolding back mem front_part
mem-front_part i b [] d e = ground (arith, e)
mem-front_part i b (k ∷ []) d e = ground (arith, e)
mem-front_part i b (k ∷ j ∷ l) d e =
    ground (arith, mem-front_part i b (j ∷ l) d.1 e, back-mem (j ∷ l) b e, d)

pub front_part-Distinct :
    (l : List ℕ) (b : ℕ) → Distinct l → back l ≡ some b → Distinct (front_part l)
unfolding front_part back
front_part-Distinct [] b d e = d
front_part-Distinct (k ∷ []) b d e = tt
front_part-Distinct (k ∷ j ∷ l) b d e =
    ground (arith, front_part-Distinct (j ∷ l) b d.1 e, mem-front_part k b (j ∷ l) d.1 e, d)

pub length-front_part :
    (l : List ℕ) (b : ℕ) → back l ≡ some b → suc (length (front_part l)) ≡ length l
unfolding front_part back
length-front_part [] b e = ground (arith, e)
length-front_part (k ∷ []) b e = refl
length-front_part (k ∷ j ∷ l) b e = ap suc (length-front_part (j ∷ l) b e)

pub back-some : (l : List ℕ) → 0 < length l → (b : ℕ) × (back l ≡ some b)
unfolding back
back-some [] h = absurd (omega arith)
back-some (k ∷ []) h = (k, refl)
back-some (k ∷ j ∷ l) h = back-some (j ∷ l) (omega arith)

pub back-cons : (i : ℕ) (l : List ℕ) (b : ℕ) → back l ≡ some b → back (i ∷ l) ≡ some b
unfolding back
back-cons i [] b e = ground (arith, e)
back-cons i (j ∷ l) b e = e
