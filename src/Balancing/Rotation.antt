-- ===== src/Balancing/Rotation.antt =====
-- What a round robin picks.
use mathlib.Core.Path.{subst}
use native.Mathlib.Nat.{mod_self}
use dpi_warrior_native_xray.Base.{
  ℕ, zero, suc, ◌+◌, ◌-◌, ◌%◌, ◌≤◌, ◌<◌, ◌≡◌, refl, sym, ap, ◌∙◌, inl, inr, Bool, Option, some,
  List, [], ◌∷◌, ◌++◌, append-nil, arith, ltb, Bool-cases, ltb→lt, ltb→le, length, take, drop,
  length-drop, take-all, ap₂, ◌>>=◌,
}
use dpi_warrior_native_xray.Base.{get_elem?}
use dpi_warrior_native_xray.Balancing.{Tag, candidates, pick_at, pick_round_robin}

-- The picks of so many calls with the same outbounds and the same report: the index after them, and the
-- tags.
unfoldable pub picks : ℕ → Option (List (Tag × Bool)) → ℕ → List Tag → Option (ℕ × List Tag)
picks zero report index tags = some (index, [])
picks (suc k) report index tags = do
  (next, tag) ← pick_round_robin report index tags
  (last, rest) ← picks k report next tags
  some (last, tag ∷ rest)

get_elem?-drop :
    (tags : List Tag) (i : ℕ)
    → i < length tags
    → (tag : Tag) × (get_elem? tags i ≡ some tag) × (drop i tags ≡ tag ∷ drop (suc i) tags)
unfolding get_elem?
get_elem?-drop [] i h = absurd (omega (arith, h))
get_elem?-drop (tag ∷ tags) zero h = (tag, refl, refl)
get_elem?-drop (tag ∷ tags) (suc i) h = get_elem?-drop tags i (omega (arith, h))

mod_small : (i n : ℕ) → i < n → i % n ≡ i
mod_small i n h = grind (arith, h)

-- The next index, which is 0 after the last one.
pick_at-next :
    (tags : List Tag) (i : ℕ) (tag : Tag)
    → i < length tags
    → get_elem? tags i ≡ some tag
    → pick_at i tags ≡ some ((i + 1) % length tags, tag)
unfolding pick_at
pick_at-next [] i tag h e = absurd (omega (arith, h))
pick_at-next (t ∷ tags) i tag h e = rw (mod_small i (length (t ∷ tags)) h, e) refl

picks-suc :
    (k : ℕ) (report : Option (List (Tag × Bool))) (i next last : ℕ) (tags rest : List Tag)
    (tag : Tag)
    → pick_at i (candidates report tags) ≡ some (next, tag)
    → picks k report next tags ≡ some (last, rest)
    → picks (suc k) report i tags ≡ some (last, tag ∷ rest)
unfolding picks pick_round_robin
picks-suc k report i next last tags rest tag e f = rw (e, f) refl

-- Picks up to the last outbound at most, and what follows them.
picks-up :
    (k m : ℕ) (report : Option (List (Tag × Bool))) (i last : ℕ) (tags rest : List Tag)
    → i < length (candidates report tags)
    → i + k ≤ length (candidates report tags)
    → picks m report ((i + k) % length (candidates report tags)) tags ≡ some (last, rest)
    → picks (k + m) report i tags ≡ some (last, take k (drop i (candidates report tags)) ++ rest)
picks-up zero m report i last tags rest lt le h =
    let n = length (candidates report tags) in
    let same : (i + 0) % n ≡ i = ap (λ j. j % n) (omega arith) ∙ mod_small i n lt in
    let from : 0 + m ≡ m = omega arith in
    ap (λ j. picks j report i tags) from
    ∙ subst (λ j. picks m report j tags ≡ some (last, rest)) same h
picks-up (suc k) m report i last tags rest lt le h =
    let c = candidates report tags in
    let n = length c in
    let (tag, e, d) = get_elem?-drop c i lt in
    let count : suc k + m ≡ suc (k + m) = omega arith in
    let shift : i + suc k ≡ suc i + k = omega arith in
    let here = pick_at-next c i tag lt e in
    let later : picks m report ((suc i + k) % n) tags ≡ some (last, rest) =
      subst (λ j. picks m report (j % n) tags ≡ some (last, rest)) shift h in
    ap (λ j. picks j report i tags) count
    ∙ picks-suc (k + m) report i ((i + 1) % n) last tags (take k (drop (suc i) c) ++ rest) tag here
        (elim (Bool-cases (ltb (suc i) n)) [
          | inl t ↦
              let small : (i + 1) % n ≡ suc i =
                ap (λ j. j % n) (omega arith) ∙ mod_small (suc i) n (ltb→lt (suc i) n t) in
              ap (λ j. picks (k + m) report j tags) small
              ∙ picks-up k m report (suc i) last tags rest (ltb→lt (suc i) n t) (omega (arith, le))
                  later
          | inr f ↦
              let end : suc i ≡ n = omega (arith, ltb→le (suc i) n f, lt) in
              let none_left : k ≡ 0 = omega (arith, le, end) in
              let count_left : k + m ≡ m = omega (arith, none_left) in
              let place : i + 1 ≡ suc i + k = omega (arith, none_left) in
              ap₂ (λ a b. picks a report (b % n) tags) count_left place
              ∙ later
              ∙ ap (λ j. some (last, take j (drop (suc i) c) ++ rest)) (sym none_left)
        ])
    ∙ ap (λ l. some (last, take (suc k) l ++ rest)) (sym d)

-- A round robin that is asked as often as there are live outbounds picks each of them once, in their
-- order from the index on and then from the front, and is at the same index again. Assumed is that the
-- index is below the number of live outbounds, and that the outbounds and the report stay the same.
pub picks-rotation :
    (report : Option (List (Tag × Bool))) (i : ℕ) (tags : List Tag)
    → i < length (candidates report tags)
    → picks (length (candidates report tags)) report i tags
      ≡ some (i, drop i (candidates report tags) ++ take i (candidates report tags))
picks-rotation report i tags lt =
    let c = candidates report tags in
    let n = length c in
    let up : i + (n - i) ≡ n = omega (arith, lt) in
    let all : (n - i) + i ≡ n = omega (arith, lt) in
    let stays : picks 0 report ((0 + i) % n) tags ≡ some (i, []) =
      unfold picks in ap (λ j. some (j, [])) (ap (λ j. j % n) (omega arith) ∙ mod_small i n lt) in
    let front : picks i report 0 tags ≡ some (i, take i c) =
      ap (λ j. picks j report 0 tags) (omega arith)
      ∙ picks-up i 0 report 0 i tags [] (omega (arith, lt)) (omega (arith, lt)) stays
      ∙ ap (λ l. some (i, l)) (append-nil (take i c)) in
    let wraps : (i + (n - i)) % n ≡ 0 = ap (λ j. j % n) up ∙ mod_self n in
    ap (λ j. picks j report i tags) (sym all)
    ∙ picks-up (n - i) i report i i tags (take i c) lt (omega (arith, up))
        (ap (λ j. picks i report j tags) wraps ∙ front)
    ∙ ap (λ l. some (i, l ++ take i c))
        (take-all (n - i) (drop i c) (omega (arith, length-drop i c)))
