-- ===== src/Strmatcher/Labels.antt =====
-- A pattern and a domain, compared part by part.
use mathlib.Core.List.{reverse, reverse-append, reverse-reverse, reverse-cons}
use dpi_warrior_native_xray.Base.{
  ℕ, ◌-◌, ◌≡◌, refl, sym, ap, ◌∙◌, inl, inr, Bool, true, false, ◌&&◌, some, List, [], ◌∷◌, ◌++◌,
  map, append_assoc, arith, ◌==◌, Bool-cases, length, take, drop, length-append, drop-length, ap₂,
  take-append-drop,
}
use dpi_warrior_native_xray.Base.{same_bytes, same_bytes_iff}
use dpi_warrior_native_xray.Strmatcher.{has_suffix, domain_matches, split, parts_back}
use dpi_warrior_native_xray.Base.{get_elem?}
use dpi_warrior_native_xray.Strmatcher.Trie.{begins}

-- The comparison from the back, byte by byte.
ends_at_dot : List ℕ → Bool
ends_at_dot [] = true
ends_at_dot (d ∷ z) = d == b'.'

match_back : List ℕ → List ℕ → Bool
match_back [] y = ends_at_dot y
match_back (c ∷ x) [] = false
match_back (c ∷ x) (d ∷ y) = c == d && match_back x y

abbrev parts : List ℕ → List (List ℕ)
parts x = (split x).0 ∷ (split x).1

parts-dot : (c : ℕ) (x : List ℕ) → (c == b'.') ≡ true → parts (c ∷ x) ≡ [] ∷ parts x
unfolding split
parts-dot c x t = rw t refl

parts-other :
    (c : ℕ) (x : List ℕ) → (c == b'.') ≡ false → parts (c ∷ x) ≡ (c ∷ (split x).0) ∷ (split x).1
unfolding split
parts-other c x f = rw f refl

begins-parts : (x y : List ℕ) → begins (parts x) (parts y) ≡ match_back x y
unfolding begins match_back ends_at_dot same_bytes split
begins-parts [] [] = refl
begins-parts [] (d ∷ y) = elim (Bool-cases (d == b'.')) [ inl t ↦ rw t refl | inr f ↦ rw f refl ]
begins-parts (c ∷ x) [] = elim (Bool-cases (c == b'.')) [ inl t ↦ rw t refl | inr f ↦ rw f refl ]
begins-parts (c ∷ x) (d ∷ y) = elim (Bool-cases (c == b'.')) [
  | inl t ↦ elim (Bool-cases (d == b'.')) [
    | inl u ↦ rw (t, u) (ground (arith, begins-parts x y, t, u))
    | inr g ↦ rw (t, g) (ground (arith, t, g))
  ]
  | inr f ↦ elim (Bool-cases (d == b'.')) [
    | inl u ↦ rw (f, u) (ground (arith, f, u))
    | inr g ↦ rw (f, g) (ground (arith, begins-parts x y))
  ]
]

same-reverse : (p q : List ℕ) → same_bytes (reverse p) (reverse q) ≡ same_bytes p q
same-reverse p q = elim (Bool-cases (same_bytes p q)) [
  | inl t ↦
      ground
        (arith, t, ap reverse ((same_bytes_iff p q).0 t), same_bytes_iff (reverse p) (reverse q))
  | inr f ↦ elim (Bool-cases (same_bytes (reverse p) (reverse q))) [
    | inl u ↦
        let same = ap reverse ((same_bytes_iff (reverse p) (reverse q)).0 u) in
        absurd (
          ground (arith, f, same_bytes_iff p q, sym (reverse-reverse p) ∙ same ∙ reverse-reverse q))
    | inr g ↦ g ∙ sym f
  ]
]

begins-reverse : (ps qs : List (List ℕ)) → begins (map reverse ps) (map reverse qs) ≡ begins ps qs
unfolding begins
begins-reverse [] qs = refl
begins-reverse (p ∷ ps) [] = refl
begins-reverse (p ∷ ps) (q ∷ qs) = rw (same-reverse p q, begins-reverse ps qs) refl

match_back-append : (x z : List ℕ) → match_back x (x ++ z) ≡ ends_at_dot z
unfolding match_back
match_back-append [] z = refl
match_back-append (c ∷ x) z = ground (arith, match_back-append x z)

match_back-begins : (x y : List ℕ) → match_back x y ≡ true → (z : List ℕ) × (y ≡ x ++ z)
unfolding match_back
match_back-begins [] y h = (y, refl)
match_back-begins (c ∷ x) [] h = absurd (ground (arith, h))
match_back-begins (c ∷ x) (d ∷ y) h =
    let (z, e) = match_back-begins x y (ground (arith, h)) in (z, ap₂ ◌∷◌ (ground (arith, h)) e)

has_suffix-append : (a p : List ℕ) → has_suffix (a ++ p) p ≡ true
unfolding has_suffix
has_suffix-append a p =
    let n = length-append a p in
    let k : length (a ++ p) - length p ≡ length a = omega (arith, n) in
    rw (k, drop-length a p) (ground (arith, n, same_bytes_iff p p))

has_suffix-split : (s p : List ℕ) → has_suffix s p ≡ true → (a : List ℕ) × (s ≡ a ++ p)
unfolding has_suffix
has_suffix-split s p h =
    let k = length s - length p in
    let same : drop k s ≡ p = ground (arith, h, same_bytes_iff (drop k s) p) in
    (take k s, sym (take-append-drop k s) ∙ ap (λ l. take k s ++ l) same)

get_elem?-middle : (a : List ℕ) (d : ℕ) (p : List ℕ) → get_elem? (a ++ (d ∷ p)) (length a) ≡ some d
unfolding get_elem?
get_elem?-middle [] d p = refl
get_elem?-middle (x ∷ a) d p = get_elem?-middle a d p

domain_matches_self : (p : List ℕ) → domain_matches p p ≡ true
unfolding domain_matches
domain_matches_self p = rw (has_suffix-append [] p) (ground arith)

domain_matches-after :
    (a : List ℕ) (d : ℕ) (p : List ℕ) → domain_matches p (a ++ (d ∷ p)) ≡ (d == b'.')
unfolding domain_matches
domain_matches-after a d p =
    let suffix : has_suffix (a ++ (d ∷ p)) p ≡ true =
      ap (λ l. has_suffix l p) (sym (append_assoc a (d ∷ []) p))
      ∙ has_suffix-append (a ++ (d ∷ [])) p in
    let n = length-append a (d ∷ p) in
    let longer : (length (a ++ (d ∷ p)) == length p) ≡ false = ground (arith, n) in
    let place : length (a ++ (d ∷ p)) - length p - 1 ≡ length a = omega (arith, n) in
    rw (suffix, longer, place, get_elem?-middle a d p) refl

domain_matches-append : (z p : List ℕ) → domain_matches p (reverse z ++ p) ≡ ends_at_dot z
unfolding ends_at_dot
domain_matches-append [] p = domain_matches_self p
domain_matches-append (d ∷ z) p =
    ap (domain_matches p)
      (ap (λ l. l ++ p) (reverse-cons d z) ∙ append_assoc (reverse z) (d ∷ []) p)
    ∙ domain_matches-after (reverse z) d p

domain_matches-no_suffix : (s p : List ℕ) → has_suffix s p ≡ false → domain_matches p s ≡ false
unfolding domain_matches
domain_matches-no_suffix s p f = rw f refl

domain_matches-match_back : (p s : List ℕ) → domain_matches p s ≡ match_back (reverse p) (reverse s)
domain_matches-match_back p s = elim (Bool-cases (has_suffix s p)) [
  | inl t ↦
      let (a, e) = has_suffix-split s p t in
      let back : reverse s ≡ reverse p ++ reverse a = ap reverse e ∙ reverse-append a p in
      let front : s ≡ reverse (reverse a) ++ p = e ∙ ap (λ l. l ++ p) (sym (reverse-reverse a)) in
      ap (domain_matches p) front
      ∙ domain_matches-append (reverse a) p
      ∙ sym (match_back-append (reverse p) (reverse a))
      ∙ ap (match_back (reverse p)) (sym back)
  | inr f ↦ elim (Bool-cases (match_back (reverse p) (reverse s))) [
    | inr g ↦ domain_matches-no_suffix s p f ∙ sym g
    | inl u ↦
        let (z, e) = match_back-begins (reverse p) (reverse s) u in
        let front : s ≡ reverse z ++ p =
          sym (reverse-reverse s)
          ∙ ap reverse e
          ∙ reverse-append (reverse p) z
          ∙ ap (λ l. reverse z ++ l) (reverse-reverse p) in
        let yes = ap (λ l. has_suffix l p) front ∙ has_suffix-append (reverse z) p in
        absurd (ground (arith, f, yes))
  ]
]

-- A domain matches a pattern where its parts, from the last one, begin with those of the pattern.
pub begins-parts_back : (p s : List ℕ) → begins (parts_back p) (parts_back s) ≡ domain_matches p s
unfolding parts_back
begins-parts_back p s =
    begins-reverse (parts (reverse p)) (parts (reverse s))
    ∙ begins-parts (reverse p) (reverse s)
    ∙ sym (domain_matches-match_back p s)
