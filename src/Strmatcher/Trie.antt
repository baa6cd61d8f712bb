-- ===== src/Strmatcher/Trie.antt =====
-- The tree of parts.
use mathlib.Core.Path.{subst}
use dpi_warrior_native_xray.Base.{
  ℕ, ◌≡◌, refl, ◌≢◌, inl, inr, Bool, true, false, ◌&&◌, ◌||◌, Option, none, some, List, [], ◌∷◌,
  ◌++◌, append-nil, arith, ◌==◌, Bool-cases, Option-cases,
}
use dpi_warrior_native_xray.Base.{same_bytes, same_bytes_iff}
use dpi_warrior_native_xray.Strmatcher.{
  Node, node, Subs, no_subs, sub, values, subs_of, new_path, add_parts, add_sub, lookup,
  match_parts,
}

-- Whether a list holds a number.
unfoldable pub has : ℕ → List ℕ → Bool
has v [] = false
has v (x ∷ xs) = x == v || has v xs

pub has-append : (v : ℕ) (xs ys : List ℕ) → has v (xs ++ ys) ≡ (has v xs || has v ys)
unfolding has
has-append v [] ys = refl
has-append v (x ∷ xs) ys = ground (arith, has-append v xs ys)

-- Whether the parts begin with others.
unfoldable pub begins : List (List ℕ) → List (List ℕ) → Bool
begins [] qs = true
begins (p ∷ ps) [] = false
begins (p ∷ ps) (q ∷ qs) = same_bytes p q && begins ps qs

-- The values on the way, with those of the node where it begins.
abbrev pub all_values : List (List ℕ) → Node → List ℕ
all_values qs n = match_parts qs n ++ values n

abbrev below : List ℕ → List (List ℕ) → Subs → List ℕ
below q qs subs = elim (lookup q subs) [ none ↦ [] | some next ↦ all_values qs next ]

same-false : (p q : List ℕ) → p ≢ q → same_bytes p q ≡ false
same-false p q h = ground (arith, same_bytes_iff p q, h)

same-true : (p : List ℕ) → same_bytes p p ≡ true
same-true p = ground (arith, same_bytes_iff p p)

-- What a search finds in a list of nodes.
abbrev pub values_or_none : List (List ℕ) → Option Node → List ℕ
values_or_none qs none = []
values_or_none qs (some next) = all_values qs next

all_values-cons :
    (q : List ℕ) (qs : List (List ℕ)) (n : Node)
    → all_values (q ∷ qs) n ≡ values_or_none qs (lookup q (subs_of n)) ++ values n
unfolding match_parts
all_values-cons q qs n = elim (Option-cases (lookup q (subs_of n))) [
  | inl e ↦ rw (e, match_parts) refl
  | inr (m, e) ↦ rw (e, match_parts) refl
]

lookup-here :
    (q p : List ℕ) (n : Node) (subs : Subs)
    → same_bytes p q ≡ true
    → lookup q (sub p n subs) ≡ some n
unfolding lookup
lookup-here q p n subs t = rw t refl

lookup-later :
    (q p : List ℕ) (n : Node) (subs : Subs)
    → same_bytes p q ≡ false
    → lookup q (sub p n subs) ≡ lookup q subs
unfolding lookup
lookup-later q p n subs f = rw f refl

new_path-has :
    (v x : ℕ) (ps qs : List (List ℕ))
    → has x (all_values qs (new_path ps v)) ≡ (v == x && begins ps qs)
unfolding new_path begins
new_path-has v x [] [] = unfold match_parts has in ground arith
new_path-has v x [] (q ∷ qs) = unfold match_parts has lookup in ground arith
new_path-has v x (p ∷ ps) [] = unfold match_parts has in ground arith
new_path-has v x (p ∷ ps) (q ∷ qs) = elim (Bool-cases (same_bytes p q)) [
  | inl t ↦
      rw
        (
          all_values-cons q qs (new_path (p ∷ ps) v),
          lookup-here q p (new_path ps v) no_subs t,
          t,
          append-nil (all_values qs (new_path ps v)),
        )
        (new_path-has v x ps qs)
  | inr f ↦
      rw (all_values-cons q qs (new_path (p ∷ ps) v), lookup-later q p (new_path ps v) no_subs f, f)
        (unfold lookup has in ground arith)
]

-- A pattern that is added: its value is found on the way of the texts that begin with its parts, and
-- what else is found there stays.
abbrev pub AddsTo : Bool → Bool → ℕ → ℕ → Bool → Type 0
AddsTo after before v x here = after ≡ (before || (v == x && here))

match_parts-subs :
    (qs : List (List ℕ)) (vs ws : List ℕ) (subs : Subs)
    → match_parts qs (node vs subs) ≡ match_parts qs (node ws subs)
unfolding match_parts
match_parts-subs [] vs ws subs = refl
match_parts-subs (q ∷ qs) vs ws subs = refl

has-snoc :
    (v x : ℕ) (ms vs : List ℕ) → AddsTo (has x (ms ++ (vs ++ (v ∷ [])))) (has x (ms ++ vs)) v x true
unfolding has
has-snoc v x ms vs =
    ground (arith, has-append x ms (vs ++ (v ∷ [])), has-append x vs (v ∷ []), has-append x ms vs)

-- The first node of a list: the parts below it, or those below the others.
add_here-has :
    (v x : ℕ) (q : List ℕ) (qs : List (List ℕ)) (r : List ℕ) (n n' : Node) (subs : Subs)
    (here : Bool)
    → AddsTo (has x (all_values qs n')) (has x (all_values qs n)) v x here
    → AddsTo
        (has x (values_or_none qs (lookup q (sub r n' subs))))
        (has x (values_or_none qs (lookup q (sub r n subs))))
        v
        x
        (same_bytes r q && here)
add_here-has v x q qs r n n' subs here h = elim (Bool-cases (same_bytes r q)) [
  | inl t ↦ rw (lookup-here q r n' subs t, lookup-here q r n subs t, t) h
  | inr f ↦ rw (lookup-later q r n' subs f, lookup-later q r n subs f, f) (ground arith)
]

add_later-has :
    (v x : ℕ) (q : List ℕ) (qs : List (List ℕ)) (r : List ℕ) (n : Node) (subs subs' : Subs)
    (p : List ℕ) (here : Bool)
    → same_bytes r p ≡ false
    → AddsTo
        (has x (values_or_none qs (lookup q subs')))
        (has x (values_or_none qs (lookup q subs)))
        v
        x
        (same_bytes p q && here)
    → AddsTo
        (has x (values_or_none qs (lookup q (sub r n subs'))))
        (has x (values_or_none qs (lookup q (sub r n subs))))
        v
        x
        (same_bytes p q && here)
add_later-has v x q qs r n subs subs' p here other h = elim (Bool-cases (same_bytes r q)) [
  | inl t ↦
      let apart : same_bytes p q ≡ false =
        ground (arith, same_bytes_iff r q, same_bytes_iff r p, same_bytes_iff p q, t, other) in
      rw (lookup-here q r n subs' t, lookup-here q r n subs t, apart) (ground arith)
  | inr f ↦ rw (lookup-later q r n subs' f, lookup-later q r n subs f) h
]

no_parts-has :
    (v x : ℕ) (vs : List ℕ) (subs subs' : Subs)
    → AddsTo
        (has x (all_values [] (node vs subs')))
        (has x (all_values [] (node vs subs)))
        v
        x
        false
unfolding match_parts
no_parts-has v x vs subs subs' = ground arith

add_new-has :
    (v x : ℕ) (p : List ℕ) (ps : List (List ℕ)) (q : List ℕ) (qs : List (List ℕ))
    → AddsTo
        (has x (values_or_none qs (lookup q (sub p (new_path ps v) no_subs))))
        (has x (values_or_none qs (lookup q no_subs)))
        v
        x
        (same_bytes p q && begins ps qs)
add_new-has v x p ps q qs = elim (Bool-cases (same_bytes p q)) [
  | inl t ↦
      rw (lookup-here q p (new_path ps v) no_subs t, t, new_path-has v x ps qs)
        (unfold lookup has in ground arith)
  | inr f ↦ rw (lookup-later q p (new_path ps v) no_subs f, f) (unfold lookup has in ground arith)
]

mutual
  unfolding add_parts begins

  pub add_parts-has :
      (v x : ℕ) (ps qs : List (List ℕ)) (n : Node)
      → AddsTo
          (has x (all_values qs (add_parts ps v n)))
          (has x (all_values qs n))
          v
          x
          (begins ps qs)
  add_parts-has v x [] qs (node vs subs) =
      rw (match_parts-subs qs (vs ++ (v ∷ [])) vs subs)
        (has-snoc v x (match_parts qs (node vs subs)) vs)
  add_parts-has v x (p ∷ ps) [] (node vs subs) = no_parts-has v x vs subs (add_sub p ps v subs)
  add_parts-has v x (p ∷ ps) (q ∷ qs) (node vs subs) =
      let below_q = add_sub-has v x p ps q qs subs in
      let found = values_or_none qs (lookup q (add_sub p ps v subs)) in
      let before = values_or_none qs (lookup q subs) in
      rw (all_values-cons q qs (node vs (add_sub p ps v subs)), all_values-cons q qs (node vs subs))
        (ground (arith, has-append x found vs, has-append x before vs, below_q))

  pub add_sub-has :
      (v x : ℕ) (p : List ℕ) (ps : List (List ℕ)) (q : List ℕ) (qs : List (List ℕ)) (subs : Subs)
      → AddsTo
          (has x (values_or_none qs (lookup q (add_sub p ps v subs))))
          (has x (values_or_none qs (lookup q subs)))
          v
          x
          (same_bytes p q && begins ps qs)
  add_sub-has v x p ps q qs no_subs = add_new-has v x p ps q qs
  add_sub-has v x p ps q qs (sub r n subs) = elim (Bool-cases (same_bytes r p)) [
    | inl t ↦
        let same : r ≡ p = ground (arith, same_bytes_iff r p, t) in
        let here =
          add_here-has v x q qs r n (add_parts ps v n) subs (begins ps qs)
            (add_parts-has v x ps qs n) in
        rw t (
          subst
            (λ k.
              AddsTo (has x (values_or_none qs (lookup q (sub r (add_parts ps v n) subs))))
                (has x (values_or_none qs (lookup q (sub r n subs)))) v x
                (same_bytes k q && begins ps qs))
            same here)
    | inr f ↦ rw f (
        add_later-has v x q qs r n subs (add_sub p ps v subs) p (begins ps qs) f
          (add_sub-has v x p ps q qs subs))
  ]
