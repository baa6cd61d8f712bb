-- ===== src/Strmatcher/Group.antt =====
-- A group, compared with its matchers one by one.
use dpi_warrior_native_xray.Base.{
  ℕ, ◌<◌, ◌≡◌, refl, sym, ap, ◌∙◌, inl, inr, Bool, false, ◌&&◌, ◌||◌, Option, none, some, List, [],
  ◌∷◌, ◌++◌, arith, ◌==◌, Bool-cases, Option-cases, length,
}
use dpi_warrior_native_xray.Base.{same_bytes, same_bytes_iff}
use dpi_warrior_native_xray.Strmatcher.{
  domain_matches, parts_back, Node, node, subs_of, new_node, add_parts, add_sub, add, lookup,
  match_parts, match_domain,
}
use dpi_warrior_native_xray.Base.{bytes_eq, find, find-insert}
use dpi_warrior_native_xray.Strmatcher.{
  FullMatcherGroup, match_full, add_full, Matcher, full_matcher, substr_matcher, domain_matcher,
  regex_matcher, matches, MatcherGroup, new_group, next_id, add_matcher, match_others, match_group,
}
use dpi_warrior_native_xray.Strmatcher.Trie.{
  has, has-append, begins, AddsTo, values_or_none, add_sub-has,
}
use dpi_warrior_native_xray.Strmatcher.Labels.{begins-parts_back}

-- The group after all matchers have been added.
unfoldable pub add_all : MatcherGroup → List Matcher → MatcherGroup
add_all g [] = g
add_all g (m ∷ ms) = add_all (add_matcher g m) ms

-- Whether one of the matchers has the number and matches.
unfoldable pub one_matches : ℕ → List ℕ → ℕ → List Matcher → Bool
one_matches x s count [] = false
one_matches x s count (m ∷ ms) =
    (next_id count == x && matches m s) || one_matches x s (next_id count) ms

match_parts-cons :
    (q : List ℕ) (qs : List (List ℕ)) (n : Node)
    → match_parts (q ∷ qs) n ≡ values_or_none qs (lookup q (subs_of n))
unfolding match_parts
match_parts-cons q qs n = elim (Option-cases (lookup q (subs_of n))) [
  | inl e ↦ rw (e, match_parts) refl
  | inr (m, e) ↦ rw (e, match_parts) refl
]

add_root-has :
    (v x : ℕ) (p : List ℕ) (ps : List (List ℕ)) (q : List ℕ) (qs : List (List ℕ)) (n : Node)
    → AddsTo
        (has x (match_parts (q ∷ qs) (add_parts (p ∷ ps) v n)))
        (has x (match_parts (q ∷ qs) n))
        v
        x
        (begins (p ∷ ps) (q ∷ qs))
unfolding add_parts begins
add_root-has v x p ps q qs (node vs subs) =
    rw (match_parts-cons q qs (node vs (add_sub p ps v subs)), match_parts-cons q qs (node vs subs))
      (add_sub-has v x p ps q qs subs)

-- The parts of a text are one at least.
parts_back-cons : (s : List ℕ) → (q : List ℕ) × (qs : List (List ℕ)) × (parts_back s ≡ q ∷ qs)
unfolding parts_back
parts_back-cons s = (_, _, refl)

add_pattern-has :
    (v x : ℕ) (pattern s : List ℕ) (n : Node)
    → AddsTo
        (has x (match_parts (parts_back s) (add_parts (parts_back pattern) v n)))
        (has x (match_parts (parts_back s) n))
        v
        x
        (domain_matches pattern s)
add_pattern-has v x pattern s n =
    let (p, ps, e) = parts_back-cons pattern in
    let (q, qs, f) = parts_back-cons s in
    rw (sym (begins-parts_back pattern s), e, f) (add_root-has v x p ps q qs n)

new_node-has : (x : ℕ) (s : List ℕ) → has x (match_parts (parts_back s) new_node) ≡ false
new_node-has x s =
    let (q, qs, f) = parts_back-cons s in
    rw (f, match_parts-cons q qs new_node) (unfold lookup has in refl)

add-has :
    (v x : ℕ) (pattern s : List ℕ) (g : Option Node)
    → 0 < length s
    → AddsTo
        (has x (match_domain (add pattern v g) s))
        (has x (match_domain g s))
        v
        x
        (domain_matches pattern s)
unfolding match_domain add has
add-has v x pattern [] g h = absurd (omega (arith, h))
add-has v x pattern (c ∷ s) (some root) h = add_pattern-has v x pattern (c ∷ s) root
add-has v x pattern (c ∷ s) none h =
    let from_new = add_pattern-has v x pattern (c ∷ s) new_node in
    from_new ∙ ap (λ b. b || (v == x && domain_matches pattern (c ∷ s))) (new_node-has x (c ∷ s))

add_full-has :
    (v x : ℕ) (pattern s : List ℕ) (g : FullMatcherGroup)
    → AddsTo
        (has x (match_full (add_full pattern v g) s))
        (has x (match_full g s))
        v
        x
        (same_bytes pattern s)
unfolding match_full add_full
add_full-has v x pattern s g = elim (Bool-cases (same_bytes pattern s)) [
  | inl t ↦
      let same : pattern ≡ s = ground (arith, same_bytes_iff pattern s, t) in
      rw (find-insert s pattern (match_full g pattern ++ (v ∷ [])) g, t, sym same)
        (unfold has in ground (arith, has-append x (match_full g pattern) (v ∷ [])))
  | inr f ↦ rw (find-insert s pattern (match_full g pattern ++ (v ∷ [])) g, f) (ground arith)
]

match_others-append :
    (os : List (Matcher × ℕ)) (m : Matcher) (i x : ℕ) (s : List ℕ)
    → AddsTo
        (has x (match_others (os ++ ((m, i) ∷ [])) s))
        (has x (match_others os s))
        i
        x
        (matches m s)
unfolding match_others has
match_others-append [] m i x s = ground arith
match_others-append ((m', j) ∷ os) m i x s = ground (arith, match_others-append os m i x s)

match_group-has :
    (x : ℕ) (g : MatcherGroup) (s : List ℕ)
    → has x (match_group g s) ≡ (
        has x (match_full g.full s)
        || (has x (match_domain g.domain s) || has x (match_others g.others s)))
unfolding match_group
match_group-has x g s =
    has-append x (match_full g.full s) (match_domain g.domain s ++ match_others g.others s)
    ∙ ap (λ b. has x (match_full g.full s) || b)
        (has-append x (match_domain g.domain s) (match_others g.others s))

added-has :
    (x : ℕ) (g : MatcherGroup) (m : Matcher) (s : List ℕ)
    → 0 < length s
    → let g' = add_matcher g m in
      AddsTo
        (has x (match_full g'.full s)
          || (has x (match_domain g'.domain s) || has x (match_others g'.others s)))
        (has x (match_full g.full s)
          || (has x (match_domain g.domain s) || has x (match_others g.others s)))
        (next_id g.count)
        x
        (matches m s)
unfolding add_matcher matches
added-has x g (full_matcher p) s h = ground (arith, add_full-has (next_id g.count) x p s g.full)
added-has x g (domain_matcher p) s h = ground (arith, add-has (next_id g.count) x p s g.domain h)
added-has x g (substr_matcher p) s h =
    ground (arith, match_others-append g.others (substr_matcher p) (next_id g.count) x s)
added-has x g (regex_matcher r) s h =
    ground (arith, match_others-append g.others (regex_matcher r) (next_id g.count) x s)

add_matcher-has :
    (x : ℕ) (g : MatcherGroup) (m : Matcher) (s : List ℕ)
    → 0 < length s
    → AddsTo
        (has x (match_group (add_matcher g m) s))
        (has x (match_group g s))
        (next_id g.count)
        x
        (matches m s)
add_matcher-has x g m s h =
    match_group-has x (add_matcher g m) s
    ∙ added-has x g m s h
    ∙ ap (λ b. b || (next_id g.count == x && matches m s)) (sym (match_group-has x g s))

count-add_matcher : (g : MatcherGroup) (m : Matcher) → (add_matcher g m).count ≡ next_id g.count
unfolding add_matcher
count-add_matcher g (full_matcher p) = refl
count-add_matcher g (domain_matcher p) = refl
count-add_matcher g (substr_matcher p) = refl
count-add_matcher g (regex_matcher r) = refl

or_false : (a : Bool) → a ≡ (a || false)
or_false a = ground arith

or_assoc : (a b c : Bool) → ((a || b) || c) ≡ (a || (b || c))
or_assoc a b c = ground arith

add_all-has :
    (x : ℕ) (g : MatcherGroup) (ms : List Matcher) (s : List ℕ)
    → 0 < length s
    → has x (match_group (add_all g ms) s) ≡ (has x (match_group g s) || one_matches x s g.count ms)
unfolding add_all one_matches
add_all-has x g [] s h = or_false (has x (match_group g s))
add_all-has x g (m ∷ ms) s h =
    let rest = add_all-has x (add_matcher g m) ms s h in
    let here = has x (match_group (add_matcher g m) s) in
    rest
    ∙ ap (λ k. here || one_matches x s k ms) (count-add_matcher g m)
    ∙ ap (λ b. b || one_matches x s (next_id g.count) ms) (add_matcher-has x g m s h)
    ∙ or_assoc (has x (match_group g s)) (next_id g.count == x && matches m s)
        (one_matches x s (next_id g.count) ms)

new_group-has : (x : ℕ) (s : List ℕ) → 0 < length s → has x (match_group new_group s) ≡ false
unfolding match_group match_full match_domain match_others has
new_group-has x [] h = absurd (omega (arith, h))
new_group-has x (c ∷ s) h = unfold find in refl

-- The numbers that a group gives are those of the matchers that match, for every text that is not
-- empty: the tree of domains, the map of full texts and the list of the others together find the
-- matchers that match one by one. The numbers are counted in 32 bits.
pub match_group-add_all :
    (x : ℕ) (ms : List Matcher) (s : List ℕ)
    → 0 < length s
    → has x (match_group (add_all new_group ms) s) ≡ one_matches x s 0 ms
match_group-add_all x ms s h =
    add_all-has x new_group ms s h ∙ ap (λ b. b || one_matches x s 0 ms) (new_group-has x s h)
