-- ===== src/Strmatcher.antt =====
-- common/strmatcher: groups of patterns that a domain is matched with. Texts are bytes.
-- The map of a node to the nodes below it is a list without repetitions.
pub mod Trie
pub mod Labels
pub mod Group
mod Tests
use mathlib.Core.List.{reverse}
use dpi_warrior_native_xray.Base.{
  ℕ, ◌-◌, Bool, true, false, not, ◌&&◌, ◌||◌, Option, none, some, List, [], ◌∷◌, ◌++◌, map, leb,
  ◌==◌, if◌then◌else◌, length, drop, same_bytes, get_elem?, find, insert, bytes_eq, ◌+◌, ◌%◌, ◌^◌,
}

-- `domainMatcher.Match`: the pattern, or a domain below it.
unfoldable pub has_suffix : List ℕ → List ℕ → Bool
has_suffix s pattern =
    leb (length pattern) (length s) && same_bytes (drop (length s - length pattern) s) pattern

abbrev pub is_dot : Option ℕ → Bool
is_dot none = false
is_dot (some c) = c == b'.'

unfoldable pub domain_matches : List ℕ → List ℕ → Bool
unfolding has_suffix
domain_matches pattern s =
    if not (has_suffix s pattern)
    then false
    else (length s == length pattern) || is_dot (get_elem? s (length s - length pattern - 1))

-- The part before the first dot, and the parts after it.
unfoldable pub split : List ℕ → List ℕ × List (List ℕ)
split [] = ([], [])
split (c ∷ s) =
    let (part, parts) = split s in if c == b'.' then ([], part ∷ parts) else (c ∷ part, parts)

-- The parts between the dots, from the last to the first: `breakDomain` from its end, and the parts that
-- `nextPart` finds.
unfoldable pub parts_back : List ℕ → List (List ℕ)
unfolding split
parts_back s = let (part, parts) = split (reverse s) in map reverse (part ∷ parts)

mutual
  pub data Node : Type 0 where
    node : List ℕ → Subs → Node

  pub data Subs : Type 0 where
    no_subs : Subs
    sub : List ℕ → Node → Subs → Subs

abbrev pub values : Node → List ℕ
values (node vs subs) = vs

abbrev pub subs_of : Node → Subs
subs_of (node vs subs) = subs

abbrev pub new_node : Node
new_node = node [] no_subs

-- The nodes that `Add` makes where there are none.
unfoldable pub new_path : List (List ℕ) → ℕ → Node
new_path [] value = node (value ∷ []) no_subs
new_path (p ∷ ps) value = node [] (sub p (new_path ps value) no_subs)

-- The walk of `Add`.
unfoldable mutual
  pub add_parts : List (List ℕ) → ℕ → Node → Node
  add_parts [] value (node vs subs) = node (vs ++ (value ∷ [])) subs
  add_parts (p ∷ ps) value (node vs subs) = node vs (add_sub p ps value subs)

  pub add_sub : List ℕ → List (List ℕ) → ℕ → Subs → Subs
  add_sub p ps value no_subs = sub p (new_path ps value) no_subs
  add_sub p ps value (sub q n subs) =
      let here = add_parts ps value n in
      let rest = add_sub p ps value subs in if same_bytes q p then sub q here subs else sub q n rest

-- `DomainMatcherGroup.Add`; the root is made with the first pattern.
unfoldable pub add : List ℕ → ℕ → Option Node → Option Node
add domain value none = some (add_parts (parts_back domain) value new_node)
add domain value (some root) = some (add_parts (parts_back domain) value root)

unfoldable pub lookup : List ℕ → Subs → Option Node
lookup p no_subs = none
lookup p (sub q n subs) = let rest = lookup p subs in if same_bytes q p then some n else rest

-- The values of the nodes on the way, those furthest from the root first.
unfoldable pub match_parts : List (List ℕ) → Node → List ℕ
match_parts [] n = []
match_parts (p ∷ ps) n = elim (lookup p (subs_of n)) [
  | none ↦ []
  | some next ↦ match_parts ps next ++ values next
]

-- `DomainMatcherGroup.Match`.
unfoldable pub match_domain : Option Node → List ℕ → List ℕ
match_domain g [] = []
match_domain none (c ∷ s) = []
match_domain (some root) (c ∷ s) = match_parts (parts_back (c ∷ s)) root

-- `FullMatcherGroup`, a map from texts to the values that were added with them.
abbrev pub FullMatcherGroup : Type 0
FullMatcherGroup = List (List ℕ × List ℕ)

abbrev pub values_of : Option (List ℕ) → List ℕ
values_of none = []
values_of (some vs) = vs

unfoldable pub match_full : FullMatcherGroup → List ℕ → List ℕ
match_full g s = values_of (find s g)

unfoldable pub add_full : List ℕ → ℕ → FullMatcherGroup → FullMatcherGroup
unfolding match_full
add_full domain value g = insert domain (match_full g domain ++ (value ∷ [])) g

-- strings.HasPrefix and strings.Contains.
unfoldable pub has_prefix : List ℕ → List ℕ → Bool
has_prefix s [] = true
has_prefix [] (c ∷ pattern) = false
has_prefix (d ∷ s) (c ∷ pattern) = d == c && has_prefix s pattern

unfoldable pub contains : List ℕ → List ℕ → Bool
unfolding has_prefix
contains [] pattern = has_prefix [] pattern
contains (d ∷ s) pattern = has_prefix (d ∷ s) pattern || contains s pattern

-- The four kinds of matchers; a regular expression is what it matches, since regexp is another package.
pub data Matcher : Type 0 where
  full_matcher : List ℕ → Matcher
  substr_matcher : List ℕ → Matcher
  domain_matcher : List ℕ → Matcher
  regex_matcher : (List ℕ → Bool) → Matcher

unfoldable pub matches : Matcher → List ℕ → Bool
unfolding domain_matches contains
matches (full_matcher pattern) s = same_bytes pattern s
matches (substr_matcher pattern) s = contains s pattern
matches (domain_matcher pattern) s = domain_matches pattern s
matches (regex_matcher match_string) s = match_string s

pub record MatcherGroup : Type 0 where
  pub count : ℕ
  pub full : FullMatcherGroup
  pub domain : Option Node
  pub others : List (Matcher × ℕ)

abbrev pub new_group : MatcherGroup
new_group = record { count = 0; full = []; domain = none; others = [] }

abbrev pub next_id : ℕ → ℕ
next_id count = (count + 1) % 2 ^ 32

-- `MatcherGroup.Add`, for each kind.
unfoldable pub add_matcher : MatcherGroup → Matcher → MatcherGroup
add_matcher g (full_matcher pattern) = record g {
  count = next_id g.count;
  full = add_full pattern (next_id g.count) g.full;
}
add_matcher g (domain_matcher pattern) = record g {
  count = next_id g.count;
  domain = add pattern (next_id g.count) g.domain;
}
add_matcher g (substr_matcher pattern) = record g {
  count = next_id g.count;
  others = g.others ++ ((substr_matcher pattern, next_id g.count) ∷ []);
}
add_matcher g (regex_matcher match_string) = record g {
  count = next_id g.count;
  others = g.others ++ ((regex_matcher match_string, next_id g.count) ∷ []);
}

unfoldable pub match_others : List (Matcher × ℕ) → List ℕ → List ℕ
match_others [] s = []
match_others ((m, i) ∷ others) s =
    let rest = match_others others s in if matches m s then i ∷ rest else rest

-- `MatcherGroup.Match`.
unfoldable pub match_group : MatcherGroup → List ℕ → List ℕ
match_group g s = match_full g.full s ++ (match_domain g.domain s ++ match_others g.others s)
