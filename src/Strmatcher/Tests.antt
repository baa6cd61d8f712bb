-- ===== src/Strmatcher/Tests.antt =====
-- A group of matchers, and the theorem at it.
use dpi_warrior_native_xray.Base.{
  ℕ, ◌≡◌, refl, List, [], ◌∷◌, arith, find, insert, erase, same_bytes,
}
use dpi_warrior_native_xray.Strmatcher.{
  Matcher, full_matcher, substr_matcher, domain_matcher, new_group, match_group, add_matcher,
  match_full, add_full, match_domain, add, add_parts, parts_back, split, lookup, match_parts,
  new_path, match_others, matches, domain_matches, has_suffix, contains, has_prefix,
}
use dpi_warrior_native_xray.Strmatcher.Trie.{has}
use dpi_warrior_native_xray.Strmatcher.Group.{add_all, one_matches, match_group-add_all}

abbrev a_b : List ℕ
a_b = b'a' ∷ b'.' ∷ b'b' ∷ []

-- b, ab, a.b twice, and what has a dot and an a.
abbrev some_matchers : List Matcher
some_matchers =
    domain_matcher (b'b' ∷ [])
    ∷ domain_matcher (b'a' ∷ b'b' ∷ [])
    ∷ domain_matcher a_b
    ∷ full_matcher a_b
    ∷ substr_matcher (b'.' ∷ b'a' ∷ [])
    ∷ []

-- The full matcher comes first, and the longer domain before the shorter one.
match_some : match_group (add_all new_group some_matchers) a_b ≡ 4 ∷ 3 ∷ 1 ∷ []
unfolding add_all match_group add_matcher match_full add_full match_domain add add_parts parts_back
    split lookup match_parts new_path match_others matches domain_matches has_suffix contains
    has_prefix find insert erase same_bytes
match_some = refl

match_group-add_all_example :
    has 3 (match_group (add_all new_group some_matchers) a_b) ≡ one_matches 3 a_b 0 some_matchers
match_group-add_all_example = match_group-add_all 3 some_matchers a_b (omega arith)
