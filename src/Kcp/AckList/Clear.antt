-- ===== src/Kcp/AckList/Clear.antt =====
-- Which acknowledgements the peer's own progress retires.
use mathlib.Core.List.{filter}
use native.Mathlib.Decide.{dec_le}
use dpi_warrior_native_xray.Base.{
  ℕ, ◌≤◌, ◌≡◌, refl, sym, ap, ◌∙◌, inl, inr, List, [], ◌∷◌, arith, ltb, Bool-cases, length,
}
use dpi_warrior_native_xray.Kcp.AckList.{AckEntry, AckList, keep_from, clear}

length-keep_from-le : (una : ℕ) (es : List AckEntry) → length (keep_from una es) ≤ length es
unfolding keep_from
length-keep_from-le una [] = omega arith
length-keep_from-le una (e ∷ es) = ground (arith, length-keep_from-le una es)

keep_from_all :
    (una : ℕ) (es : List AckEntry) → length es ≤ length (keep_from una es) → keep_from una es ≡ es
unfolding keep_from
keep_from_all una [] h = refl
keep_from_all una (e ∷ es) h = elim (Bool-cases (ltb e.number una)) [
  | inl old ↦ absurd (let h' = rw old at h in omega (arith, length-keep_from-le una es))
  | inr kept ↦ let h' = rw kept at h in rw kept (ap (◌∷◌ e) (keep_from_all una es (omega arith)))
]

-- The entries whose numbers are not below `una`, in order.
abbrev pub not_below : ℕ → List AckEntry → List AckEntry
not_below una es = filter (λ e. dec_le una e.number) es

keep_from-not_below : (una : ℕ) (es : List AckEntry) → keep_from una es ≡ not_below una es
unfolding keep_from
keep_from-not_below una [] = refl
keep_from-not_below una (e ∷ es) = ground (arith, keep_from-not_below una es)

-- Whether or not anything is cut off, `Clear` leaves those.
pub entries-clear : (l : AckList) (una : ℕ) → (clear l una).entries ≡ not_below una l.entries
unfolding clear
entries-clear l una =
    elim (Bool-cases (ltb (length (keep_from una l.entries)) (length l.entries))) [
      | inl less ↦ rw less (keep_from-not_below una l.entries)
      | inr same ↦
          rw same
            (sym (keep_from_all una l.entries (ground arith)) ∙ keep_from-not_below una l.entries)
    ]
