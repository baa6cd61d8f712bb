-- ===== src/Kcp/Receiving/Split.antt =====
-- The bytes of a MultiBuffer, and cutting them in two.
use dpi_warrior_native_xray.Base.{
  ℕ, ◌-◌, min, ◌≡◌, refl, sym, ap, ◌∙◌, inl, inr, true, List, [], ◌∷◌, ◌++◌, append_assoc, arith,
  leb, ◌==◌, Bool-cases, length, take, drop, length-append, length-take, eq_nil, take-append-drop,
}
use dpi_warrior_native_xray.Kcp.Receiving.{is_empty_multi, split_bytes}

abbrev pub flatten : List (List ℕ) → List ℕ
flatten [] = []
flatten (b ∷ mb) = b ++ flatten mb

flatten-append : (xs ys : List (List ℕ)) → flatten (xs ++ ys) ≡ flatten xs ++ flatten ys
flatten-append [] ys = refl
flatten-append (x ∷ xs) ys =
    rw (flatten-append xs ys) (sym (append_assoc x (flatten xs) (flatten ys)))

-- `SplitBytes` cuts the bytes of a MultiBuffer in two, and takes no more than it is asked for.
pub split_bytes_lem :
    (mb : List (List ℕ)) (n : ℕ)
    → ((split_bytes mb n).1 ++ flatten (split_bytes mb n).0 ≡ flatten mb)
      × (length (split_bytes mb n).1 ≡ min n (length (flatten mb)))
unfolding split_bytes
split_bytes_lem [] n = (refl, omega arith)
split_bytes_lem (b ∷ mb) n =
    let (f, l) = split_bytes_lem mb (n - length b) in
    let s = length-append b (flatten mb) in
    elim (Bool-cases (leb (length b) n)) [
      | inl all ↦ rw all (
        append_assoc b _ _ ∙ ap (◌++◌ b) f,
        ground (arith, length-append b (split_bytes mb (n - length b)).1, l, s),
      )
      | inr part ↦ rw part (
        sym (append_assoc (take n b) (drop n b) (flatten mb))
            ∙ ap (λ c. c ++ flatten mb) (take-append-drop n b),
        ground (arith, length-take n b, s),
      )
    ]

pub is_empty_multi_lem : (mb : List (List ℕ)) → is_empty_multi mb ≡ true → flatten mb ≡ []
unfolding is_empty_multi
is_empty_multi_lem [] e = refl
is_empty_multi_lem (b ∷ mb) e = elim (Bool-cases (length b == 0)) [
  | inl z ↦ rw (eq_nil b (ground arith)) (is_empty_multi_lem mb (rw z at e))
  | inr z ↦ absurd (cc (rw z at e))
]
