-- ===== src/Lru/Sound.antt =====
-- What every call of the cache keeps.
use dpi_warrior_native_xray.Base.{ℕ, ◌≤◌, ◌≡◌, sym, ◌∙◌, true, Option, none, some, arith, length}
use dpi_warrior_native_xray.Base.{Eq, find, get_elem?}
use dpi_warrior_native_xray.Lru.{Lru, new_lru, mem, use_element}
use dpi_warrior_native_xray.Lru.Order.{
  Distinct, mem-move_to_front, move_to_front-Distinct, length-move_to_front,
}

module _ {ℓ} {K V : Type ℓ} ⦃ek : Eq K⦄ ⦃ev : Eq V⦄ where
  -- The two maps and the list hold the same elements: what a map has of a key or of a value is in the
  -- list, and each element of the list is found by its key and by its value.
  pub record Agrees (l : Lru K V) : Type ℓ where
    pub keyed :
        (k : K) (i : ℕ)
        → find k l.key_to_element ≡ some i
        → (mem i l.order ≡ true) × ((v : V) × (get_elem? l.elements i ≡ some (k, v)))
    pub valued :
        (v : V) (i : ℕ)
        → find v l.value_to_element ≡ some i
        → (mem i l.order ≡ true) × ((k : K) × (get_elem? l.elements i ≡ some (k, v)))
    pub listed :
        (i : ℕ)
        → mem i l.order ≡ true
        → (k : K) × (v : V) × (get_elem? l.elements i ≡ some (k, v))
          × (find k l.key_to_element ≡ some i)
          × (find v l.value_to_element ≡ some i)
    pub distinct : Distinct l.order
    pub enough : length l.value_to_element ≤ length l.order

  pub record IsSound (l : Lru K V) : Type ℓ where
    pub agrees : Agrees l
    pub bounded : length l.order ≤ l.capacity

  pub use_element-IsSound : (l : Lru K V) (o : Option ℕ) → IsSound l → IsSound (use_element l o).0
  unfolding use_element
  use_element-IsSound l none s = s
  use_element-IsSound l (some j) s =
      let a = s.agrees in
      let same = λ (i : ℕ). mem-move_to_front i j l.order a.distinct in
      let n = length-move_to_front j l.order in
      record {
        agrees = record {
          keyed = λ k i e. let (m, r) = a.keyed k i e in (same i ∙ m, r);
          valued = λ v i e. let (m, r) = a.valued v i e in (same i ∙ m, r);
          listed = λ i m. a.listed i (sym (same i) ∙ m);
          distinct = move_to_front-Distinct j l.order a.distinct;
          enough = omega (arith, n, a.enough);
        };
        bounded = omega (arith, n, s.bounded);
      }

  pub new_lru-IsSound : (cap : ℕ) → IsSound (new_lru {K = K} {V = V} cap)
  unfolding new_lru mem find
  new_lru-IsSound cap = record {
    agrees = record {
      keyed = λ k i e. absurd (ground (arith, e));
      valued = λ v i e. absurd (ground (arith, e));
      listed = λ i m. absurd (ground (arith, m));
      distinct = tt;
      enough = omega arith;
    };
    bounded = omega arith;
  }
