-- ===== src/Lru/Evict.antt =====
-- The element at the back leaves.
use dpi_warrior_native_xray.Base.{ℕ, ◌≡◌, sym, ap, ◌∙◌, ◌≢◌, true, none, some, arith}
use dpi_warrior_native_xray.Base.{
  Eq, find, erase, get_elem?, some-injective, length-erase-lt, found-erase, find-erase_old,
}
use dpi_warrior_native_xray.Lru.{Lru, mem, back, front_part}
use dpi_warrior_native_xray.Lru.Order.{
  back-mem, mem-front_part, front_part-Distinct, length-front_part,
}
use dpi_warrior_native_xray.Lru.Sound.{Agrees}

module _ {ℓ} {K V : Type ℓ} ⦃ek : Eq K⦄ ⦃ev : Eq V⦄ where
  -- The element at the back, and what is left without it.
  module _ (l : Lru K V) (a : Agrees l) (b : ℕ) (k0 : K) (v0 : V) (last : back l.order ≡ some b)
      (at_back : get_elem? l.elements b ≡ some (k0, v0)) where
    abbrev pub evicted : Lru K V
    evicted = record l {
      order = front_part l.order;
      key_to_element = erase k0 l.key_to_element;
      value_to_element = erase v0 l.value_to_element;
    }

    at_back_found : (find k0 l.key_to_element ≡ some b) × (find v0 l.value_to_element ≡ some b)
    at_back_found =
        let (k, v, g, fk, fv) = a.listed b (back-mem l.order b last) in
        let e = some-injective (sym g ∙ at_back) in
        (
          ap (λ x. find x l.key_to_element) (sym (ap (λ p. p.0) e)) ∙ fk,
          ap (λ x. find x l.value_to_element) (sym (ap (λ p. p.1) e)) ∙ fv,
        )

    still_mem : (i : ℕ) → b ≢ i → mem i l.order ≡ true → mem i (front_part l.order) ≡ true
    still_mem i other m = ground (arith, mem-front_part i b l.order a.distinct last, other, m)

    was_mem : (i : ℕ) → mem i (front_part l.order) ≡ true → (b ≢ i) × (mem i l.order ≡ true)
    was_mem i m = ground (arith, mem-front_part i b l.order a.distinct last, m)

    evicted-keyed :
        (k : K) (i : ℕ)
        → find k (erase k0 l.key_to_element) ≡ some i
        → (mem i (front_part l.order) ≡ true) × ((v : V) × (get_elem? l.elements i ≡ some (k, v)))
    evicted-keyed k i f =
        let (other, f') = found-erase k0 k i l.key_to_element f in
        let (m, (v, g)) = a.keyed k i f' in
        let apart : b ≢ i = λ q.
          other (ap (λ p. p.0) (some-injective (sym at_back ∙ ap (get_elem? l.elements) q ∙ g))) in
        (still_mem i apart m, (v, g))

    evicted-valued :
        (v : V) (i : ℕ)
        → find v (erase v0 l.value_to_element) ≡ some i
        → (mem i (front_part l.order) ≡ true) × ((k : K) × (get_elem? l.elements i ≡ some (k, v)))
    evicted-valued v i f =
        let (other, f') = found-erase v0 v i l.value_to_element f in
        let (m, (k, g)) = a.valued v i f' in
        let apart : b ≢ i = λ q.
          other (ap (λ p. p.1) (some-injective (sym at_back ∙ ap (get_elem? l.elements) q ∙ g))) in
        (still_mem i apart m, (k, g))

    evicted-listed :
        (i : ℕ)
        → mem i (front_part l.order) ≡ true
        → (k : K) × (v : V) × (get_elem? l.elements i ≡ some (k, v))
          × (find k (erase k0 l.key_to_element) ≡ some i)
          × (find v (erase v0 l.value_to_element) ≡ some i)
    evicted-listed i m =
        let (apart, there) = was_mem i m in
        let (k, v, g, fk, fv) = a.listed i there in
        let (f0, g0) = at_back_found in
        let other_k : k0 ≢ k =
          λ q. apart (some-injective (sym f0 ∙ ap (λ x. find x l.key_to_element) q ∙ fk)) in
        let other_v : v0 ≢ v =
          λ q. apart (some-injective (sym g0 ∙ ap (λ x. find x l.value_to_element) q ∙ fv)) in
        (
          k,
          v,
          g,
          find-erase_old k0 k i l.key_to_element other_k fk,
          find-erase_old v0 v i l.value_to_element other_v fv,
        )

    pub evicted-Agrees : Agrees evicted
    evicted-Agrees =
        let there : find v0 l.value_to_element ≢ none = λ q. ground (arith, q, at_back_found.1) in
        record {
          keyed = evicted-keyed;
          valued = evicted-valued;
          listed = evicted-listed;
          distinct = front_part-Distinct l.order b a.distinct last;
          enough = omega (
            arith,
            a.enough,
            length-erase-lt v0 l.value_to_element there,
            length-front_part l.order b last,
          );
        }
