-- ===== src/Lru/Put.antt =====
-- What a new entry does to the cache.
use dpi_warrior_native_xray.Base.{
  ℕ, suc, ◌≤◌, ◌<◌, ◌≡◌, refl, inl, inr, none, some, [], ◌∷◌, ◌++◌, arith, ltb, if◌then◌else◌,
  Option-cases, ltb→le, length,
}
use dpi_warrior_native_xray.Base.{Eq, find, erase, get_elem?, if-intro}
use dpi_warrior_native_xray.Lru.{Lru, back, front_part, evict, push_front, put}
use dpi_warrior_native_xray.Lru.Order.{back-mem, length-front_part, back-some}
use dpi_warrior_native_xray.Lru.Sound.{Agrees, IsSound}
use dpi_warrior_native_xray.Lru.PushFront.{push_front-Agrees}
use dpi_warrior_native_xray.Lru.Evict.{evicted-Agrees}

module _ {ℓ} {K V : Type ℓ} ⦃ek : Eq K⦄ ⦃ev : Eq V⦄ where
  pub put_new :
      (l : Lru K V) (k : K) (v : V)
      → find k l.key_to_element ≡ none
      → put l k v
        ≡ (let l' = push_front l k v in if ltb l'.capacity (length l'.order) then evict l' else l')
  unfolding put
  put_new l k v e = rw (e, put) refl

  pub evict-evicted :
      (l : Lru K V) (b : ℕ) (k : K) (v : V)
      → back l.order ≡ some b
      → get_elem? l.elements b ≡ some (k, v)
      → evict l ≡ record l {
        order = front_part l.order;
        key_to_element = erase k l.key_to_element;
        value_to_element = erase v l.value_to_element;
      }
  unfolding evict
  evict-evicted l b k v e g = rw (e, g, evict) refl

  -- One element over the capacity.
  evict-IsSound :
      (l : Lru K V)
      → Agrees l
      → 0 < length l.order
      → length l.order ≤ suc l.capacity
      → IsSound (evict l)
  evict-IsSound l a some_left over =
      let (b, last) = back-some l.order some_left in
      let (k, v, g, fk, fv) = a.listed b (back-mem l.order b last) in
      rw (evict-evicted l b k v last g) (record {
        agrees = evicted-Agrees l a b k v last g;
        bounded = omega (arith, over, length-front_part l.order b last);
      })

  evict-keeps :
      (l : Lru K V) → ((evict l).capacity ≡ l.capacity) × ((evict l).elements ≡ l.elements)
  unfolding evict
  evict-keeps l = elim (Option-cases (back l.order)) [
    | inl e ↦ rw (e, evict) (refl, refl)
    | inr (b, e) ↦ elim (Option-cases (get_elem? l.elements b)) [
      | inl g ↦ rw (e, g, evict) (refl, refl)
      | inr (p, g) ↦ rw (e, g, evict) (refl, refl)
    ]
  ]

  -- A new entry keeps the capacity, and is the one element more.
  pub put-keeps :
      (l : Lru K V) (k : K) (v : V)
      → find k l.key_to_element ≡ none
      → ((put l k v).capacity ≡ l.capacity) × ((put l k v).elements ≡ l.elements ++ ((k, v) ∷ []))
  unfolding push_front
  put-keeps l k v e =
      let l' = push_front l k v in
      let Kept : Lru K V → Type ℓ =
        λ m. (m.capacity ≡ l.capacity) × (m.elements ≡ l.elements ++ ((k, v) ∷ [])) in
      rw (put_new l k v e) (
        if-intro Kept (ltb l'.capacity (length l'.order)) (evict l') l' (λ over. evict-keeps l')
          (λ fits. (refl, refl)))

  -- A new entry keeps the invariant: the maps and the list agree, and there are as many elements as the
  -- capacity at most. Assumed is that the cache has neither the key nor the value.
  pub put-IsSound :
      (l : Lru K V) (k : K) (v : V)
      → IsSound l
      → find k l.key_to_element ≡ none
      → find v l.value_to_element ≡ none
      → IsSound (put l k v)
  put-IsSound l k v s nk nv =
      let l' = push_front l k v in
      let a : Agrees l' = push_front-Agrees l k v s.agrees nk nv in
      let n : length l'.order ≡ suc (length l.order) = unfold push_front in refl in
      let c : l'.capacity ≡ l.capacity = unfold push_front in refl in
      rw (put_new l k v nk) (
        if-intro IsSound (ltb l'.capacity (length l'.order)) (evict l') l'
          (λ over. evict-IsSound l' a (omega (arith, n)) (omega (arith, n, c, s.bounded)))
          (λ fits. record { agrees = a; bounded = ltb→le l'.capacity (length l'.order) fits }))
