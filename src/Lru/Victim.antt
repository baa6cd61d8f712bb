-- ===== src/Lru/Victim.antt =====
-- The element that a new entry drives out, and that a lookup keeps from leaving.
use dpi_warrior_native_xray.Base.{
  ℕ, zero, suc, ◌≤◌, ◌<◌, ◌≡◌, refl, sym, ap, ◌∙◌, Option, none, some, List, [], ◌∷◌, arith, ltb,
  if◌then◌else◌, ltb→lt, ltb→le, length, take, take-all,
}
use dpi_warrior_native_xray.Base.{
  Eq, find, get_elem?, get_elem?-append, find-erase, some-injective, if-intro,
}
use dpi_warrior_native_xray.Lru.{
  Lru, without, move_to_front, back, front_part, use_element, get, get_key_from_value, evict,
  push_front, put,
}
use dpi_warrior_native_xray.Lru.Order.{back-mem, back-some, back-cons}
use dpi_warrior_native_xray.Lru.Sound.{Agrees, IsSound}
use dpi_warrior_native_xray.Lru.Put.{put_new, evict-evicted}

take-front_part :
    (l : List ℕ) (b n : ℕ) → back l ≡ some b → length l ≡ suc n → front_part l ≡ take n l
unfolding front_part back
take-front_part [] b n e h = absurd (omega arith)
take-front_part (k ∷ []) b zero e h = refl
take-front_part (k ∷ []) b (suc n) e h = absurd (omega arith)
take-front_part (k ∷ j ∷ l) b zero e h = absurd (omega arith)
take-front_part (k ∷ j ∷ l) b (suc n) e h = ap (◌∷◌ k) (take-front_part (j ∷ l) b n e (omega arith))

module _ {ℓ} {K V : Type ℓ} ⦃ek : Eq K⦄ ⦃ev : Eq V⦄ where
  -- The element at the back of the list, if the cache is full.
  abbrev pub victim : Lru K V → Option ℕ
  victim l = if ltb (length l.order) l.capacity then none else back l.order

  -- How a new entry leaves the list, and the maps at the entry that it drives out.
  pub record Leaves (l l' : Lru K V) : Type ℓ where
    pub order : l'.order ≡ take l.capacity (length l.elements ∷ l.order)
    pub no_key :
        (x : K) (i : ℕ)
        → victim l ≡ some i
        → find x l.key_to_element ≡ some i
        → find x l'.key_to_element ≡ none
    pub no_value :
        (u : V) (i : ℕ)
        → victim l ≡ some i
        → find u l.value_to_element ≡ some i
        → find u l'.value_to_element ≡ none

  push_front-Leaves :
      (l : Lru K V) (k : K) (v : V)
      → suc (length l.order) ≤ l.capacity
      → Leaves l (push_front l k v)
  unfolding push_front
  push_front-Leaves l k v fits = record {
    order = sym (take-all l.capacity (length l.elements ∷ l.order) (omega (arith, fits)));
    no_key = λ x i vic f. absurd (ground (arith, vic, fits));
    no_value = λ x i vic f. absurd (ground (arith, vic, fits));
  }

  evict-Leaves :
      (l : Lru K V) (k : K) (v : V)
      → Agrees l
      → 0 < l.capacity
      → length l.order ≡ l.capacity
      → Leaves l (evict (push_front l k v))
  evict-Leaves l k v a pos full =
      let l' = push_front l k v in
      let (b, last) = back-some l.order (omega arith) in
      let (k0, v0, g, fk, fv) = a.listed b (back-mem l.order b last) in
      let last' : back (length l.elements ∷ l.order) ≡ some b =
        back-cons (length l.elements) l.order b last in
      let g' : get_elem? l'.elements b ≡ some (k0, v0) =
        unfold push_front in get_elem?-append l.elements ((k, v) ∷ []) b (k0, v0) g in
      let gone : victim l ≡ some b = ground (arith, full, last) in
      rw (evict-evicted l' b k0 v0 (unfold push_front in last') g') (record {
        order =
            unfold push_front in
            take-front_part (length l.elements ∷ l.order) b l.capacity last' (omega (arith, full));
        no_key = λ x i vic f.
            let at : i ≡ b = some-injective (sym vic ∙ gone) in
            let (m, (u, here)) = a.keyed x i f in
            let same : k0 ≡ x =
              ap (λ q. q.0)
                (some-injective (sym g ∙ ap (λ j. get_elem? l.elements j) (sym at) ∙ here)) in
            ground (arith, find-erase x k0 l'.key_to_element, ek.beq_iff k0 x, same);
        no_value = λ x i vic f.
            let at : i ≡ b = some-injective (sym vic ∙ gone) in
            let (m, (u, here)) = a.valued x i f in
            let same : v0 ≡ x =
              ap (λ q. q.1)
                (some-injective (sym g ∙ ap (λ j. get_elem? l.elements j) (sym at) ∙ here)) in
            ground (arith, find-erase x v0 l'.value_to_element, ev.beq_iff v0 x, same);
      })

  pub put-Leaves :
      (l : Lru K V) (k : K) (v : V)
      → IsSound l
      → find k l.key_to_element ≡ none
      → 0 < l.capacity
      → Leaves l (put l k v)
  put-Leaves l k v s nk pos =
      let l' = push_front l k v in
      let n : length l'.order ≡ suc (length l.order) = unfold push_front in refl in
      let c : l'.capacity ≡ l.capacity = unfold push_front in refl in
      rw (put_new l k v nk) (
        if-intro (λ m. Leaves l m) (ltb l'.capacity (length l'.order)) (evict l') l'
          (λ over.
            evict-Leaves l k v s.agrees pos
              (omega (arith, n, c, s.bounded, ltb→lt l'.capacity (length l'.order) over)))
          (λ fits.
            push_front-Leaves l k v
              (omega (arith, n, c, ltb→le l'.capacity (length l'.order) fits))))

  pub get-gone : (l : Lru K V) (k : K) → find k l.key_to_element ≡ none → (get l k).1 ≡ none
  unfolding get use_element
  get-gone l k f = rw (f, get, use_element) refl

  pub get_key-gone :
      (l : Lru K V) (v : V) → find v l.value_to_element ≡ none → (get_key_from_value l v).1 ≡ none
  unfolding get_key_from_value use_element
  get_key-gone l v f = rw (f, get_key_from_value, use_element) refl

  -- A lookup brings the element to the front.
  pub order-get :
      (l : Lru K V) (k : K) (i : ℕ)
      → Agrees l
      → find k l.key_to_element ≡ some i
      → (get l k).0.order ≡ i ∷ without i l.order
  unfolding get use_element move_to_front
  order-get l k i a f =
      let (m, r) = a.keyed k i f in rw (f, get, use_element) (rw (m, move_to_front) refl)
