-- ===== src/Lru/Remembers.antt =====
-- What can be read of the cache after a new entry.
use dpi_warrior_native_xray.Base.{
  ℕ, suc, ◌≤◌, ◌<◌, ◌≡◌, refl, sym, ap, ◌∙◌, ◌≢◌, inl, inr, none, some, [], ◌∷◌, ◌++◌, arith, ltb,
  Option-cases, ltb→lt, length, take,
}
use dpi_warrior_native_xray.Base.{
  Eq, find, get_elem?, find-erase, find-insert, get_elem?-append, get_elem?-last, find-insert_self,
  find-insert_old, find-insert, if-intro, find-erase_old,
}
use dpi_warrior_native_xray.Lru.{
  Lru, without, back, use_element, get, get_key_from_value, evict, push_front, put,
}
use dpi_warrior_native_xray.Lru.Order.{back-mem, back-some, back-cons}
use dpi_warrior_native_xray.Lru.Sound.{Agrees, IsSound}
use dpi_warrior_native_xray.Lru.Put.{put_new, evict-evicted}
use dpi_warrior_native_xray.Lru.Victim.{victim, put-Leaves, get-gone, get_key-gone, order-get}

module _ {ℓ} {K V : Type ℓ} ⦃ek : Eq K⦄ ⦃ev : Eq V⦄ where
  pub get-found :
      (l : Lru K V) (k : K) (i : ℕ) (v : V)
      → find k l.key_to_element ≡ some i
      → get_elem? l.elements i ≡ some (k, v)
      → (get l k).1 ≡ some v
  unfolding get use_element
  get-found l k i v f g = rw (f, g, get, use_element) refl

  pub get_key-found :
      (l : Lru K V) (k : K) (i : ℕ) (v : V)
      → find v l.value_to_element ≡ some i
      → get_elem? l.elements i ≡ some (k, v)
      → (get_key_from_value l v).1 ≡ some k
  unfolding get_key_from_value use_element
  get_key-found l k i v f g = rw (f, g, get_key_from_value, use_element) refl

  -- How a new entry leaves the cache: the elements, the new entry, the older ones that stay, and that
  -- none is added.
  pub record Replaced (l l' : Lru K V) (k : K) (v : V) : Type ℓ where
    pub grown : l'.elements ≡ l.elements ++ ((k, v) ∷ [])
    pub new_key : find k l'.key_to_element ≡ some (length l.elements)
    pub new_value : find v l'.value_to_element ≡ some (length l.elements)
    pub old_key :
        (x : K) (i : ℕ)
        → x ≢ k
        → victim l ≢ some i
        → find x l.key_to_element ≡ some i
        → find x l'.key_to_element ≡ some i
    pub no_key : (x : K) → x ≢ k → find x l.key_to_element ≡ none → find x l'.key_to_element ≡ none

  push_front-Replaced :
      (l : Lru K V) (k : K) (v : V)
      → find k l.key_to_element ≡ none
      → Replaced l (push_front l k v) k v
  unfolding push_front
  push_front-Replaced l k v nk = record {
    grown = refl;
    new_key = find-insert_self k (length l.elements) l.key_to_element;
    new_value = find-insert_self v (length l.elements) l.value_to_element;
    old_key = λ x i other kept f. find-insert_old k x (length l.elements) i l.key_to_element nk f;
    no_key = λ x other f.
        ground
          (arith, ek.beq_iff k x, find-insert x k (length l.elements) l.key_to_element, f, other);
  }

  -- Of a full cache the element at the back leaves, which is not the new one.
  evict-Replaced :
      (l : Lru K V) (k : K) (v : V)
      → Agrees l
      → find k l.key_to_element ≡ none
      → find v l.value_to_element ≡ none
      → 0 < l.capacity
      → l.capacity ≤ length l.order
      → Replaced l (evict (push_front l k v)) k v
  evict-Replaced l k v a nk nv pos full =
      let l' = push_front l k v in
      let r = push_front-Replaced l k v nk in
      let (b, last) = back-some l.order (omega arith) in
      let (k0, v0, g, fk, fv) = a.listed b (back-mem l.order b last) in
      let last' : back l'.order ≡ some b =
        unfold push_front in back-cons (length l.elements) l.order b last in
      let g' : get_elem? l'.elements b ≡ some (k0, v0) =
        unfold push_front in get_elem?-append l.elements ((k, v) ∷ []) b (k0, v0) g in
      let gone : victim l ≡ some b = ground (arith, full, last) in
      let k_stays : k0 ≢ k = λ q. ground (arith, nk, ap (λ x. find x l.key_to_element) q, fk) in
      let v_stays : v0 ≢ v = λ q. ground (arith, nv, ap (λ x. find x l.value_to_element) q, fv) in
      rw (evict-evicted l' b k0 v0 last' g') (record {
        grown = r.grown;
        new_key = find-erase_old k0 k (length l.elements) l'.key_to_element k_stays r.new_key;
        new_value = find-erase_old v0 v (length l.elements) l'.value_to_element v_stays r.new_value;
        old_key = λ x i other kept f.
            find-erase_old k0 x i l'.key_to_element
              (λ q. kept (gone ∙ sym fk ∙ ap (λ y. find y l.key_to_element) q ∙ f))
              (r.old_key x i other kept f);
        no_key = λ x other f. ground (arith, find-erase x k0 l'.key_to_element, r.no_key x other f);
      })

  put-Replaced :
      (l : Lru K V) (k : K) (v : V)
      → Agrees l
      → find k l.key_to_element ≡ none
      → find v l.value_to_element ≡ none
      → 0 < l.capacity
      → Replaced l (put l k v) k v
  put-Replaced l k v a nk nv pos =
      let l' = push_front l k v in
      let n : length l'.order ≡ suc (length l.order) = unfold push_front in refl in
      let c : l'.capacity ≡ l.capacity = unfold push_front in refl in
      rw (put_new l k v nk) (
        if-intro (λ m. Replaced l m k v) (ltb l'.capacity (length l'.order)) (evict l') l'
          (λ over.
            evict-Replaced l k v a nk nv pos
              (omega (arith, n, c, ltb→lt l'.capacity (length l'.order) over)))
          (λ fits. push_front-Replaced l k v nk))

  -- The value of a key, before and after.
  abbrev KeepsValue : Lru K V → Lru K V → K → Type ℓ
  KeepsValue l l' x = (get l' x).1 ≡ (get l x).1

  Replaced-KeepsValue :
      (l l' : Lru K V) (k : K) (v : V) (x : K)
      → Agrees l
      → Replaced l l' k v
      → x ≢ k
      → ((i : ℕ) → victim l ≡ some i → find x l.key_to_element ≢ some i)
      → KeepsValue l l' x
  Replaced-KeepsValue l l' k v x a r other kept = elim (Option-cases (find x l.key_to_element)) [
    | inl absent ↦ get-gone l' x (r.no_key x other absent) ∙ sym (get-gone l x absent)
    | inr (i, f) ↦
        let (m, (u, g)) = a.keyed x i f in
        let g' : get_elem? l'.elements i ≡ some (x, u) =
          ap (λ xs. get_elem? xs i) r.grown
          ∙ get_elem?-append l.elements ((k, v) ∷ []) i (x, u) g in
        let f' = r.old_key x i other (λ q. kept i q f) f in
        get-found l' x i u f' g' ∙ sym (get-found l x i u f g)
  ]

  -- A new entry is found by its key and by its value afterwards and stands at the front of the list of
  -- the elements, cut to the capacity. The element at the back of a full list is found neither by its
  -- key nor by its value any more, and every other key has the value that it had. What a lookup finds
  -- goes to the front of the list. Assumed is that the cache is sound, has room for one entry at least,
  -- and has neither the key nor the value.
  pub put-remembers :
      (l : Lru K V) (k : K) (v : V)
      → IsSound l
      → 0 < l.capacity
      → find k l.key_to_element ≡ none
      → find v l.value_to_element ≡ none
      → ((get (put l k v) k).1 ≡ some v)
        × ((get_key_from_value (put l k v) v).1 ≡ some k)
        × ((x : K)
            → x ≢ k
            → ((i : ℕ) → victim l ≡ some i → find x l.key_to_element ≢ some i)
            → (get (put l k v) x).1 ≡ (get l x).1)
        × ((x : K) (i : ℕ)
            → victim l ≡ some i
            → find x l.key_to_element ≡ some i
            → (get (put l k v) x).1 ≡ none)
        × ((u : V) (i : ℕ)
            → victim l ≡ some i
            → find u l.value_to_element ≡ some i
            → (get_key_from_value (put l k v) u).1 ≡ none)
        × ((put l k v).order ≡ take l.capacity (length l.elements ∷ l.order))
        × ((x : K) (i : ℕ)
            → find x l.key_to_element ≡ some i
            → (get l x).0.order ≡ i ∷ without i l.order)
  put-remembers l k v s pos nk nv =
      let r = put-Replaced l k v s.agrees nk nv pos in
      let leaves = put-Leaves l k v s nk pos in
      let n = length l.elements in
      let at : get_elem? (put l k v).elements n ≡ some (k, v) =
        ap (λ xs. get_elem? xs n) r.grown ∙ get_elem?-last l.elements (k, v) in
      (
        get-found (put l k v) k n v r.new_key at,
        get_key-found (put l k v) k n v r.new_value at,
        λ x other kept. Replaced-KeepsValue l (put l k v) k v x s.agrees r other kept,
        λ x i vic f. get-gone (put l k v) x (leaves.no_key x i vic f),
        λ u i vic f. get_key-gone (put l k v) u (leaves.no_value u i vic f),
        leaves.order,
        λ x i f. order-get l x i s.agrees f,
      )
