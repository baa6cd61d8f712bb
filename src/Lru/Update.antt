-- ===== src/Lru/Update.antt =====
-- A key that the cache has already, with another value.
use dpi_warrior_native_xray.Base.{ℕ, ◌≡◌, refl, sym, ap, ◌∙◌, none, some}
use dpi_warrior_native_xray.Base.{Eq, find, get_elem?, modify, some-injective, get_elem?-modify}
use dpi_warrior_native_xray.Lru.{Lru, move_to_front, use_element, get, get_key_from_value, put}
use dpi_warrior_native_xray.Lru.Sound.{IsSound}
use dpi_warrior_native_xray.Lru.Remembers.{get-found}

module _ {ℓ} {K V : Type ℓ} ⦃ek : Eq K⦄ ⦃ev : Eq V⦄ where
  put_old :
      (l : Lru K V) (k : K) (v : V) (i : ℕ)
      → find k l.key_to_element ≡ some i
      → put l k v ≡ record l {
        elements = modify i (λ old. (k, v)) l.elements;
        order = move_to_front i l.order;
      }
  unfolding put
  put_old l k v i f = rw (f, put) refl

  get_key-absent :
      (l : Lru K V) (v : V) → find v l.value_to_element ≡ none → (get_key_from_value l v).1 ≡ none
  unfolding get_key_from_value use_element
  get_key-absent l v f = rw (f, get_key_from_value, use_element) refl

  get_key-elsewhere :
      (l : Lru K V) (i : ℕ) (p : K × V) (v : V)
      → find v l.value_to_element ≡ some i
      → get_elem? l.elements i ≡ some p
      → (get_key_from_value l v).1 ≡ some p.0
  unfolding get_key_from_value use_element
  get_key-elsewhere l i p v f g = rw (f, g, get_key_from_value, use_element) refl

  -- `Put` of a key that is there changes its value, and leaves the map from values as it was: the new
  -- value leads to no key, though its key has it, and the old value still leads to the key. Assumed is
  -- that the cache is sound, that the key is there with the old value, and that the new value is not.
  pub put-forgets_value :
      (l : Lru K V) (k : K) (v old : V) (i : ℕ)
      → IsSound l
      → find k l.key_to_element ≡ some i
      → get_elem? l.elements i ≡ some (k, old)
      → find v l.value_to_element ≡ none
      → ((get (put l k v) k).1 ≡ some v)
        × ((get_key_from_value (put l k v) v).1 ≡ none)
        × ((get_key_from_value (put l k v) old).1 ≡ some k)
  put-forgets_value l k v old i s f g nv =
      let l' : Lru K V = record l {
        elements = modify i (λ u. (k, v)) l.elements;
        order = move_to_front i l.order;
      } in
      let now : get_elem? l'.elements i ≡ some (k, v) =
        get_elem?-modify l.elements i (λ u. (k, v)) (k, old) g in
      let (k', v', g', fk, fv) = s.agrees.listed i (s.agrees.keyed k i f).0 in
      let same : old ≡ v' = ap (λ p. p.1) (some-injective (sym g ∙ g')) in
      let old_found : find old l.value_to_element ≡ some i =
        ap (λ u. find u l.value_to_element) same ∙ fv in
      rw (put_old l k v i f) (
        get-found l' k i v f now,
        get_key-absent l' v nv,
        get_key-elsewhere l' i (k, v) old old_found now,
      )
