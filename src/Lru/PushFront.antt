-- ===== src/Lru/PushFront.antt =====
-- A new element at the front.
use dpi_warrior_native_xray.Base.{
  ℕ, zero, suc, ◌<◌, ◌≡◌, sym, ap, ◌∙◌, inl, inr, true, false, none, some, List, [], ◌∷◌, ◌++◌,
  arith, ◌==◌, Bool-cases, length,
}
use dpi_warrior_native_xray.Base.{
  Eq, find, get_elem?, get_elem?-append, get_elem?-last, found-insert, find-insert_self,
  find-insert_old, length-insert,
}
use dpi_warrior_native_xray.Lru.{Lru, mem, push_front}
use dpi_warrior_native_xray.Lru.Sound.{Agrees}

get_elem?-short {ℓ} :
    {A : Type ℓ} (xs : List A) (n : ℕ) (x : A) → get_elem? xs n ≡ some x → n < length xs
unfolding get_elem?
get_elem?-short [] n x e = ground (arith, e)
get_elem?-short (y ∷ xs) zero x e = omega arith
get_elem?-short (y ∷ xs) (suc n) x e = omega (arith, get_elem?-short xs n x e)

module _ {ℓ} {K V : Type ℓ} ⦃ek : Eq K⦄ ⦃ev : Eq V⦄ where
  -- An entry whose key and whose value are new.
  module _ (l : Lru K V) (k : K) (v : V) (a : Agrees l) (nk : find k l.key_to_element ≡ none)
      (nv : find v l.value_to_element ≡ none) where
    new_is_last : get_elem? (l.elements ++ ((k, v) ∷ [])) (length l.elements) ≡ some (k, v)
    new_is_last = get_elem?-last l.elements (k, v)

    new_not_mem : mem (length l.elements) l.order ≡ false
    new_not_mem = elim (Bool-cases (mem (length l.elements) l.order)) [
      | inl there ↦
          let (k', v', g, fk, fv) = a.listed (length l.elements) there in
          absurd (omega (arith, get_elem?-short l.elements (length l.elements) (k', v') g))
      | inr absent ↦ absent
    ]

    push_front-keyed :
        (k' : K) (i : ℕ)
        → find k' (push_front l k v).key_to_element ≡ some i
        → (mem i (push_front l k v).order ≡ true)
          × ((v' : V) × (get_elem? (push_front l k v).elements i ≡ some (k', v')))
    unfolding push_front mem
    push_front-keyed k' i f = elim (found-insert k k' (length l.elements) i l.key_to_element f) [
      | inl (same, at) ↦ (ground (arith, at), (v, ground (arith, same, at, new_is_last)))
      | inr old ↦
          let (m, (v', g)) = a.keyed k' i old in
          (ground (arith, m), (v', get_elem?-append l.elements ((k, v) ∷ []) i (k', v') g))
    ]

    push_front-valued :
        (v' : V) (i : ℕ)
        → find v' (push_front l k v).value_to_element ≡ some i
        → (mem i (push_front l k v).order ≡ true)
          × ((k' : K) × (get_elem? (push_front l k v).elements i ≡ some (k', v')))
    unfolding push_front mem
    push_front-valued v' i f = elim (found-insert v v' (length l.elements) i l.value_to_element f) [
      | inl (same, at) ↦ (ground (arith, at), (k, ground (arith, same, at, new_is_last)))
      | inr old ↦
          let (m, (k', g)) = a.valued v' i old in
          (ground (arith, m), (k', get_elem?-append l.elements ((k, v) ∷ []) i (k', v') g))
    ]

    push_front-listed :
        (i : ℕ)
        → mem i (push_front l k v).order ≡ true
        → (k' : K) × (v' : V) × (get_elem? (push_front l k v).elements i ≡ some (k', v'))
          × (find k' (push_front l k v).key_to_element ≡ some i)
          × (find v' (push_front l k v).value_to_element ≡ some i)
    unfolding push_front mem
    push_front-listed i m = elim (Bool-cases (length l.elements == i)) [
      | inl here ↦
          let at : length l.elements ≡ i = ground (arith, here) in
          (
            k,
            v,
            ap (get_elem? (l.elements ++ ((k, v) ∷ []))) (sym at) ∙ new_is_last,
            find-insert_self k (length l.elements) l.key_to_element ∙ ap some at,
            find-insert_self v (length l.elements) l.value_to_element ∙ ap some at,
          )
      | inr older ↦
          let (k', v', g, fk, fv) = a.listed i (ground (arith, m, older)) in
          (
            k',
            v',
            get_elem?-append l.elements ((k, v) ∷ []) i (k', v') g,
            find-insert_old k k' (length l.elements) i l.key_to_element nk fk,
            find-insert_old v v' (length l.elements) i l.value_to_element nv fv,
          )
    ]

    pub push_front-Agrees : Agrees (push_front l k v)
    push_front-Agrees = record {
      keyed = push_front-keyed;
      valued = push_front-valued;
      listed = push_front-listed;
      distinct = unfold push_front in (new_not_mem, a.distinct);
      enough =
          unfold push_front in
          omega (arith, a.enough, length-insert v (length l.elements) l.value_to_element);
    }
