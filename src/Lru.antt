-- ===== src/Lru.antt =====
-- common/cache/lru.go: a cache that keeps the entries used last, and is read by key and by value.
-- The elements of the linked list are shared by pointers: `elements` holds each that was made, a pointer
-- is a position in it, and `order` is the list, from front to back. The two maps lead to pointers.
-- Keys and values are compared as Go compares them. The lock is not modelled.
pub mod Order
pub mod Sound
pub mod PushFront
pub mod Evict
pub mod Put
pub mod Victim
pub mod Remembers
pub mod Update
mod Tests
use mathlib.Core.Option.{map}
use dpi_warrior_native_xray.Base.{
  ℕ, Bool, true, false, Option, none, some, List, [], ◌∷◌, ◌++◌, ltb, ◌==◌, if◌then◌else◌, length,
  Eq, find, erase, insert, get_elem?, modify,
}

pub record Lru {ℓ} (K V : Type ℓ) : Type ℓ where
  pub capacity : ℕ
  pub elements : List (K × V)
  pub order : List ℕ
  pub key_to_element : List (K × ℕ)
  pub value_to_element : List (V × ℕ)

unfoldable pub new_lru {ℓ} : {K V : Type ℓ} → ℕ → Lru K V
new_lru cap = record {
  capacity = cap;
  elements = [];
  order = [];
  key_to_element = [];
  value_to_element = [];
}

unfoldable pub mem : ℕ → List ℕ → Bool
mem i [] = false
mem i (j ∷ l) = let rest = mem i l in if j == i then true else rest

unfoldable pub without : ℕ → List ℕ → List ℕ
without i [] = []
without i (j ∷ l) = let rest = without i l in if j == i then l else j ∷ rest

-- `MoveToFront`, which leaves an element alone that is no longer in the list.
unfoldable pub move_to_front : ℕ → List ℕ → List ℕ
unfolding mem without
move_to_front i l = if mem i l then i ∷ without i l else l

-- `Back`, and the list without it.
unfoldable pub back : List ℕ → Option ℕ
back [] = none
back (i ∷ []) = some i
back (i ∷ j ∷ l) = back (j ∷ l)

unfoldable pub front_part : List ℕ → List ℕ
front_part [] = []
front_part (i ∷ []) = []
front_part (i ∷ j ∷ l) = i ∷ front_part (j ∷ l)

module _ {ℓ} {K V : Type ℓ} ⦃ek : Eq K⦄ ⦃ev : Eq V⦄ where
  -- What a lookup does with the pointer that it found.
  unfoldable pub use_element : Lru K V → Option ℕ → Lru K V × Option (K × V)
  use_element l none = (l, none)
  use_element l (some i) = (record l { order = move_to_front i l.order }, get_elem? l.elements i)

  unfoldable pub get : Lru K V → K → Lru K V × Option V
  get l key = let (l', e) = use_element l (find key l.key_to_element) in (l', map (λ p. p.1) e)

  unfoldable pub get_key_from_value : Lru K V → V → Lru K V × Option K
  get_key_from_value l value =
      let (l', e) = use_element l (find value l.value_to_element) in (l', map (λ p. p.0) e)

  unfoldable pub peek_key_from_value : Lru K V → V → Option K
  peek_key_from_value l value = elim (find value l.value_to_element) [
    | none ↦ none
    | some i ↦ map (λ p. p.0) (get_elem? l.elements i)
  ]

  -- The element at the back leaves, with the entries of its key and its value.
  unfoldable pub evict : Lru K V → Lru K V
  evict l = elim (back l.order) [
    | none ↦ l
    | some i ↦ elim (get_elem? l.elements i) [
      | none ↦ l
      | some (key, value) ↦ record l {
        order = front_part l.order;
        key_to_element = erase key l.key_to_element;
        value_to_element = erase value l.value_to_element;
      }
    ]
  ]

  -- A new element at the front.
  unfoldable pub push_front : Lru K V → K → V → Lru K V
  push_front l key value =
      let i = length l.elements in
      record l {
        elements = l.elements ++ ((key, value) ∷ []);
        order = i ∷ l.order;
        key_to_element = insert key i l.key_to_element;
        value_to_element = insert value i l.value_to_element;
      }

  unfoldable pub put : Lru K V → K → V → Lru K V
  put l key value = elim (find key l.key_to_element) [
    | some i ↦ record l {
      elements = modify i (λ old. (key, value)) l.elements;
      order = move_to_front i l.order;
    }
    | none ↦
        let l' = push_front l key value in
        if ltb l'.capacity (length l'.order) then evict l' else l'
  ]
