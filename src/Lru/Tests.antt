-- ===== src/Lru/Tests.antt =====
-- The theorems on the cache at a cache of one entry.
use dpi_warrior_native_xray.Base.{
  ℕ, ◌<◌, ◌≡◌, refl, ◌≢◌, none, some, ◌∷◌, arith, length, take, nat_eq, find, erase, insert,
  get_elem?,
}
use dpi_warrior_native_xray.Lru.{Lru, without, new_lru, get, get_key_from_value, push_front, put}
use dpi_warrior_native_xray.Lru.Sound.{IsSound, new_lru-IsSound}
use dpi_warrior_native_xray.Lru.Put.{put-IsSound}
use dpi_warrior_native_xray.Lru.Victim.{victim}
use dpi_warrior_native_xray.Lru.Remembers.{put-remembers}
use dpi_warrior_native_xray.Lru.Update.{put-forgets_value}

abbrev empty_cache : Lru ℕ ℕ
empty_cache = new_lru 1

-- The cache holds the value 10 of the key 1.
abbrev one_entry : Lru ℕ ℕ
one_entry = put empty_cache 1 10

one_entry-IsSound : IsSound one_entry
unfolding new_lru find
one_entry-IsSound = put-IsSound empty_cache 1 10 (new_lru-IsSound 1) refl refl

full-find : (find 2 one_entry.key_to_element ≡ none) × (find 20 one_entry.value_to_element ≡ none)
unfolding put push_front new_lru find insert erase
full-find = (refl, refl)

full-capacity : 0 < one_entry.capacity
unfolding put push_front new_lru find insert erase
full-capacity = omega arith

-- A full cache drops its one entry for the new one.
put-remembers_example :
    ((get (put one_entry 2 20) 2).1 ≡ some 20)
    × ((get_key_from_value (put one_entry 2 20) 20).1 ≡ some 2)
    × ((x : ℕ)
        → x ≢ 2
        → ((i : ℕ) → victim one_entry ≡ some i → find x one_entry.key_to_element ≢ some i)
        → (get (put one_entry 2 20) x).1 ≡ (get one_entry x).1)
    × ((x i : ℕ)
        → victim one_entry ≡ some i
        → find x one_entry.key_to_element ≡ some i
        → (get (put one_entry 2 20) x).1 ≡ none)
    × ((u i : ℕ)
        → victim one_entry ≡ some i
        → find u one_entry.value_to_element ≡ some i
        → (get_key_from_value (put one_entry 2 20) u).1 ≡ none)
    × ((put one_entry 2 20).order
        ≡ take one_entry.capacity (length one_entry.elements ∷ one_entry.order))
    × ((x i : ℕ)
        → find x one_entry.key_to_element ≡ some i
        → (get one_entry x).0.order ≡ i ∷ without i one_entry.order)
put-remembers_example =
    put-remembers one_entry 2 20 one_entry-IsSound full-capacity full-find.0 full-find.1

one_entry-found :
    (find 1 one_entry.key_to_element ≡ some 0)
    × (get_elem? one_entry.elements 0 ≡ some (1, 10))
    × (find 20 one_entry.value_to_element ≡ none)
unfolding put push_front new_lru find insert erase get_elem?
one_entry-found = (refl, refl, refl)

-- The value of the key 1 is changed from 10 to 20: 20 leads to no key, and 10 still to 1.
put-forgets_value_example :
    ((get (put one_entry 1 20) 1).1 ≡ some 20)
    × ((get_key_from_value (put one_entry 1 20) 20).1 ≡ none)
    × ((get_key_from_value (put one_entry 1 20) 10).1 ≡ some 1)
put-forgets_value_example =
    put-forgets_value one_entry 1 20 10 0 one_entry-IsSound one_entry-found.0 one_entry-found.1
      one_entry-found.2
