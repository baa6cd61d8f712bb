-- ===== src/FakeDns/Free.antt =====
-- The search for an address that is not in use.
use dpi_warrior_native_xray.Base.{
  ℕ, zero, suc, ◌+◌, ◌^◌, ◌≤◌, ◌<◌, ◌≡◌, refl, sym, ap, ◌∙◌, ◌⊎◌, inl, inr, true, false, Option,
  none, some, List, arith, Bool-cases, Option-cases, length,
}
use dpi_warrior_native_xray.Base.{
  bytes_eq, get_elem?, Eq, find, erase, find-erase_old, length-erase-lt,
}
use dpi_warrior_native_xray.Net.{Address, address_eq}
use dpi_warrior_native_xray.Lru.{Lru, peek_key_from_value}
use dpi_warrior_native_xray.Lru.Sound.{IsSound}
use dpi_warrior_native_xray.FakeDns.{
  IpRange, Holder, address_of, first_number, next_number, is_taken, find_free, enough_rounds,
}
use dpi_warrior_native_xray.FakeDns.Pool.{
  InPool, IsPool, place, next_number-place, first_number-InPool, address_of-injective,
}

-- As many different keys as a map holds are in it at most.
pub pigeonhole {ℓ κ} :
    {A : Type ℓ} {V : Type κ} ⦃e : Eq V⦄ (k : ℕ) (f : ℕ → V) (m : List (V × A))
    → ((i j : ℕ) → i < k → j < k → f i ≡ f j → i ≡ j)
    → ((i : ℕ) → i < k → (a : A) × (find (f i) m ≡ some a))
    → k ≤ length m
pigeonhole zero f m inj held = omega arith
pigeonhole (suc k) f m inj held =
    let (a, here) = held k (omega arith) in
    let rest =
      pigeonhole k f (erase (f k) m) (λ i j p q. inj i j (omega arith) (omega arith))
        (λ i p.
          let (b, there) = held i (omega arith) in
          (
            b,
            find-erase_old (f k) (f i) b m
                (λ q. omega (arith, inj k i (omega arith) (omega arith) q)) there,
          )) in
    omega (arith, rest, length-erase-lt (f k) m (λ q. ground (arith, here, q)))

-- An address that a search finds is not in use and in the pool; a search that finds none has seen an
-- address in use at every place.
abbrev pub Found : Holder → Option (Option Address) → Type 0
Found h res =
    (n : ℕ) × InPool h.ip_range n
    × (res ≡ some (address_of n))
    × (is_taken h (address_of n) ≡ false)

find_free-free :
    (k : ℕ) (h : Holder) (n : ℕ)
    → is_taken h (address_of n) ≡ false
    → find_free (suc k) h n ≡ some (address_of n)
unfolding find_free
find_free-free k h n free = rw free refl

find_free-taken :
    (k : ℕ) (h : Holder) (n : ℕ)
    → is_taken h (address_of n) ≡ true
    → find_free (suc k) h n ≡ find_free k h (next_number h.ip_range n)
unfolding find_free
find_free-taken k h n taken = rw taken refl

place-lt : (size o : ℕ) → o < size → place size (o + 1) < size
unfolding place
place-lt size o h = ground (arith, h)

place-small : (size o : ℕ) → o < size → place size (o + 0) ≡ o
unfolding place
place-small size o h = ground (arith, h)

place-shift :
    (size o i : ℕ)
    → o < size
    → i < size
    → place size (place size (o + 1) + i) ≡ place size (o + suc i)
unfolding place
place-shift size o i h p = ground (arith, h, p)

-- All addresses that a search of so many rounds looks at are in use.
abbrev AllTaken : Holder → ℕ → ℕ → Type 0
AllTaken h o k =
    (i : ℕ)
    → i < k
    → is_taken h (address_of (h.ip_range.base + place (2 ^ h.ip_range.rooms) (o + i))) ≡ true

AllTaken-suc :
    (h : Holder) (o k : ℕ)
    → o < 2 ^ h.ip_range.rooms
    → suc k ≤ 2 ^ h.ip_range.rooms
    → is_taken h (address_of (h.ip_range.base + o)) ≡ true
    → AllTaken h (place (2 ^ h.ip_range.rooms) (o + 1)) k
    → AllTaken h o (suc k)
AllTaken-suc h o k lt le here all zero q = rw (place-small (2 ^ h.ip_range.rooms) o lt) here
AllTaken-suc h o k lt le here all (suc i) q =
    rw (sym (place-shift (2 ^ h.ip_range.rooms) o i lt (omega arith))) (all i (omega arith))

find_free-cases :
    (k : ℕ) (h : Holder) (o : ℕ)
    → IsPool h.ip_range
    → o < 2 ^ h.ip_range.rooms
    → k ≤ 2 ^ h.ip_range.rooms
    → Found h (find_free k h (h.ip_range.base + o)) ⊎ AllTaken h o k
find_free-cases zero h o p lt le = inr (λ i q. absurd (omega arith))
find_free-cases (suc k) h o p lt le =
    let r = h.ip_range in
    let next = place (2 ^ r.rooms) (o + 1) in
    let next_lt = place-lt (2 ^ r.rooms) o lt in
    elim (Bool-cases (is_taken h (address_of (r.base + o)))) [
      | inr free ↦
          inl (r.base + o, (omega arith, omega arith), find_free-free k h (r.base + o) free, free)
      | inl taken ↦
          let step : find_free (suc k) h (r.base + o) ≡ find_free k h (r.base + next) =
            find_free-taken k h (r.base + o) taken
            ∙ ap (find_free k h) (next_number-place r o p lt) in
          elim (find_free-cases k h next p next_lt (omega arith)) [
            | inl (n, i, e, t) ↦ inl (n, i, step ∙ e, t)
            | inr all ↦ inr (AllTaken-suc h o k lt le taken all)
          ]
    ]

peek_key-absent :
    (l : Lru (List ℕ) (Option Address)) (v : Option Address)
    → find v l.value_to_element ≡ none
    → peek_key_from_value l v ≡ none
unfolding peek_key_from_value
peek_key-absent l v e = rw (e, peek_key_from_value) refl

is_taken-found :
    (h : Holder) (v : Option Address)
    → is_taken h v ≡ true
    → (i : ℕ) × (find v h.domain_to_ip.value_to_element ≡ some i)
is_taken-found h v t = elim (Option-cases (find v h.domain_to_ip.value_to_element)) [
  | inl absent ↦ absurd (ground (arith, t, peek_key-absent h.domain_to_ip v absent))
  | inr (i, e) ↦ (i, e)
]

peek_key-found :
    (l : Lru (List ℕ) (Option Address)) (v : Option Address) (i : ℕ) (p : List ℕ × Option Address)
    → find v l.value_to_element ≡ some i
    → get_elem? l.elements i ≡ some p
    → peek_key_from_value l v ≡ some p.0
unfolding peek_key_from_value
peek_key-found l v i p e g = rw (e, g, peek_key_from_value) refl

-- Of a sound cache, an address that is not in use is no value.
pub untaken-find :
    (h : Holder) (v : Option Address)
    → IsSound h.domain_to_ip
    → is_taken h v ≡ false
    → find v h.domain_to_ip.value_to_element ≡ none
untaken-find h v s t = elim (Option-cases (find v h.domain_to_ip.value_to_element)) [
  | inl absent ↦ absent
  | inr (i, e) ↦
      let (m, (k, g)) = s.agrees.valued v i e in
      absurd (ground (arith, t, peek_key-found h.domain_to_ip v i (k, v) e g))
]

in_pool : (r : IpRange) (o : ℕ) → o < 2 ^ r.rooms → InPool r (r.base + o)
in_pool r o h = (omega arith, omega arith)

place-injective :
    (size o i j : ℕ)
    → o < size
    → i < size
    → j < size
    → place size (o + i) ≡ place size (o + j)
    → i ≡ j
unfolding place
place-injective size o i j h p q e = ground (arith, h, p, q, e)

place-shift_lt : (size o i : ℕ) → o < size → i < size → place size (o + i) < size
unfolding place
place-shift_lt size o i h p = ground (arith, h, p)

-- The addresses in use are not as many as the places that a search looks at.
crowded :
    (h : Holder) (o k : ℕ)
    → IsPool h.ip_range
    → o < 2 ^ h.ip_range.rooms
    → k ≤ 2 ^ h.ip_range.rooms
    → AllTaken h o k
    → k ≤ length h.domain_to_ip.value_to_element
crowded h o k p lt le all =
    let r = h.ip_range in
    let size = 2 ^ r.rooms in
    let f : ℕ → Option Address = λ i. address_of (r.base + place size (o + i)) in
    let in_size = λ (i : ℕ) (q : i < k). place-shift_lt size o i lt (omega (arith, q, le)) in
    pigeonhole k f h.domain_to_ip.value_to_element
      (λ i j a b e.
        let same =
          address_of-injective r (r.base + place size (o + i)) (r.base + place size (o + j)) p
            (in_pool r (place size (o + i)) (in_size i a))
            (in_pool r (place size (o + j)) (in_size j b)) e in
        place-injective size o i j lt (omega (arith, a, le)) (omega (arith, b, le))
          (omega (arith, same)))
      (λ i q. is_taken-found h (f i) (all i q))

-- The search ends, with an address of the pool that is not in use.
pub find_free-ends :
    (h : Holder) (now : ℕ)
    → IsPool h.ip_range
    → IsSound h.domain_to_ip
    → h.domain_to_ip.capacity < 2 ^ h.ip_range.rooms
    → Found h (find_free (enough_rounds h) h (first_number h.ip_range now))
find_free-ends h now p s room =
    let r = h.ip_range in
    let size = 2 ^ r.rooms in
    let (o, lt, first) = first_number-InPool r now in
    let rounds : enough_rounds h ≤ size = omega (arith, s.bounded, s.agrees.enough, room) in
    rw first (elim (find_free-cases (enough_rounds h) h o p lt rounds) [
      | inl found ↦ found
      | inr all ↦ absurd (omega (arith, crowded h o (enough_rounds h) p lt rounds all))
    ])
