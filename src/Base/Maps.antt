-- ===== src/Base/Maps.antt =====
-- Association lists over keys that can be compared.
use Prim.Native.Nat.{suc, ◌≤◌, ◌<◌}
use mathlib.Core.Path.{◌≡◌, refl, ap}
use mathlib.Core.Logic.{◌≢◌, ◌⊎◌}
use mathlib.Core.Option.{Option, none, some}
use mathlib.Core.List.{List, [], ◌∷◌}
use native.Mathlib.Omega.{arith}
use dpi_warrior_native_xray.Base.Tests.{if◌then◌else◌}
use dpi_warrior_native_xray.Base.Lists.{length}
use dpi_warrior_native_xray.Base.Equality.{Eq}

module _ {ℓ κ} {K : Type κ} {A : Type ℓ} ⦃e : Eq K⦄ where
  unfoldable pub find : K → List (K × A) → Option A
  find k [] = none
  find k ((j, a) ∷ m) = let rest = find k m in if e.beq j k then some a else rest

  unfoldable pub erase : K → List (K × A) → List (K × A)
  erase k [] = []
  erase k ((j, a) ∷ m) = let rest = erase k m in if e.beq j k then rest else (j, a) ∷ rest

  unfoldable pub insert : K → A → List (K × A) → List (K × A)
  unfolding erase
  insert k a m = (k, a) ∷ erase k m

module _ {ℓ κ} {K : Type κ} {A : Type ℓ} ⦃e : Eq K⦄ where
  pub find-erase :
      (k j : K) (m : List (K × A)) → find k (erase j m) ≡ (if e.beq j k then none else find k m)
  unfolding find erase
  find-erase k j [] = ground arith
  find-erase k j ((i, a) ∷ m) =
      ground (arith, find-erase k j m, e.beq_iff i j, e.beq_iff i k, e.beq_iff j k)

  pub find-insert :
      (k j : K) (a : A) (m : List (K × A))
      → find k (insert j a m) ≡ (if e.beq j k then some a else find k m)
  unfolding find insert
  find-insert k j a m = ground (arith, find-erase k j m)

  pub length-erase : (k : K) (m : List (K × A)) → length (erase k m) ≤ length m
  unfolding erase
  length-erase k [] = omega arith
  length-erase k ((i, a) ∷ m) = ground (arith, length-erase k m)

  pub length-erase-lt : (k : K) (m : List (K × A)) → find k m ≢ none → length (erase k m) < length m
  unfolding erase find
  length-erase-lt k [] h = absurd (h refl)
  length-erase-lt k ((i, a) ∷ m) h = ground (arith, length-erase-lt k m, length-erase k m)

  -- A map after an insertion: the new entry, or one that was there.
  pub found-insert :
      (x y : K) (n i : A) (m : List (K × A))
      → find y (insert x n m) ≡ some i
      → ((x ≡ y) × (n ≡ i)) ⊎ (find y m ≡ some i)
  found-insert x y n i m f = ground (arith, e.beq_iff x y, find-insert y x n m, f)

  pub find-insert_self : (x : K) (n : A) (m : List (K × A)) → find x (insert x n m) ≡ some n
  find-insert_self x n m = ground (arith, e.beq_iff x x, find-insert x x n m)

  pub find-insert_old :
      (x y : K) (n i : A) (m : List (K × A))
      → find x m ≡ none
      → find y m ≡ some i
      → find y (insert x n m) ≡ some i
  find-insert_old x y n i m absent f =
      let other : x ≢ y = λ q. ground (arith, ap (λ z. find z m) q, absent, f) in
      ground (arith, e.beq_iff x y, find-insert y x n m, f, other)

  pub length-insert : (x : K) (n : A) (m : List (K × A)) → length (insert x n m) ≤ suc (length m)
  unfolding insert
  length-insert x n m = omega (arith, length-erase x m)

  -- A map after a removal: an entry of another key.
  pub found-erase :
      (x y : K) (i : A) (m : List (K × A))
      → find y (erase x m) ≡ some i
      → (x ≢ y) × (find y m ≡ some i)
  found-erase x y i m f = ground (arith, e.beq_iff x y, find-erase y x m, f)

  pub find-erase_old :
      (x y : K) (i : A) (m : List (K × A)) → x ≢ y → find y m ≡ some i → find y (erase x m) ≡ some i
  find-erase_old x y i m other f = ground (arith, e.beq_iff x y, find-erase y x m, f, other)
