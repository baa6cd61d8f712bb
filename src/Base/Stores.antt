-- ===== src/Base/Stores.antt =====
-- Lists as stores that a position points into.
use Prim.Native.Nat.{ℕ, zero, suc}
use mathlib.Core.Path.{◌≡◌, refl, ap}
use mathlib.Core.Logic.{◌≢◌, ◌⊎◌, inl}
use mathlib.Core.Option.{Option, none, some}
use mathlib.Core.List.{List, [], ◌∷◌, ◌++◌}
use native.Mathlib.Omega.{arith}
use dpi_warrior_native_xray.Base.Lists.{length}

module _ {ℓ} {A : Type ℓ} where
  unfoldable pub get_elem? : List A → ℕ → Option A
  get_elem? [] n = none
  get_elem? (x ∷ xs) zero = some x
  get_elem? (x ∷ xs) (suc n) = get_elem? xs n

  unfoldable pub modify : ℕ → (A → A) → List A → List A
  modify n f [] = []
  modify zero f (x ∷ xs) = f x ∷ xs
  modify (suc n) f (x ∷ xs) = x ∷ modify n f xs

module _ {ℓ} {A : Type ℓ} where
  pub get_elem?-append :
      (xs ys : List A) (n : ℕ) (x : A) → get_elem? xs n ≡ some x → get_elem? (xs ++ ys) n ≡ some x
  unfolding get_elem?
  get_elem?-append [] ys n x e = absurd (ground (arith, e))
  get_elem?-append (y ∷ xs) ys zero x e = e
  get_elem?-append (y ∷ xs) ys (suc n) x e = get_elem?-append xs ys n x e

  pub get_elem?-last : (xs : List A) (x : A) → get_elem? (xs ++ (x ∷ [])) (length xs) ≡ some x
  unfolding get_elem?
  get_elem?-last [] x = refl
  get_elem?-last (y ∷ xs) x = get_elem?-last xs x

  pub get_elem?-modify :
      (xs : List A) (n : ℕ) (f : A → A) (x : A)
      → get_elem? xs n ≡ some x
      → get_elem? (modify n f xs) n ≡ some (f x)
  unfolding get_elem? modify
  get_elem?-modify [] n f x e = absurd (ground (arith, e))
  get_elem?-modify (y ∷ xs) zero f x e = ground (arith, e)
  get_elem?-modify (y ∷ xs) (suc n) f x e = get_elem?-modify xs n f x e

  pub get_elem?-modify_other :
      (xs : List A) (n k : ℕ) (f : A → A) → n ≢ k → get_elem? (modify n f xs) k ≡ get_elem? xs k
  unfolding get_elem? modify
  get_elem?-modify_other [] n k f e = refl
  get_elem?-modify_other (y ∷ xs) zero zero f e = absurd (e refl)
  get_elem?-modify_other (y ∷ xs) zero (suc k) f e = refl
  get_elem?-modify_other (y ∷ xs) (suc n) zero f e = refl
  get_elem?-modify_other (y ∷ xs) (suc n) (suc k) f e =
      get_elem?-modify_other xs n k f (λ q. e (ap suc q))

  pub get_elem?-append_cases :
      (xs : List A) (x : A) (n : ℕ) (y : A)
      → get_elem? (xs ++ (x ∷ [])) n ≡ some y
      → (get_elem? xs n ≡ some y) ⊎ (x ≡ y)
  unfolding get_elem?
  get_elem?-append_cases [] x zero y e = ground (arith, e)
  get_elem?-append_cases [] x (suc n) y e = absurd (ground (arith, e))
  get_elem?-append_cases (z ∷ xs) x zero y e = inl e
  get_elem?-append_cases (z ∷ xs) x (suc n) y e = get_elem?-append_cases xs x n y e
