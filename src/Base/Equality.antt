-- ===== src/Base/Equality.antt =====
-- Types whose values the program compares.
use Prim.Native.Nat.{ℕ}
use mathlib.Core.Path.{◌≡◌, refl}
use mathlib.Core.Logic.{◌↔◌}
use mathlib.Core.Bool.{Bool, true, false}
use mathlib.Core.Option.{Option, none, some}
use mathlib.Core.List.{List, [], ◌∷◌}
use native.Mathlib.Omega.{arith}
use dpi_warrior_native_xray.Base.Tests.{◌==◌, ==_iff, if◌then◌else◌}

pub record Eq {ℓ} (A : Type ℓ) : Type ℓ where
  pub beq : A → A → Bool
  pub beq_iff : (a b : A) → (beq a b ≡ true) ↔ (a ≡ b)

instance abbrev pub nat_eq : Eq ℕ
nat_eq = record { beq = ◌==◌; beq_iff = ==_iff }

-- `bytes.Equal`.
unfoldable pub same_bytes : List ℕ → List ℕ → Bool
same_bytes [] [] = true
same_bytes (a ∷ x) (b ∷ y) = let rest = same_bytes x y in if a == b then rest else false
same_bytes _ _ = false

pub same_bytes_iff : (x y : List ℕ) → (same_bytes x y ≡ true) ↔ (x ≡ y)
unfolding same_bytes
same_bytes_iff [] [] = (λ e. refl, λ e. refl)
same_bytes_iff [] (b ∷ y) = ground arith
same_bytes_iff (a ∷ x) [] = ground arith
same_bytes_iff (a ∷ x) (b ∷ y) = ground (arith, same_bytes_iff x y)

instance abbrev pub bytes_eq : Eq (List ℕ)
bytes_eq = record { beq = same_bytes; beq_iff = same_bytes_iff }

unfoldable pub same_option {ℓ} : {A : Type ℓ} → (A → A → Bool) → Option A → Option A → Bool
same_option same none none = true
same_option same (some a) (some b) = same a b
same_option same _ _ = false

pub same_option_iff {ℓ} :
    {A : Type ℓ} (same : A → A → Bool)
    → ((a b : A) → (same a b ≡ true) ↔ (a ≡ b))
    → (x y : Option A) → (same_option same x y ≡ true) ↔ (x ≡ y)
unfolding same_option
same_option_iff same h none none = (λ e. refl, λ e. refl)
same_option_iff same h none (some b) = ground arith
same_option_iff same h (some a) none = ground arith
same_option_iff same h (some a) (some b) = ground (arith, h a b)
