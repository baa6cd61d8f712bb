-- ===== src/Base/Bits.antt =====
-- Exclusive or, undone by itself.
use Prim.Native.Nat.{
  ℕ, zero, suc, ◌+◌, ◌*◌, ◌/◌, ◌%◌, ◌≤◌, bit_xor, bit_xor-bitwise, digits, differ,
}
use mathlib.Core.Path.{◌≡◌, refl, sym, ap, ◌∙◌}
use native.Mathlib.Omega.{arith}

abbrev xor_digits : ℕ → ℕ → ℕ → ℕ
xor_digits = digits (λ b. b) differ

differ_undone : (x y : ℕ) → x ≤ 1 → y ≤ 1 → differ (differ x y) y ≡ x
differ_undone zero zero h k = refl
differ_undone zero (suc zero) h k = refl
differ_undone (suc zero) zero h k = refl
differ_undone (suc zero) (suc zero) h k = refl
differ_undone (suc (suc x)) y h k = absurd (omega arith)
differ_undone zero (suc (suc y)) h k = absurd (omega arith)
differ_undone (suc zero) (suc (suc y)) h k = absurd (omega arith)

differ-le : (x y : ℕ) → x ≤ 1 → y ≤ 1 → differ x y ≤ 1
differ-le zero y h k = k
differ-le (suc x) zero h k = h
differ-le (suc x) (suc y) h k = differ-le x y (omega arith) (omega arith)

differ_self : (x : ℕ) → differ x x ≡ 0
differ_self zero = refl
differ_self (suc x) = differ_self x

xor_self : (m b : ℕ) → b ≤ m → xor_digits m b b ≡ 0
xor_self zero zero h = refl
xor_self zero (suc b) h = absurd (omega arith)
xor_self (suc m) zero h = refl
xor_self (suc m) (suc b) h =
    let e = xor_self m (suc b / 2) (omega arith) in
    let d = differ_self (suc b % 2) in omega (arith, e, d)

xor_zero : (m b : ℕ) → xor_digits m 0 b ≡ b
xor_zero zero b = refl
xor_zero (suc m) b = refl

-- The step on the last digit, `d`, of a result `x` whose other digits are `q`.
xor_step :
    (m x a b q d : ℕ)
    → x ≡ q * 2 + d
    → d ≤ 1
    → x ≤ m
    → differ d (b % 2) ≡ a % 2
    → ((k : ℕ) → q ≤ k → xor_digits k q (b / 2) ≡ a / 2)
    → xor_digits m x b ≡ a
xor_step m zero a b q d e small l back undone =
    let q0 : q ≡ 0 = omega arith in
    let d0 : d ≡ 0 = omega arith in
    let high : b / 2 ≡ a / 2 =
      ap (λ q'. xor_digits 0 q' (b / 2)) (sym q0) ∙ undone 0 (omega arith) in
    let low : b % 2 ≡ a % 2 = ap (λ d'. differ d' (b % 2)) (sym d0) ∙ back in
    xor_zero m b ∙ omega arith
xor_step zero (suc x) a b q d e small l back undone = absurd (omega arith)
xor_step (suc m) (suc x) a b q d e small l back undone =
    let high : suc x / 2 ≡ q = omega arith in
    let low : suc x % 2 ≡ d = omega arith in
    rw (high, low) (omega (arith, undone m (omega arith), back))

xor_undone : (n a b m : ℕ) → a ≤ n → xor_digits n a b ≤ m → xor_digits m (xor_digits n a b) b ≡ a
xor_undone zero zero b m h l = xor_self m b l
xor_undone zero (suc a) b m h l = absurd (omega arith)
xor_undone (suc n) zero b m h l = xor_self m b l
xor_undone (suc n) (suc a) b m h l =
    let q = xor_digits n (suc a / 2) (b / 2) in
    let d = differ (suc a % 2) (b % 2) in
    let small : d ≤ 1 = differ-le (suc a % 2) (b % 2) (omega arith) (omega arith) in
    let back : differ d (b % 2) ≡ suc a % 2 =
      differ_undone (suc a % 2) (b % 2) (omega arith) (omega arith) in
    xor_step m (q * 2 + d) (suc a) b q d refl small l back
      (λ k p. xor_undone n (suc a / 2) (b / 2) k (omega arith) p)

bit_xor-digits : (a b : ℕ) → bit_xor a b ≡ xor_digits a a b
bit_xor-digits a b = λ i. bit_xor-bitwise a b i

pub bit_xor-bit_xor : (a b : ℕ) → bit_xor (bit_xor a b) b ≡ a
bit_xor-bit_xor a b =
    bit_xor-digits (bit_xor a b) b
    ∙ ap (λ x. xor_digits x x b) (bit_xor-digits a b)
    ∙ xor_undone a a b (xor_digits a a b) (omega arith) (omega arith)
