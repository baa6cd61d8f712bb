-- ===== src/Base/Bytes.antt =====
-- Byte slices as lists of numbers. `none` is a run-time panic: an index or a slice out of range.
use Prim.Native.Nat.{ℕ, zero, suc, ◌+◌, ◌≤◌}
use mathlib.Core.Path.{◌≡◌, refl, ap}
use mathlib.Core.Option.{Option, none, some}
use mathlib.Core.List.{List, [], ◌∷◌, ◌++◌}
use native.Mathlib.Omega.{arith}
use dpi_warrior_native_xray.Base.Words.{of_be16, of_be32}
use dpi_warrior_native_xray.Base.Lists.{length, replicate, replicate-add}

infixl 5 ◌>>=◌
abbrev pub ◌>>=◌ {ℓ κ} : {A : Type ℓ} {B : Type κ} → Option A → (A → Option B) → Option B
none >>= f = none
some a >>= f = f a

-- `binary.BigEndian.Uint16(buf); buf = buf[2:]`, and the same for one and for four bytes.
abbrev pub read_byte : List ℕ → Option (ℕ × List ℕ)
read_byte [] = none
read_byte (a ∷ rest) = some (a, rest)

abbrev pub read_uint16 : List ℕ → Option (ℕ × List ℕ)
read_uint16 (a ∷ b ∷ rest) = some (of_be16 a b, rest)
read_uint16 _ = none

abbrev pub read_uint32 : List ℕ → Option (ℕ × List ℕ)
read_uint32 (a ∷ b ∷ c ∷ d ∷ rest) = some (of_be32 a b c d, rest)
read_uint32 _ = none

-- Writes all of `src` over the front of `dst`.
abbrev pub overwrite : List ℕ → List ℕ → Option (List ℕ)
overwrite [] dst = some dst
overwrite (x ∷ src) [] = none
overwrite (x ∷ src) (y ∷ dst) = overwrite src dst >>= λ r. some (x ∷ r)

-- `PutUint32(b[at:], n)` writes the bytes of `n` at `at`; so do `PutUint16` and `b[at] = n`.
abbrev pub put_at : ℕ → List ℕ → List ℕ → Option (List ℕ)
put_at zero src dst = overwrite src dst
put_at (suc n) src [] = none
put_at (suc n) src (y ∷ dst) = put_at n src dst >>= λ r. some (y ∷ r)

-- Go's `copy(dst, src)`: as much as fits.
abbrev pub copy : List ℕ → List ℕ → List ℕ
copy dst [] = dst
copy [] (x ∷ src) = []
copy (y ∷ dst) (x ∷ src) = x ∷ copy dst src

-- `copy(b[at:], src)`.
abbrev pub copy_at : ℕ → List ℕ → List ℕ → Option (List ℕ)
copy_at zero src dst = some (copy dst src)
copy_at (suc n) src [] = none
copy_at (suc n) src (y ∷ dst) = copy_at n src dst >>= λ r. some (y ∷ r)

-- What `Extend` and `make` give.
abbrev pub zeros : ℕ → List ℕ
zeros n = replicate n 0

pub zeros-add : (n m : ℕ) → zeros (n + m) ≡ zeros n ++ zeros m
zeros-add n m = replicate-add n m 0

pub copy-zeros : (src : List ℕ) → copy (zeros (length src)) src ≡ src
copy-zeros [] = refl
copy-zeros (x ∷ src) = ap (◌∷◌ x) (copy-zeros src)

-- A write behind a prefix leaves the prefix alone.
pub put_at-append :
    (pre src dst : List ℕ)
    → put_at (length pre) src (pre ++ dst) ≡ (overwrite src dst >>= λ r. some (pre ++ r))
put_at-append [] src dst = ground arith
put_at-append (y ∷ pre) src dst = ground (arith, put_at-append pre src dst)

pub overwrite-append :
    (src old rest : List ℕ)
    → length src ≡ length old
    → overwrite src (old ++ rest) ≡ some (src ++ rest)
overwrite-append [] [] rest h = refl
overwrite-append [] (y ∷ old) rest h = absurd (omega arith)
overwrite-append (x ∷ src) [] rest h = absurd (omega arith)
overwrite-append (x ∷ src) (y ∷ old) rest h = rw (overwrite-append src old rest (omega arith))

-- A read that a length check protects: it succeeds, and leaves the rest.
abbrev pub Reads : ℕ → List ℕ → Option (ℕ × List ℕ) → Type 0
Reads n buf none = ⊥
Reads n buf (some (x, rest)) = n + length rest ≡ length buf

pub read_byte-Reads : (buf : List ℕ) → 1 ≤ length buf → Reads 1 buf (read_byte buf)
read_byte-Reads [] h = absurd (omega arith)
read_byte-Reads (a ∷ r) h = omega arith

pub read_uint16-Reads : (buf : List ℕ) → 2 ≤ length buf → Reads 2 buf (read_uint16 buf)
read_uint16-Reads [] h = absurd (omega arith)
read_uint16-Reads (a ∷ []) h = absurd (omega arith)
read_uint16-Reads (a ∷ b ∷ r) h = omega arith

pub read_uint32-Reads : (buf : List ℕ) → 4 ≤ length buf → Reads 4 buf (read_uint32 buf)
read_uint32-Reads [] h = absurd (omega arith)
read_uint32-Reads (a ∷ []) h = absurd (omega arith)
read_uint32-Reads (a ∷ b ∷ []) h = absurd (omega arith)
read_uint32-Reads (a ∷ b ∷ c ∷ []) h = absurd (omega arith)
read_uint32-Reads (a ∷ b ∷ c ∷ d ∷ r) h = omega arith

pub Reads-some :
    (n : ℕ) (buf : List ℕ) (r : Option (ℕ × List ℕ))
    → Reads n buf r
    → (x : ℕ) × (rest : List ℕ) × (r ≡ some (x, rest)) × (n + length rest ≡ length buf)
Reads-some n buf none h = absurd h
Reads-some n buf (some (x, rest)) h = (x, rest, refl, h)
