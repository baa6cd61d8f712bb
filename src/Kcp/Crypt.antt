-- ===== src/Kcp/Crypt.antt =====
-- crypt.go and xor.go: the authenticator of packets that have no seed.
-- Seal is given a slice of length 0 with room for what it appends, and Open one of length 0 too, so both
-- start from nothing. `none` is a panic, and an inner `none` the error "invalid auth".
pub mod Undo
mod Tests
use dpi_warrior_native_xray.Base.{
  ℕ, zero, suc, ◌+◌, ◌-◌, ◌*◌, ◌%◌, ◌^◌, Option, none, some, List, [], ◌∷◌, ◌++◌, ◌==◌,
  if◌then◌else◌, length, take, drop, get_elem?, modify, be16, be32, bit_xor, ◌>>=◌, read_uint16,
  read_uint32, put_at, zeros,
}

-- hash/fnv, New32a, of the standard library: FNV-1a.
unfoldable pub fnv_write : ℕ → List ℕ → ℕ
fnv_write hash [] = hash
fnv_write hash (x ∷ xs) = fnv_write (bit_xor hash x * 16777619 % 2 ^ 32) xs

unfoldable pub fnv32a : List ℕ → ℕ
unfolding fnv_write
fnv32a xs = fnv_write 2166136261 xs

-- `x[k+4] ^= x[k]`, with both places in range: the loops stop at the end of the slice.
unfoldable pub xor_at : ℕ → List ℕ → List ℕ
xor_at k x = elim (get_elem? x k) [ none ↦ x | some b ↦ modify (k + 4) (λ a. bit_xor a b) x ]

-- The first `n` rounds of the loop of `xorfwd`, i = 4, 5, and so on.
unfoldable pub xor_up : ℕ → List ℕ → List ℕ
xor_up zero x = x
xor_up (suc n) x = xor_at n (xor_up n x)

-- The last `n` rounds of the loop of `xorbkd`, down to i = 4.
unfoldable pub xor_down : ℕ → List ℕ → List ℕ
xor_down zero x = x
xor_down (suc n) x = xor_down n (xor_at n x)

unfoldable pub xorfwd : List ℕ → List ℕ
xorfwd x = xor_up (length x - 4) x

unfoldable pub xorbkd : List ℕ → List ℕ
xorbkd x = xor_down (length x - 4) x

-- `xtra` zeros to a multiple of four, and none if it is one.
unfoldable pub pad : List ℕ → List ℕ
pad dst = let xtra = 4 - length dst % 4 in if xtra == 4 then dst else dst ++ zeros xtra

unfoldable pub seal : List ℕ → Option (List ℕ)
seal plain = do
  dst ← put_at 4 (be16 (length plain % 2 ^ 16)) (zeros 6)
  dst ← put_at 0 (be32 (fnv32a (drop 4 (dst ++ plain)))) (dst ++ plain)
  some (take (length dst) (xorfwd (pad dst)))

-- The checks of `Open` on the restored bytes.
unfoldable pub check : List ℕ → Option (Option (List ℕ))
check dst = read_uint32 dst >>= λ (sum, body).
    if sum == fnv32a body
    then (read_uint16 body >>= λ (len, plain).
        some (if length plain == len then some plain else none))
    else some none

unfoldable pub open_sealed : List ℕ → Option (Option (List ℕ))
open_sealed cipher_text = check (take (length cipher_text) (xorbkd (pad cipher_text)))
