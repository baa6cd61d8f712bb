-- ===== src/Kcp/Crypt/Undo.antt =====
-- What was sealed is opened again.
use dpi_warrior_native_xray.Base.{
  ℕ, zero, suc, ◌+◌, ◌-◌, ◌*◌, ◌/◌, ◌%◌, ◌^◌, ◌≤◌, ◌<◌, ◌≡◌, refl, sym, ap, ◌∙◌, inl, inr, none,
  some, List, [], ◌∷◌, ◌++◌, arith, ltb, Bool-cases, Option-cases, ltb→lt, ltb→le, length, take,
  length-append, length-take, take-length, take-all, IsU32, be16, be32, of_be16, of_be32,
  of_be32-be32, ◌>>=◌, zeros,
}
use dpi_warrior_native_xray.Base.{
  bit_xor, bit_xor-bit_xor, get_elem?, modify, get_elem?-modify_other,
}
use dpi_warrior_native_xray.Kcp.Segment.{bytes}
use dpi_warrior_native_xray.Kcp.Crypt.{
  fnv_write, fnv32a, xor_at, xor_up, xor_down, xorfwd, xorbkd, pad, seal, check, open_sealed,
}

modify_undone :
    (n : ℕ) (f g : ℕ → ℕ) (x : List ℕ) → ((a : ℕ) → f (g a) ≡ a) → modify n f (modify n g x) ≡ x
unfolding modify
modify_undone n f g [] h = refl
modify_undone zero f g (a ∷ x) h = ap (λ b. b ∷ x) (h a)
modify_undone (suc n) f g (a ∷ x) h = ap (◌∷◌ a) (modify_undone n f g x h)

length-modify : (n : ℕ) (f : ℕ → ℕ) (x : List ℕ) → length (modify n f x) ≡ length x
unfolding modify
length-modify n f [] = refl
length-modify zero f (a ∷ x) = refl
length-modify (suc n) f (a ∷ x) = ap suc (length-modify n f x)

take-modify : (l n : ℕ) (f : ℕ → ℕ) (x : List ℕ) → take l (modify n f x) ≡ modify n f (take l x)
unfolding modify
take-modify zero n f x = refl
take-modify (suc l) n f [] = refl
take-modify (suc l) zero f (a ∷ x) = refl
take-modify (suc l) (suc n) f (a ∷ x) = ap (◌∷◌ a) (take-modify l n f x)

get_elem?-take : (l k : ℕ) (x : List ℕ) → k < l → get_elem? (take l x) k ≡ get_elem? x k
unfolding get_elem?
get_elem?-take zero k x h = absurd (omega arith)
get_elem?-take (suc l) k [] h = refl
get_elem?-take (suc l) zero (a ∷ x) h = refl
get_elem?-take (suc l) (suc k) (a ∷ x) h = get_elem?-take l k x (omega arith)

modify_past : (n : ℕ) (f : ℕ → ℕ) (x : List ℕ) → length x ≤ n → modify n f x ≡ x
unfolding modify
modify_past n f [] h = refl
modify_past zero f (a ∷ x) h = absurd (omega arith)
modify_past (suc n) f (a ∷ x) h = ap (◌∷◌ a) (modify_past n f x (omega arith))

get_elem?-past : (x : List ℕ) (k : ℕ) → length x ≤ k → get_elem? x k ≡ none
unfolding get_elem?
get_elem?-past [] k h = refl
get_elem?-past (a ∷ x) zero h = absurd (omega arith)
get_elem?-past (a ∷ x) (suc k) h = get_elem?-past x k (omega arith)

xor_at-none : (k : ℕ) (x : List ℕ) → get_elem? x k ≡ none → xor_at k x ≡ x
unfolding xor_at
xor_at-none k x e = rw (e, xor_at) refl

xor_at-some :
    (k : ℕ) (x : List ℕ) (b : ℕ)
    → get_elem? x k ≡ some b
    → xor_at k x ≡ modify (k + 4) (λ a. bit_xor a b) x
unfolding xor_at
xor_at-some k x b e = rw (e, xor_at) refl

xor_at_undone : (k : ℕ) (x : List ℕ) → xor_at k (xor_at k x) ≡ x
xor_at_undone k x = elim (Option-cases (get_elem? x k)) [
  | inl e ↦ ap (xor_at k) (xor_at-none k x e) ∙ xor_at-none k x e
  | inr (b, e) ↦
      let f : ℕ → ℕ = λ a. bit_xor a b in
      let there : get_elem? (modify (k + 4) f x) k ≡ some b =
        get_elem?-modify_other x (k + 4) k f (λ q. absurd (omega arith)) ∙ e in
      ap (xor_at k) (xor_at-some k x b e)
      ∙ xor_at-some k (modify (k + 4) f x) b there
      ∙ modify_undone (k + 4) f f x (λ a. bit_xor-bit_xor a b)
]

length-xor_at : (k : ℕ) (x : List ℕ) → length (xor_at k x) ≡ length x
length-xor_at k x = elim (Option-cases (get_elem? x k)) [
  | inl e ↦ ap length (xor_at-none k x e)
  | inr (b, e) ↦ ap length (xor_at-some k x b e) ∙ length-modify (k + 4) (λ a. bit_xor a b) x
]

-- The front of the result depends on the front alone.
take-xor_at : (l k : ℕ) (x : List ℕ) → take l (xor_at k x) ≡ xor_at k (take l x)
take-xor_at l k x =
    let short : length (take l x) ≤ l = omega (arith, length-take l x) in
    elim (Bool-cases (ltb k l)) [
      | inl within ↦
          let same = get_elem?-take l k x (ltb→lt k l within) in
          elim (Option-cases (get_elem? x k)) [
            | inl e ↦ ap (take l) (xor_at-none k x e) ∙ sym (xor_at-none k (take l x) (same ∙ e))
            | inr (b, e) ↦
                ap (take l) (xor_at-some k x b e)
                ∙ take-modify l (k + 4) (λ a. bit_xor a b) x
                ∙ sym (xor_at-some k (take l x) b (same ∙ e))
          ]
      | inr past ↦
          let out : length (take l x) ≤ k = omega (arith, short, ltb→le k l past) in
          let gone = sym (xor_at-none k (take l x) (get_elem?-past (take l x) k out)) in
          elim (Option-cases (get_elem? x k)) [
            | inl e ↦ ap (take l) (xor_at-none k x e) ∙ gone
            | inr (b, e) ↦
                let f : ℕ → ℕ = λ a. bit_xor a b in
                ap (take l) (xor_at-some k x b e)
                ∙ take-modify l (k + 4) f x
                ∙ modify_past (k + 4) f (take l x) (omega (arith, out))
                ∙ gone
          ]
    ]

down-up : (n : ℕ) (x : List ℕ) → xor_down n (xor_up n x) ≡ x
unfolding xor_down xor_up
down-up zero x = refl
down-up (suc n) x = rw (xor_at_undone n (xor_up n x), down-up n x) refl

length-xor_up : (n : ℕ) (x : List ℕ) → length (xor_up n x) ≡ length x
unfolding xor_up
length-xor_up zero x = refl
length-xor_up (suc n) x = length-xor_at n (xor_up n x) ∙ length-xor_up n x

take-xor_up : (l n : ℕ) (x : List ℕ) → take l (xor_up n x) ≡ xor_up n (take l x)
unfolding xor_up
take-xor_up l zero x = refl
take-xor_up l (suc n) x = take-xor_at l n (xor_up n x) ∙ ap (xor_at n) (take-xor_up l n x)

take-xor_down : (l n : ℕ) (x : List ℕ) → take l (xor_down n x) ≡ xor_down n (take l x)
unfolding xor_down
take-xor_down l zero x = refl
take-xor_down l (suc n) x = take-xor_down l n (xor_at n x) ∙ ap (xor_down n) (take-xor_at l n x)

-- The bytes that `Seal` scrambles.
abbrev framed : List ℕ → List ℕ
framed plain = let body = be16 (length plain % 2 ^ 16) ++ plain in be32 (fnv32a body) ++ body

seal-framed :
    (plain : List ℕ)
    → seal plain ≡ some (take (length (framed plain)) (xorfwd (pad (framed plain))))
unfolding seal
seal-framed plain = refl

length-pad : (x y : List ℕ) → length x ≡ length y → length (pad x) ≡ length (pad y)
unfolding pad
length-pad x y e = ground (
  arith,
  e,
  length-append x (zeros (4 - length x % 4)),
  length-append y (zeros (4 - length y % 4)),
)

take-pad : (x : List ℕ) → take (length x) (pad x) ≡ x
unfolding pad
take-pad x =
    ground (arith, take-length x (zeros (4 - length x % 4)), take-all (length x) x (omega arith))

fnv_write-IsU32 : (h : ℕ) (x : List ℕ) → IsU32 h → IsU32 (fnv_write h x)
unfolding fnv_write
fnv_write-IsU32 h [] u = u
fnv_write-IsU32 h (a ∷ x) u = fnv_write-IsU32 (bit_xor h a * 16777619 % 2 ^ 32) x (omega arith)

check-framed : (plain : List ℕ) → length plain < 2 ^ 16 → check (framed plain) ≡ some (some plain)
unfolding check
check-framed plain small =
    let body = be16 (length plain % 2 ^ 16) ++ plain in
    let sum : of_be32 (fnv32a body / 2 ^ 24 % 256) (fnv32a body / 2 ^ 16 % 256)
          (fnv32a body / 2 ^ 8 % 256) (fnv32a body % 256)
        ≡ fnv32a body =
      of_be32-be32 (fnv32a body) (unfold fnv32a in fnv_write-IsU32 2166136261 body (omega arith)) in
    let len : of_be16 ((length plain % 2 ^ 16) / 2 ^ 8 % 256) (length plain % 2 ^ 16 % 256)
        ≡ length plain =
      omega arith in
    ground (arith, sum, len)

-- What `Seal` made of up to 65535 bytes, `Open` accepts, and gives back; neither panics. The four
-- bytes that a slice is filled up to change nothing.
pub open_sealed-seal :
    (plain : List ℕ) → length plain < 2 ^ 16 → (seal plain >>= open_sealed) ≡ some (some plain)
open_sealed-seal plain small =
    let d = framed plain in
    let n = length (pad d) - 4 in
    let sealed = take (length d) (xorfwd (pad d)) in
    let forward : sealed ≡ xor_up n d =
      unfold xorfwd in take-xor_up (length d) n (pad d) ∙ ap (xor_up n) (take-pad d) in
    let long : length sealed ≡ length d = ap length forward ∙ length-xor_up n d in
    let rounds : length (pad sealed) - 4 ≡ n = ap (λ k. k - 4) (length-pad sealed d long) in
    let backward : take (length sealed) (xorbkd (pad sealed)) ≡ d =
      unfold xorbkd in
      take-xor_down (length sealed) (length (pad sealed) - 4) (pad sealed)
      ∙ ap (xor_down (length (pad sealed) - 4)) (take-pad sealed)
      ∙ ap (λ k. xor_down k sealed) rounds
      ∙ ap (xor_down n) forward
      ∙ down-up n d in
    rw (seal-framed plain) (unfold open_sealed in ap check backward ∙ check-framed plain small)

-- `Overhead`.
pub length-seal : (plain : List ℕ) → length (bytes (seal plain)) ≡ 6 + length plain
length-seal plain =
    let d = framed plain in
    let n = length (pad d) - 4 in
    let forward : take (length d) (xorfwd (pad d)) ≡ xor_up n d =
      unfold xorfwd in take-xor_up (length d) n (pad d) ∙ ap (xor_up n) (take-pad d) in
    ap (λ r. length (bytes r)) (seal-framed plain)
    ∙ ap length forward
    ∙ length-xor_up n d
    ∙ omega arith

pub open_sealed-bytes :
    (plain : List ℕ) → length plain < 2 ^ 16 → open_sealed (bytes (seal plain)) ≡ some (some plain)
unfolding seal
open_sealed-bytes plain small = open_sealed-seal plain small
