-- ===== src/Web/AvatarHash.antt =====
-- The hash of Web/Avatars.antt against the same hash on 32 bits without a sign.
use Prim.Native.Nat.{bit_xor, bit_xor-bitwise, digits, differ}
use faf_hackathon_challenge.Prelude.{
  ℕ, zero, suc, ◌+◌, ◌*◌, ◌/◌, ◌%◌, ◌^◌, ◌≤◌, ◌<◌, String, ◌≡◌, refl, ◌∙◌, ap, sym, subst, List, [],
  ◌∷◌, arith, All,
}
use faf_hackathon_challenge.Prelude.Int.{ℤ, pos, negsuc}
use faf_hackathon_challenge.Values.CodeUnits.{code_units, code_units-lt}
use faf_hackathon_challenge.Web.Avatars.{
  times_33, to_uint32, signed32, xor32, next_hash, hash_from, hash_seed,
}

abbrev pub doubled : ℕ → ℕ
doubled zero = 1
doubled (suc k) = doubled k * 2

differ_lt : (x y : ℕ) → x < 2 → y < 2 → differ x y < 2
differ_lt zero y p q = q
differ_lt (suc zero) zero p q = p
differ_lt (suc zero) (suc y) p q = omega arith
differ_lt (suc (suc x)) y p q = absurd (omega arith)

digits_lt : (k n a b : ℕ) → a < doubled k → b < doubled k → digits (λ d. d) differ n a b < doubled k
digits_lt k zero a b p q = q
digits_lt k (suc n) zero b p q = q
digits_lt zero (suc n) (suc a) b p q = absurd (omega arith)
digits_lt (suc k) (suc n) (suc a) b p q =
    let low = differ_lt (suc a % 2) (b % 2) (omega arith) (omega arith) in
    let high = digits_lt k n (suc a / 2) (b / 2) (omega arith) (omega arith) in
    omega (arith, low, high)

bit_xor_lt : (a b : ℕ) → a < 2 ^ 32 → b < 2 ^ 32 → bit_xor a b < 2 ^ 32
bit_xor_lt a b p q =
    subst (λ (n : ℕ). n < 2 ^ 32) (sym (bit_xor-bitwise a b)) (digits_lt 32 a a b p q)

to_uint32-signed32 : (w : ℕ) → w < 2 ^ 32 → to_uint32 (signed32 w) ≡ w
to_uint32-signed32 w h = ground arith

to_uint32_lt : (h : ℤ) → to_uint32 h < 2 ^ 32
to_uint32_lt (pos n) = omega arith
to_uint32_lt (negsuc n) = omega arith

to_uint32-times_33 : (h : ℤ) → to_uint32 (times_33 h) ≡ to_uint32 h * 33 % 2 ^ 32
to_uint32-times_33 (pos n) = omega arith
to_uint32-times_33 (negsuc n) = omega arith

-- The hash with numbers that wrap around at 2 ^ 32.
abbrev pub djb2 : ℕ → List ℕ → ℕ
djb2 hash [] = hash
djb2 hash (c ∷ cs) = djb2 (bit_xor (hash * 33 % 2 ^ 32) c) cs

next_hash-djb2 :
    (h : ℤ) (c : ℕ)
    → c < 0x10000
    → to_uint32 (next_hash h c) ≡ bit_xor (to_uint32 h * 33 % 2 ^ 32) c
unfolding xor32
next_hash-djb2 h c p =
    to_uint32-signed32 (bit_xor (to_uint32 (times_33 h)) (c % 2 ^ 32))
      (bit_xor_lt (to_uint32 (times_33 h)) (c % 2 ^ 32) (to_uint32_lt (times_33 h)) (omega arith))
    ∙ ap (λ x. bit_xor x (c % 2 ^ 32)) (to_uint32-times_33 h)
    ∙ ap (bit_xor (to_uint32 h * 33 % 2 ^ 32)) (omega arith)

hash_from-djb2 :
    (h : ℤ) (cs : List ℕ)
    → All (λ c. c < 0x10000) cs
    → to_uint32 (hash_from h cs) ≡ djb2 (to_uint32 h) cs
unfolding hash_from
hash_from-djb2 h [] p = refl
hash_from-djb2 h (c ∷ cs) (p, ps) =
    hash_from-djb2 (next_hash h c) cs ps ∙ ap (λ x. djb2 x cs) (next_hash-djb2 h c p)

abbrev pub magnitude : ℤ → ℕ
magnitude (pos n) = n
magnitude (negsuc n) = n + 1

-- Each product of the loop is a safe integer.
abbrev pub AreSafe : ℤ → List ℕ → Type 0
AreSafe h [] = Unit
AreSafe h (c ∷ cs) = (magnitude (times_33 h) < 2 ^ 53) × AreSafe (next_hash h c) cs

magnitude-signed32 : (w : ℕ) → w < 2 ^ 32 → magnitude (signed32 w) ≤ 2 ^ 31
magnitude-signed32 w h = ground arith

magnitude-times_33 : (h : ℤ) → magnitude h ≤ 2 ^ 31 → magnitude (times_33 h) < 2 ^ 53
magnitude-times_33 (pos n) p = omega arith
magnitude-times_33 (negsuc n) p = omega arith

magnitude-next_hash : (h : ℤ) (c : ℕ) → magnitude (next_hash h c) ≤ 2 ^ 31
unfolding xor32
magnitude-next_hash h c =
    magnitude-signed32 (bit_xor (to_uint32 (times_33 h)) (c % 2 ^ 32))
      (bit_xor_lt (to_uint32 (times_33 h)) (c % 2 ^ 32) (to_uint32_lt (times_33 h)) (omega arith))

hash_from-AreSafe : (h : ℤ) (cs : List ℕ) → magnitude h ≤ 2 ^ 31 → AreSafe h cs
hash_from-AreSafe h [] p = tt
hash_from-AreSafe h (c ∷ cs) p =
    (magnitude-times_33 h p, hash_from-AreSafe (next_hash h c) cs (magnitude-next_hash h c))

-- For any seed, the hash that is computed with signed 32-bit operations on floating-point products is
-- the one that wraps around at 2 ^ 32: it is below that, and no product on the way leaves the
-- safe integers, so none is rounded.
pub hash_seed-djb2 :
    (seed : String)
    → (hash_seed seed ≡ djb2 5381 (code_units seed))
      × (hash_seed seed < 2 ^ 32)
      × AreSafe (pos 5381) (code_units seed)
unfolding hash_seed
hash_seed-djb2 seed = (
  hash_from-djb2 (pos 5381) (code_units seed) (code_units-lt seed),
  to_uint32_lt (hash_from (pos 5381) (code_units seed)),
  hash_from-AreSafe (pos 5381) (code_units seed) (omega arith),
)
