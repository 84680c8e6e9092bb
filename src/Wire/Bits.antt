-- ===== src/Wire/Bits.antt =====
-- The layout of a buffer of bits, most significant bit first: what the byte vectors and bit offsets
-- of binary_serialization.hpp stand for.
use farseer.Base.{
  ◌≤◌, ℕ, zero, suc, ◌+◌, ◌*◌, ◌/◌, ◌%◌, ◌^◌, ◌<◌, ◌≡◌, refl, ap, ◌∙◌, Bool, true, false, List, [],
  ◌∷◌, ◌++◌, append-nil, arith, ◌==◌, length,
}

abbrev pub bit : Bool → ℕ
bit true = 1
bit false = 0

bit_le : (b : Bool) → bit b ≤ 1
bit_le true = omega arith
bit_le false = omega arith

abbrev pub odd : ℕ → Bool
odd n = n % 2 == 1

-- The `n` low bits of `v` in front of `rest`.
bits_onto : ℕ → ℕ → List Bool → List Bool
bits_onto zero v rest = rest
bits_onto (suc n) v rest = bits_onto n (v / 2) (odd v ∷ rest)

unfoldable pub bits : ℕ → ℕ → List Bool
unfolding bits_onto
bits n v = bits_onto n v []

value_from : ℕ → List Bool → ℕ
value_from acc [] = acc
value_from acc (b ∷ bs) = value_from (2 * acc + bit b) bs

-- The number that a run of bits spells.
unfoldable pub value : List Bool → ℕ
unfolding value_from
value bs = value_from 0 bs

bits_onto-append : (n v : ℕ) (xs ys : List Bool) → bits_onto n v (xs ++ ys) ≡ bits_onto n v xs ++ ys
unfolding bits_onto
bits_onto-append zero v xs ys = refl
bits_onto-append (suc n) v xs ys = bits_onto-append n (v / 2) (odd v ∷ xs) ys

length-bits_onto : (n v : ℕ) (xs : List Bool) → length (bits_onto n v xs) ≡ n + length xs
unfolding bits_onto
length-bits_onto zero v xs = omega arith
length-bits_onto (suc n) v xs = omega (arith, length-bits_onto n (v / 2) (odd v ∷ xs))

pub length-bits : (n v : ℕ) → length (bits n v) ≡ n
unfolding bits
length-bits n v = omega (arith, length-bits_onto n v [])

half_of : (a : ℕ) (b : Bool) → (2 * a + bit b) / 2 ≡ a
half_of a true = omega arith
half_of a false = omega arith

odd_of : (a : ℕ) (b : Bool) → odd (2 * a + bit b) ≡ b
odd_of a true = ground arith
odd_of a false = ground arith

bits_onto-value_from :
    (bs : List Bool) (k acc : ℕ) (rest : List Bool)
    → bits_onto (length bs + k) (value_from acc bs) rest ≡ bits_onto k acc (bs ++ rest)
unfolding bits_onto value_from
bits_onto-value_from [] k acc rest =
    let same : 0 + k ≡ k = omega arith in ap (λ n. bits_onto n acc rest) same
bits_onto-value_from (b ∷ bs) k acc rest =
    let same : suc (length bs) + k ≡ length bs + suc k = omega arith in
    ap (λ n. bits_onto n (value_from (2 * acc + bit b) bs) rest) same
    ∙ bits_onto-value_from bs (suc k) (2 * acc + bit b) rest
    ∙ rw (half_of acc b, odd_of acc b)

-- The bits of the number that a run spells are the run.
pub bits-value : (bs : List Bool) → bits (length bs) (value bs) ≡ bs
unfolding bits value
bits-value bs =
    let same : length bs ≡ length bs + 0 = omega arith in
    ap (λ n. bits_onto n (value bs) []) same ∙ bits_onto-value_from bs 0 0 [] ∙ append-nil bs

pub double_pow : (n : ℕ) → 2 ^ suc n ≡ 2 * 2 ^ n
double_pow n = grind arith

pub pow_pos : (n : ℕ) → 0 < 2 ^ n
pow_pos zero = omega arith
pow_pos (suc n) = omega (arith, double_pow n, pow_pos n)

bit_of_odd : (v : ℕ) → bit (odd v) ≡ v % 2
bit_of_odd v = ground arith

value_from-bits_onto :
    (n v acc : ℕ) (rest : List Bool)
    → v < 2 ^ n
    → value_from acc (bits_onto n v rest) ≡ value_from (acc * 2 ^ n + v) rest
unfolding bits_onto value_from
value_from-bits_onto zero v acc rest h =
    let same : acc ≡ acc * 2 ^ 0 + v = omega arith in ap (λ a. value_from a rest) same
value_from-bits_onto (suc n) v acc rest h =
    value_from-bits_onto n (v / 2) acc (odd v ∷ rest) (omega (arith, double_pow n))
    ∙ ap (λ a. value_from a rest)
        (omega (arith, bit_of_odd v, double_pow n, ap (λ (t : ℕ). acc * t) (double_pow n)))

-- A number that fits is read back from its bits.
pub value-bits : (n v : ℕ) → v < 2 ^ n → value (bits n v) ≡ v
unfolding bits value
value-bits n v h = value_from-bits_onto n v 0 [] h ∙ omega arith

value_from-lt : (bs : List Bool) (acc : ℕ) → value_from acc bs < (acc + 1) * 2 ^ length bs
unfolding value_from
value_from-lt [] acc = omega arith
value_from-lt (b ∷ bs) acc =
    let half : 2 ^ suc (length bs) ≡ 2 * 2 ^ length bs = double_pow (length bs) in
    grind (arith, value_from-lt bs (2 * acc + bit b), half, bit_le b)

pub value-lt : (bs : List Bool) → value bs < 2 ^ length bs
unfolding value
value-lt bs = omega (arith, value_from-lt bs 0)
