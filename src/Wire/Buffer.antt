-- ===== src/Wire/Buffer.antt =====
-- Byte vectors as runs of bits, and the part of ballotin's binary.hpp that the program calls.
use farseer.Base.{
  ◌+◌, ◌^◌, append-nil, subst, All, ◌<◌, ℕ, ◌*◌, ◌≡◌, refl, sym, ap, ◌∙◌, Bool, false, List, [],
  ◌∷◌, ◌++◌, append_assoc, arith, length, length-append, replicate,
}
use farseer.Wire.Bits.{value-lt, value-bits, bits, value, bits-value, length-bits}

-- A byte for each eight bits; the last one is filled up with zeros.
unfoldable pub pack : List Bool → List ℕ
pack (a ∷ b ∷ c ∷ d ∷ e ∷ f ∷ g ∷ h ∷ rest) = value (a ∷ b ∷ c ∷ d ∷ e ∷ f ∷ g ∷ h ∷ []) ∷ pack rest
pack [] = []
pack (a ∷ []) = value (a ∷ replicate 7 false) ∷ []
pack (a ∷ b ∷ []) = value (a ∷ b ∷ replicate 6 false) ∷ []
pack (a ∷ b ∷ c ∷ []) = value (a ∷ b ∷ c ∷ replicate 5 false) ∷ []
pack (a ∷ b ∷ c ∷ d ∷ []) = value (a ∷ b ∷ c ∷ d ∷ replicate 4 false) ∷ []
pack (a ∷ b ∷ c ∷ d ∷ e ∷ []) = value (a ∷ b ∷ c ∷ d ∷ e ∷ replicate 3 false) ∷ []
pack (a ∷ b ∷ c ∷ d ∷ e ∷ f ∷ []) = value (a ∷ b ∷ c ∷ d ∷ e ∷ f ∷ replicate 2 false) ∷ []
pack (a ∷ b ∷ c ∷ d ∷ e ∷ f ∷ g ∷ []) = value (a ∷ b ∷ c ∷ d ∷ e ∷ f ∷ g ∷ false ∷ []) ∷ []

unfoldable pub unpack : List ℕ → List Bool
unpack [] = []
unpack (b ∷ bs) = bits 8 b ++ unpack bs

-- The zeros that fill up the last byte.
unfoldable pub padding : List Bool → List Bool
padding (a ∷ b ∷ c ∷ d ∷ e ∷ f ∷ g ∷ h ∷ rest) = padding rest
padding [] = []
padding (a ∷ []) = replicate 7 false
padding (a ∷ b ∷ []) = replicate 6 false
padding (a ∷ b ∷ c ∷ []) = replicate 5 false
padding (a ∷ b ∷ c ∷ d ∷ []) = replicate 4 false
padding (a ∷ b ∷ c ∷ d ∷ e ∷ []) = replicate 3 false
padding (a ∷ b ∷ c ∷ d ∷ e ∷ f ∷ []) = replicate 2 false
padding (a ∷ b ∷ c ∷ d ∷ e ∷ f ∷ g ∷ []) = false ∷ []

byte_bits : (bs rest : List Bool) → length bs ≡ 8 → bits 8 (value bs) ++ rest ≡ bs ++ rest
byte_bits bs rest h =
    ap (λ (n : ℕ). bits n (value bs) ++ rest) (sym h) ∙ ap (λ xs. xs ++ rest) (bits-value bs)

pub unpack-pack : (bs : List Bool) → unpack (pack bs) ≡ bs ++ padding bs
unfolding unpack pack padding
unpack-pack (a ∷ b ∷ c ∷ d ∷ e ∷ f ∷ g ∷ h ∷ rest) =
    byte_bits (a ∷ b ∷ c ∷ d ∷ e ∷ f ∷ g ∷ h ∷ []) (unpack (pack rest)) refl
    ∙ ap (λ xs. a ∷ b ∷ c ∷ d ∷ e ∷ f ∷ g ∷ h ∷ xs) (unpack-pack rest)
unpack-pack [] = refl
unpack-pack (a ∷ []) = byte_bits (a ∷ replicate 7 false) [] refl
unpack-pack (a ∷ b ∷ []) = byte_bits (a ∷ b ∷ replicate 6 false) [] refl
unpack-pack (a ∷ b ∷ c ∷ []) = byte_bits (a ∷ b ∷ c ∷ replicate 5 false) [] refl
unpack-pack (a ∷ b ∷ c ∷ d ∷ []) = byte_bits (a ∷ b ∷ c ∷ d ∷ replicate 4 false) [] refl
unpack-pack (a ∷ b ∷ c ∷ d ∷ e ∷ []) = byte_bits (a ∷ b ∷ c ∷ d ∷ e ∷ replicate 3 false) [] refl
unpack-pack (a ∷ b ∷ c ∷ d ∷ e ∷ f ∷ []) =
    byte_bits (a ∷ b ∷ c ∷ d ∷ e ∷ f ∷ replicate 2 false) [] refl
unpack-pack (a ∷ b ∷ c ∷ d ∷ e ∷ f ∷ g ∷ []) =
    byte_bits (a ∷ b ∷ c ∷ d ∷ e ∷ f ∷ g ∷ false ∷ []) [] refl

pub length-unpack : (bytes : List ℕ) → length (unpack bytes) ≡ 8 * length bytes
unfolding unpack
length-unpack [] = refl
length-unpack (b ∷ bs) =
    omega (arith, length-append (bits 8 b) (unpack bs), length-bits 8 b, length-unpack bs)

pub unpack-append : (xs ys : List ℕ) → unpack (xs ++ ys) ≡ unpack xs ++ unpack ys
unfolding unpack
unpack-append [] ys = refl
unpack-append (x ∷ xs) ys =
    ap (◌++◌ (bits 8 x)) (unpack-append xs ys)
    ∙ sym (append_assoc (bits 8 x) (unpack xs) (unpack ys))

abbrev pub IsByte : ℕ → Type 0
IsByte b = b < 256

pack_byte : (b : ℕ) (xs : List Bool) → IsByte b → pack (bits 8 b ++ xs) ≡ b ∷ pack xs
unfolding pack bits
pack_byte b xs h = ap (λ v. v ∷ pack xs) (unfold bits in value-bits 8 b h)

-- Whole bytes are left alone by what is packed behind them.
pub pack-unpack-append :
    (bytes : List ℕ) (xs : List Bool)
    → All IsByte bytes
    → pack (unpack bytes ++ xs) ≡ bytes ++ pack xs
unfolding unpack
pack-unpack-append [] xs h = refl
pack-unpack-append (b ∷ bytes) xs h =
    ap pack (append_assoc (bits 8 b) (unpack bytes) xs)
    ∙ pack_byte b (unpack bytes ++ xs) h.0
    ∙ ap (◌∷◌ b) (pack-unpack-append bytes xs h.1)

pub pack-unpack : (bytes : List ℕ) → All IsByte bytes → pack (unpack bytes) ≡ bytes
unfolding pack
pack-unpack bytes h =
    ap pack (sym (append-nil (unpack bytes))) ∙ pack-unpack-append bytes [] h ∙ append-nil bytes

IsByte-value : (bs : List Bool) → length bs ≡ 8 → IsByte (value bs)
IsByte-value bs h = subst (λ n. value bs < 2 ^ n) h (value-lt bs)

pub pack-IsByte : (bs : List Bool) → All IsByte (pack bs)
unfolding pack
pack-IsByte (a ∷ b ∷ c ∷ d ∷ e ∷ f ∷ g ∷ h ∷ rest) =
    (IsByte-value (a ∷ b ∷ c ∷ d ∷ e ∷ f ∷ g ∷ h ∷ []) refl, pack-IsByte rest)
pack-IsByte [] = tt
pack-IsByte (a ∷ []) = (IsByte-value (a ∷ replicate 7 false) refl, tt)
pack-IsByte (a ∷ b ∷ []) = (IsByte-value (a ∷ b ∷ replicate 6 false) refl, tt)
pack-IsByte (a ∷ b ∷ c ∷ []) = (IsByte-value (a ∷ b ∷ c ∷ replicate 5 false) refl, tt)
pack-IsByte (a ∷ b ∷ c ∷ d ∷ []) = (IsByte-value (a ∷ b ∷ c ∷ d ∷ replicate 4 false) refl, tt)
pack-IsByte (a ∷ b ∷ c ∷ d ∷ e ∷ []) =
    (IsByte-value (a ∷ b ∷ c ∷ d ∷ e ∷ replicate 3 false) refl, tt)
pack-IsByte (a ∷ b ∷ c ∷ d ∷ e ∷ f ∷ []) =
    (IsByte-value (a ∷ b ∷ c ∷ d ∷ e ∷ f ∷ replicate 2 false) refl, tt)
pack-IsByte (a ∷ b ∷ c ∷ d ∷ e ∷ f ∷ g ∷ []) =
    (IsByte-value (a ∷ b ∷ c ∷ d ∷ e ∷ f ∷ g ∷ false ∷ []) refl, tt)

pub padding-lt : (bs : List Bool) → length (padding bs) < 8
unfolding padding
padding-lt (a ∷ b ∷ c ∷ d ∷ e ∷ f ∷ g ∷ h ∷ rest) = padding-lt rest
padding-lt [] = omega arith
padding-lt (a ∷ []) = omega arith
padding-lt (a ∷ b ∷ []) = omega arith
padding-lt (a ∷ b ∷ c ∷ []) = omega arith
padding-lt (a ∷ b ∷ c ∷ d ∷ []) = omega arith
padding-lt (a ∷ b ∷ c ∷ d ∷ e ∷ []) = omega arith
padding-lt (a ∷ b ∷ c ∷ d ∷ e ∷ f ∷ []) = omega arith
padding-lt (a ∷ b ∷ c ∷ d ∷ e ∷ f ∷ g ∷ []) = omega arith

pub length-pack : (bs : List Bool) → 8 * length (pack bs) ≡ length bs + length (padding bs)
length-pack bs =
    sym (length-unpack (pack bs)) ∙ ap length (unpack-pack bs) ∙ length-append bs (padding bs)
