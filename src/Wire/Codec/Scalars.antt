-- ===== src/Wire/Codec/Scalars.antt =====
-- Integers, signed integers and Booleans.
use farseer.Base.{
  refl, false, true, zero, ap₂, ◌==◌, not, if◌then◌else◌, suc, ℕ, ◌+◌, ◌*◌, ◌%◌, ◌^◌, ◌≤◌, ◌<◌, ◌≡◌,
  sym, ap, ◌∙◌, Bool, List, [], ◌∷◌, ◌++◌, arith, length, length-append,
}
use farseer.Base.Int.{to_signed-to_unsigned, to_unsigned-lt, InSignedRange, ℤ, to_unsigned}
use farseer.Base.Outcome.{ok}
use farseer.Wire.Bits.{pow_pos, double_pow, bits, length-bits, value-bits}
use farseer.Wire.Buffer.{pack, unpack}
use farseer.Wire.Ballotin.{Ballotin, IsBallotin}
use farseer.Wire.Serializer.{bool_serializer, signed_serializer, unsigned_serializer}
use farseer.Wire.Codec.Laws.{IsCodec}

abbrev pub InUnsignedRange : ℕ → ℕ → Type 0
InUnsignedRange size v = v < 2 ^ (8 * size)

abbrev pub unsigned_bits : ℕ → ℕ → List Bool
unsigned_bits size v = bits (8 * size) v

abbrev pub signed_bits : ℕ → ℤ → List Bool
signed_bits size z = bits (8 * size) (to_unsigned (2 ^ (8 * size)) z)

abbrev pub bool_bits : Bool → List Bool
bool_bits b = b ∷ []

module _ {b : Ballotin} (law : IsBallotin b) where
  push_number :
      (n v : ℕ) (bs : List Bool)
      → n ≤ 64
      → v < 2 ^ n
      → b.push_bits (pack bs) (length bs) v n ≡ (pack (bs ++ bits n v), length (bs ++ bits n v))
  push_number n v bs small fits =
      law.push bs v n small fits
      ∙ ap (λ k. (pack (bs ++ bits n v), k))
          (omega (arith, length-append bs (bits n v), length-bits n v))

  get_number :
      (n v : ℕ) (bytes : List ℕ) (pre post : List Bool)
      → n ≤ 64
      → v < 2 ^ n
      → unpack bytes ≡ pre ++ (bits n v ++ post)
      → b.get_bits bytes (length pre) n ≡ ok v
  get_number n v bytes pre post small fits e =
      ap (b.get_bits bytes (length pre)) (sym (length-bits n v))
      ∙ law.get bytes pre (bits n v) post (omega (arith, length-bits n v)) e
      ∙ ap ok (value-bits n v fits)

  offset_after : (n v : ℕ) (pre : List Bool) → length pre + n ≡ length (pre ++ bits n v)
  offset_after n v pre = omega (arith, length-append pre (bits n v), length-bits n v)

  -- Serializing an unsigned integer of at most eight bytes appends its bits, most significant
  -- first, and deserializing reads it back from where they stand.
  pub unsigned-IsCodec :
      (size : ℕ)
      → size ≤ 8
      → IsCodec (unsigned_serializer b size) (InUnsignedRange size) (unsigned_bits size)
  unfolding unsigned_serializer
  unsigned-IsCodec size small = record {
    writes = λ v bs fits.
        let same : v % 2 ^ (8 * size) ≡ v = grind arith in
        rw same (ap ok (push_number (8 * size) v bs (omega arith) fits));
    reads = λ v bytes pre post fits e.
        let same : v % 2 ^ (8 * size) ≡ v = grind arith in
        rw (get_number (8 * size) v bytes pre post (omega arith) fits e, same)
          (ap (λ k. ok (v, k)) (offset_after (8 * size) v pre));
  }

  signed_halves : (size : ℕ) → 1 ≤ size → (h : ℕ) × (2 ^ (8 * size) ≡ 2 * h) × (0 < h)
  signed_halves zero p = absurd (omega arith)
  signed_halves (suc k) p =
      let shape : 8 * suc k ≡ suc (8 * k + 7) = omega arith in
      (2 ^ (8 * k + 7), rw shape (double_pow (8 * k + 7)), pow_pos (8 * k + 7))

  -- Serializing a signed integer of one to eight bytes appends the bits of its two's complement,
  -- and deserializing reads the same integer back.
  pub signed-IsCodec :
      (size : ℕ)
      → 1 ≤ size
      → size ≤ 8
      → IsCodec (signed_serializer b size) (InSignedRange (2 ^ (8 * size))) (signed_bits size)
  unfolding signed_serializer
  signed-IsCodec size large small = record {
    writes = λ z bs r. ap ok (
        push_number (8 * size) (to_unsigned m z) bs (omega arith)
          (to_unsigned-lt m z (pow_pos _) r));
    reads = λ z bytes pre post r e.
        let fits : to_unsigned m z < m = to_unsigned-lt m z (pow_pos _) r in
        let same : to_unsigned m z % m ≡ to_unsigned m z = grind arith in
        let (h, halves, some_h) = signed_halves size large in
        rw
          (
            get_number (8 * size) (to_unsigned m z) bytes pre post (omega arith) fits e,
            same,
            to_signed-to_unsigned m h z halves some_h r,
          )
          (ap (λ k. ok (z, k)) (offset_after (8 * size) (to_unsigned m z) pre));
  }
    where
      m : ℕ
      m = 2 ^ (8 * size)

  bool_number : (v : Bool) → bits 1 (if v then 1 else 0) ≡ v ∷ []
  unfolding bits
  bool_number true = refl
  bool_number false = refl

  bool_fits : (v : Bool) → (if v then 1 else 0) < 2 ^ 1
  bool_fits true = omega arith
  bool_fits false = omega arith

  bool_back : (v : Bool) → not ((if v then 1 else 0) == 0) ≡ v
  bool_back true = refl
  bool_back false = refl

  -- A boolean is written as one bit and read back.
  pub bool-IsCodec : IsCodec (bool_serializer b) (λ v. Unit {0}) bool_bits
  unfolding bool_serializer
  bool-IsCodec = record {
    writes = λ v bs _.
        ap ok (push_number 1 (if v then 1 else 0) bs (omega arith) (bool_fits v))
        ∙ ap (λ xs. ok (pack (bs ++ xs), length (bs ++ xs))) (bool_number v);
    reads = λ v bytes pre post _ e.
        let number = bool_number v in
        rw
          (get_number 1 (if v then 1 else 0) bytes pre post (omega arith) (bool_fits v)
            (e ∙ ap (λ xs. pre ++ (xs ++ post)) (sym number)))
          (ap₂ (λ w k. ok (w, k)) (bool_back v) (omega (arith, length-append pre (v ∷ []))));
  }
