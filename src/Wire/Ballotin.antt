-- ===== src/Wire/Ballotin.antt =====
-- What the program calls of the ballotin library, which is not part of this repository: the bit
-- buffers of binary.hpp and the size conversions of type_prototype.hpp.
use farseer.Base.{
  ℕ, ◌+◌, ◌/◌, ◌%◌, ◌^◌, ◌≤◌, ◌<◌, ◌≡◌, refl, ap, Bool, List, ◌++◌, arith, length, length-append,
  take, drop, take-length-append, drop-length-append, leb, ltb, if◌then◌else◌, le→leb, lt→ltb,
}
use farseer.Base.Outcome.{Outcome, ok, err, binary_error, conversion_error}
use farseer.Wire.Bits.{bits, value}
use farseer.Wire.Buffer.{pack, unpack, padding, unpack-pack}

abbrev pub bits_per_byte : ℕ
bits_per_byte = 8

pub record Ballotin : Type 0 where
  -- pushBitsMostSignificant(bytes, bitsOffset, bits, count), with the new bytes and offset
  pub push_bits : List ℕ → ℕ → ℕ → ℕ → List ℕ × ℕ
  -- getMostSignificantBits(bytes, bitsOffset, count)
  pub get_bits : List ℕ → ℕ → ℕ → Outcome ℕ
  -- numberOfBitsToNumberOfBytes
  pub number_of_bytes : ℕ → ℕ
  -- ProtocolSize::fromSizeType, a checked conversion to 32 bits
  pub size_from : ℕ → Outcome ℕ
  -- the addition of two ProtocolSize values
  pub size_add : ℕ → ℕ → ℕ

-- What the program relies on. Pushing writes the low `count` bits behind the `bitsOffset` that are
-- there; getting reads `count` bits at `bitsOffset`; the number of bytes is rounded up; sizes that fit
-- 32 bits are converted, and added, without a change.
pub record IsBallotin (b : Ballotin) : Type 0 where
  pub push :
      (bs : List Bool) (v n : ℕ)
      → n ≤ 64
      → v < 2 ^ n
      → b.push_bits (pack bs) (length bs) v n ≡ (pack (bs ++ bits n v), length bs + n)
  pub get :
      (bytes : List ℕ) (pre bs post : List Bool)
      → length bs ≤ 64
      → unpack bytes ≡ pre ++ (bs ++ post)
      → b.get_bits bytes (length pre) (length bs) ≡ ok (value bs)
  pub bytes : (n : ℕ) → b.number_of_bytes n ≡ (n + 7) / 8
  pub size : (n : ℕ) → n < 2 ^ 32 → b.size_from n ≡ ok n
  pub add : (m n : ℕ) → m + n < 2 ^ 32 → b.size_add m n ≡ m + n

-- An implementation by lists of bits: the laws can be met.
abbrev pub list_ballotin : Ballotin
list_ballotin = record {
  push_bits = λ bytes offset v n. (pack (take offset (unpack bytes) ++ bits n v), offset + n);
  get_bits = λ bytes offset n.
      if leb (offset + n) (length (unpack bytes))
      then ok (value (take n (drop offset (unpack bytes))))
      else err binary_error;
  number_of_bytes = λ n. (n + 7) / 8;
  size_from = λ n. if ltb n (2 ^ 32) then ok n else err conversion_error;
  size_add = λ m n. (m + n) % 2 ^ 32;
}

pub list_ballotin-IsBallotin : IsBallotin list_ballotin
list_ballotin-IsBallotin = record {
  push = λ bs v n small fits. rw (unpack-pack bs, take-length-append bs (padding bs)) refl;
  get = λ bytes pre bs post small e.
      let fits : length pre + length bs ≤ length (unpack bytes) =
        omega (arith, ap length e, length-append pre (bs ++ post), length-append bs post) in
      rw (le→leb _ _ fits, e, drop-length-append pre (bs ++ post), take-length-append bs post) refl;
  bytes = λ n. refl;
  size = λ n h. rw (lt→ltb n _ h) refl;
  add = λ m n h. omega arith;
}
