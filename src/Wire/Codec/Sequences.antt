-- ===== src/Wire/Codec/Sequences.antt =====
-- Values one behind the other: fields, vectors and strings.
use farseer.Base.{
  ℕ, ◌^◌, ◌<◌, ◌≡◌, sym, ap, ◌∙◌, Bool, List, [], ◌∷◌, ◌++◌, append-nil, append_assoc, arith,
  length, All,
}
use farseer.Base.Outcome.{ok}
use farseer.Wire.Buffer.{pack, unpack}
use farseer.Wire.Ballotin.{Ballotin, IsBallotin}
use farseer.Wire.Serializer.{
  Serializer, write_elements, read_elements, vector_serializer, string_serializer,
}
use farseer.Wire.Codec.Laws.{IsCodec}
use farseer.Wire.Codec.Scalars.{InUnsignedRange, unsigned_bits, unsigned-IsCodec}

-- The bits of a list of values.
abbrev pub concat_bits : {A : Type 0} → (A → List Bool) → List A → List Bool
concat_bits encode [] = []
concat_bits encode (x ∷ xs) = encode x ++ concat_bits encode xs

-- To find the first and the second of two runs of bits.
pub first_run :
    {u : List Bool} (pre a b post : List Bool)
    → u ≡ pre ++ ((a ++ b) ++ post)
    → u ≡ pre ++ (a ++ (b ++ post))
first_run pre a b post e = e ∙ ap (◌++◌ pre) (append_assoc a b post)

pub second_run :
    {u : List Bool} (pre a b post : List Bool)
    → u ≡ pre ++ ((a ++ b) ++ post)
    → u ≡ (pre ++ a) ++ (b ++ post)
second_run pre a b post e = first_run pre a b post e ∙ sym (append_assoc pre a (b ++ post))

pub written : (bs a b : List Bool) → pack ((bs ++ a) ++ b) ≡ pack (bs ++ (a ++ b))
written bs a b = ap pack (append_assoc bs a b)

module _ {A : Type 0} {s : Serializer A} {InRange : A → Type 0} {encode : A → List Bool}
    (b : Ballotin) (codec : IsCodec s InRange encode) where
  write_elements_lem :
      (xs : List A) (bs : List Bool)
      → All InRange xs
      → write_elements b s xs (pack bs) (length bs)
        ≡ ok (pack (bs ++ concat_bits encode xs), length (bs ++ concat_bits encode xs))
  unfolding write_elements
  write_elements_lem [] bs r = ap (λ xs. ok (pack xs, length xs)) (sym (append-nil bs))
  write_elements_lem (x ∷ xs) bs r =
      rw (codec.writes x bs r.0, write_elements_lem xs (bs ++ encode x) r.1)
        (ap (λ ys. ok (pack ys, length ys)) (append_assoc bs (encode x) (concat_bits encode xs)))

  read_elements_lem :
      (xs : List A) (bytes : List ℕ) (pre post : List Bool)
      → All InRange xs
      → unpack bytes ≡ pre ++ (concat_bits encode xs ++ post)
      → read_elements b s (length xs) bytes (length pre)
        ≡ ok (xs, length (pre ++ concat_bits encode xs))
  unfolding read_elements
  read_elements_lem [] bytes pre post r e = ap (λ xs. ok ([], length xs)) (sym (append-nil pre))
  read_elements_lem (x ∷ xs) bytes pre post r e =
      let rest = concat_bits encode xs in
      rw
        (
          codec.reads x bytes pre (rest ++ post) r.0 (first_run pre (encode x) rest post e),
          read_elements_lem xs bytes (pre ++ encode x) post r.1
              (second_run pre (encode x) rest post e),
        )
        (ap (λ ys. ok (x ∷ xs, length ys)) (append_assoc pre (encode x) rest))

-- The number of elements, then each.
abbrev pub vector_bits : {A : Type 0} → (A → List Bool) → List A → List Bool
vector_bits encode xs = unsigned_bits 4 (length xs) ++ concat_bits encode xs

abbrev pub VectorInRange : {A : Type 0} → (A → Type 0) → List A → Type 0
VectorInRange InRange xs = (length xs < 2 ^ 32) × All InRange xs

module _ {A : Type 0} {s : Serializer A} {InRange : A → Type 0} {encode : A → List Bool}
    {b : Ballotin} (law : IsBallotin b) (codec : IsCodec s InRange encode) where
  -- If the element's serializer writes and reads an encoding, the serializer of vectors of fewer
  -- than 2^32 elements writes the number of elements and each encoding in order, and reads the same
  -- vector back.
  pub vector-IsCodec : IsCodec (vector_serializer b s) (VectorInRange InRange) (vector_bits encode)
  unfolding vector_serializer
  vector-IsCodec = record {
    writes = λ xs bs r.
        let size = unsigned_bits 4 (length xs) in
        rw
          (
            law.size (length xs) r.0,
            (unsigned-IsCodec law 4 (omega arith)).writes (length xs) bs r.0,
            write_elements_lem b codec xs (bs ++ size) r.1,
          )
          (ap (λ ys. ok (pack ys, length ys)) (append_assoc bs size (concat_bits encode xs)));
    reads = λ xs bytes pre post r e.
        let size = unsigned_bits 4 (length xs) in
        let rest = concat_bits encode xs in
        rw
          (
            (unsigned-IsCodec law 4 (omega arith)).reads (length xs) bytes pre (rest ++ post) r.0
                (first_run pre size rest post e),
            read_elements_lem b codec xs bytes (pre ++ size) post r.1
                (second_run pre size rest post e),
          )
          (ap (λ ys. ok (xs, length ys)) (append_assoc pre size rest));
  }

abbrev pub StringInRange : List ℕ → Type 0
StringInRange = VectorInRange (InUnsignedRange 1)

abbrev pub string_bits : List ℕ → List Bool
string_bits = vector_bits (unsigned_bits 1)

-- A string of fewer than 2^32 chars is written as its length and its chars, and read back.
pub string-IsCodec :
    {b : Ballotin} (law : IsBallotin b) → IsCodec (string_serializer b) StringInRange string_bits
unfolding string_serializer
string-IsCodec law = vector-IsCodec law (unsigned-IsCodec law 1 (omega arith))
