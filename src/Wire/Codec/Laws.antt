-- ===== src/Wire/Codec/Laws.antt =====
-- The contract of a `BinarySerializer`, against an encoding in bits.
use farseer.Base.{ℕ, ◌≡◌, Bool, List, ◌++◌, length}
use farseer.Base.Outcome.{ok}
use farseer.Wire.Buffer.{pack, unpack}
use farseer.Wire.Serializer.{Serializer}

-- `InRange` says which values the C++ type holds and the format can count.
pub record IsCodec {A : Type 0} (s : Serializer A) (InRange : A → Type 0) (encode : A → List Bool)
    : Type 0 where
  -- On a buffer that ends at its offset, the encoding is appended and the offset moves behind it.
  pub writes :
      (a : A) (bs : List Bool)
      → InRange a
      → s.serialize a (pack bs) (length bs) ≡ ok (pack (bs ++ encode a), length (bs ++ encode a))
  -- An encoding is read wherever it stands, and the offset moves behind it.
  pub reads :
      (a : A) (bytes : List ℕ) (pre post : List Bool)
      → InRange a
      → unpack bytes ≡ pre ++ (encode a ++ post)
      → s.deserialize bytes (length pre) ≡ ok (a, length (pre ++ encode a))
