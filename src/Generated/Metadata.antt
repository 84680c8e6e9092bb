-- ===== src/Generated/Metadata.antt =====
-- The nested `Metadata` of a generated class, and what the generated functions share.
use farseer.Base.{ℕ, ◌^◌, ◌<◌, ◌≡◌, Bool, true, List, [], ◌∷◌, length}
use farseer.Base.Outcome.{Outcome, ok, ◌>>=◌}
use farseer.Wire.Ballotin.{Ballotin, bits_per_byte}
use farseer.Wire.Serializer.{Serializer, size_serializer}
use farseer.Wire.Codec.Laws.{IsCodec}

-- `payload` is serializeHeaderless and deserializeHeaderless: the fields one behind the other.
pub record Metadata (A : Type 0) : Type 0 where
  pub protocol_identifier : ℕ
  pub payload : Serializer A
  pub has_static_size : Bool
  pub static_number_of_bits : ℕ

-- What the generator has to see to: the identifier is a uint32_t, the fields are read back, and the
-- static size is the size of every value.
pub record IsMetadata {A : Type 0} (m : Metadata A) (InRange : A → Type 0) (encode : A → List Bool)
    : Type 0 where
  pub identifier : m.protocol_identifier < 2 ^ 32
  pub codec : IsCodec m.payload InRange encode
  pub static_size :
      (a : A) → InRange a → m.has_static_size ≡ true → length (encode a) ≡ m.static_number_of_bits

module _ (b : Ballotin) where
  -- for (const auto byte : dynamicBytes) pushBitsMostSignificant(bytes, bitsOffset, byte, 8)
  unfoldable pub push_bytes : List ℕ → List ℕ → ℕ → List ℕ × ℕ
  push_bytes [] bytes offset = (bytes, offset)
  push_bytes (byte ∷ rest) bytes offset =
      let (bytes', offset') = b.push_bits bytes offset byte bits_per_byte in
      push_bytes rest bytes' offset'

  -- The payload in a buffer of its own, its size in bits in front of it.
  unfoldable pub write_dynamic : {A : Type 0} → Serializer A → A → List ℕ → ℕ → Outcome (List ℕ × ℕ)
  unfolding push_bytes
  write_dynamic s a bytes offset = do
    (dynamic_bytes, dynamic_offset) ← s.serialize a [] 0
    size ← b.size_from dynamic_offset
    (bytes', offset') ← (size_serializer b).serialize size bytes offset
    ok (push_bytes dynamic_bytes bytes' offset')
