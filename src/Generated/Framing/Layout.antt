-- ===== src/Generated/Framing/Layout.antt =====
-- The layout of a protocol behind its identifier, in bits.
use farseer.Base.{ℕ, ◌+◌, Bool, List, ◌++◌, length, if◌then◌else◌}
use farseer.Expected.{Expected}
use farseer.Wire.Buffer.{padding}
use farseer.Wire.Codec.Scalars.{unsigned_bits}
use farseer.Wire.Codec.Maps.{expected_bits}
use farseer.Generated.Metadata.{Metadata}

-- A payload whose size is not known: the size in bits, the payload, and zeros up to a whole byte.
abbrev pub dynamic_bits : List Bool → List Bool
dynamic_bits xs = unsigned_bits 4 (length xs) ++ (xs ++ padding xs)

module _ {A : Type 0} (m : Metadata A) (encode : A → List Bool) where
  abbrev pub body_bits : A → List Bool
  body_bits a = if m.has_static_size then encode a else dynamic_bits (encode a)

  abbrev pub message_bits : A → List Bool
  message_bits a = unsigned_bits 4 m.protocol_identifier ++ body_bits a

  abbrev pub request_bits : ℕ → A → List Bool
  request_bits n a = (unsigned_bits 4 m.protocol_identifier ++ unsigned_bits 8 n) ++ body_bits a

  abbrev pub response_bits : ℕ → Expected A → List Bool
  response_bits n e =
      (unsigned_bits 4 m.protocol_identifier ++ unsigned_bits 8 n)
      ++ dynamic_bits (expected_bits encode e)

  -- The bits of a body that the reader asks for.
  abbrev pub body_size : A → ℕ
  body_size a = if m.has_static_size then length (encode a) else 32 + length (encode a)
