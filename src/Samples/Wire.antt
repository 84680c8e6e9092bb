-- ===== src/Samples/Wire.antt =====
-- The serializers of binary_serialization.hpp on concrete types, with ballotin by lists of bits.
use farseer.Base.{◌^◌, arith}
use farseer.Base.Int.{InSignedRange}
use farseer.Wire.Ballotin.{list_ballotin, list_ballotin-IsBallotin}
use farseer.Wire.Ordered.{ℕ_order}
use farseer.Wire.Serializer.{
  unsigned_serializer, signed_serializer, string_serializer, vector_serializer, map_serializer,
  expected_serializer,
}
use farseer.Wire.Codec.Laws.{IsCodec}
use farseer.Wire.Codec.Scalars.{
  InUnsignedRange, unsigned_bits, signed_bits, unsigned-IsCodec, signed-IsCodec,
}
use farseer.Wire.Codec.Sequences.{
  VectorInRange, vector_bits, StringInRange, string_bits, vector-IsCodec, string-IsCodec,
}
use farseer.Wire.Codec.Maps.{
  MapInRange, map_bits, ExpectedInRange, expected_bits, map-IsCodec, expected-IsCodec,
}

u32 : IsCodec (unsigned_serializer list_ballotin 4) (InUnsignedRange 4) (unsigned_bits 4)
u32 = unsigned-IsCodec list_ballotin-IsBallotin 4 (omega arith)

text : IsCodec (string_serializer list_ballotin) StringInRange string_bits
text = string-IsCodec list_ballotin-IsBallotin

signed-IsCodec_example :
    IsCodec (signed_serializer list_ballotin 4) (InSignedRange (2 ^ 32)) (signed_bits 4)
signed-IsCodec_example = signed-IsCodec list_ballotin-IsBallotin 4 (omega arith) (omega arith)

vector-IsCodec_example :
    IsCodec
      (vector_serializer list_ballotin (string_serializer list_ballotin))
      (VectorInRange StringInRange)
      (vector_bits string_bits)
vector-IsCodec_example = vector-IsCodec list_ballotin-IsBallotin text

map-IsCodec_example :
    IsCodec
      (map_serializer list_ballotin
        (unsigned_serializer list_ballotin 4)
        (string_serializer list_ballotin))
      (MapInRange (InUnsignedRange 4) StringInRange)
      (map_bits (unsigned_bits 4) string_bits)
map-IsCodec_example = map-IsCodec list_ballotin-IsBallotin u32 text

expected-IsCodec_example :
    IsCodec
      (expected_serializer list_ballotin (string_serializer list_ballotin))
      (ExpectedInRange StringInRange)
      (expected_bits string_bits)
expected-IsCodec_example = expected-IsCodec list_ballotin-IsBallotin text
