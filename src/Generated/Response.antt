-- ===== src/Generated/Response.antt =====
-- Response::Metadata. cpp_protocol.cpp, responseSerializationWithHeaderTemplate,
-- responseDeserializationWithHeaderTemplate and invokeCallbackTemplate
use farseer.Base.{ℕ, ◌+◌, ◌*◌, Option, none, some, List, length, leb, if◌then◌else◌}
use farseer.Base.Outcome.{Outcome, ok, ◌>>=◌}
use farseer.Expected.{Expected}
use farseer.Wire.Ballotin.{Ballotin, bits_per_byte}
use farseer.Wire.Serializer.{
  identifier_serializer, size_serializer, sequence_number_serializer, expected_serializer,
}
use farseer.Generated.Metadata.{Metadata, write_dynamic}

module _ {A : Type 0} (b : Ballotin) (m : Metadata A) where
  -- An `Expected` is never of a static size, so its size goes in front in any case.
  unfoldable pub serialize_with_header : Expected A → ℕ → List ℕ → Outcome (List ℕ)
  unfolding write_dynamic
  serialize_with_header response sequence_number bytes = do
    (bytes', offset') ←
        (identifier_serializer b).serialize m.protocol_identifier bytes
          (bits_per_byte * length bytes)
    (bytes'', offset'') ← (sequence_number_serializer b).serialize sequence_number bytes' offset'
    (bytes''', _) ← write_dynamic b (expected_serializer b m.payload) response bytes'' offset''
    ok bytes'''

  unfoldable pub try_deserialize_with_header : List ℕ → ℕ → Outcome (Option (ℕ × Expected A × ℕ))
  try_deserialize_with_header bytes offset =
      if leb (offset + bits_per_byte * 8 + bits_per_byte * 4) (bits_per_byte * length bytes)
      then (do
        (sequence_number, offset') ← (sequence_number_serializer b).deserialize bytes offset
        (size, offset'') ← (size_serializer b).deserialize bytes offset'
        if leb (offset'' + size) (bits_per_byte * length bytes)
            then (do
              (response, offset''') ← (expected_serializer b m.payload).deserialize bytes offset''
              ok (some (sequence_number, response, offset''')))
            else ok none)
      else ok none
