-- ===== src/Generated/Request.antt =====
-- Request::Metadata. cpp_protocol.cpp, requestSerializationWithHeaderTemplate and
-- requestDeserializationWithHeaderTemplate
use farseer.Base.{ℕ, ◌+◌, ◌*◌, Option, none, some, List, length, leb, if◌then◌else◌}
use farseer.Base.Outcome.{Outcome, ok, ◌>>=◌}
use farseer.Wire.Ballotin.{Ballotin, bits_per_byte}
use farseer.Wire.Serializer.{identifier_serializer, size_serializer, sequence_number_serializer}
use farseer.Generated.Metadata.{Metadata, write_dynamic}

module _ {A : Type 0} (b : Ballotin) (m : Metadata A) where
  unfoldable pub serialize_with_header : A → ℕ → List ℕ → Outcome (List ℕ)
  unfolding write_dynamic
  serialize_with_header request sequence_number bytes = do
    (bytes', offset') ←
        (identifier_serializer b).serialize m.protocol_identifier bytes
          (bits_per_byte * length bytes)
    (bytes'', offset'') ← (sequence_number_serializer b).serialize sequence_number bytes' offset'
    (bytes''', _) ←
        if m.has_static_size
        then m.payload.serialize request bytes'' offset''
        else write_dynamic b m.payload request bytes'' offset''
    ok bytes'''

  -- The sequence number, the request and the offset; `none` is `return false`.
  unfoldable pub try_deserialize_with_header : List ℕ → ℕ → Outcome (Option (ℕ × A × ℕ))
  try_deserialize_with_header bytes offset =
      if m.has_static_size
      then (if leb (offset + bits_per_byte * 8 + m.static_number_of_bits)
            (bits_per_byte * length bytes)
          then (do
            (sequence_number, offset') ← (sequence_number_serializer b).deserialize bytes offset
            (request, offset'') ← m.payload.deserialize bytes offset'
            ok (some (sequence_number, request, offset'')))
          else ok none)
      else if leb (offset + bits_per_byte * 8 + bits_per_byte * 4) (bits_per_byte * length bytes)
      then (do
        (sequence_number, offset') ← (sequence_number_serializer b).deserialize bytes offset
        (size, offset'') ← (size_serializer b).deserialize bytes offset'
        if leb (offset'' + size) (bits_per_byte * length bytes)
            then (do
              (request, offset''') ← m.payload.deserialize bytes offset''
              ok (some (sequence_number, request, offset''')))
            else ok none)
      else ok none
