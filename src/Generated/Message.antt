-- ===== src/Generated/Message.antt =====
-- Message::Metadata. cpp_protocol.cpp, messageSerializationWithHeaderTemplate and
-- messageDeserializationWithHeaderTemplate
use farseer.Base.{ℕ, ◌+◌, ◌*◌, Option, none, some, List, length, leb, if◌then◌else◌}
use farseer.Base.Outcome.{Outcome, ok, ◌>>=◌}
use farseer.Wire.Ballotin.{Ballotin, bits_per_byte}
use farseer.Wire.Serializer.{identifier_serializer, size_serializer}
use farseer.Generated.Metadata.{Metadata, write_dynamic}

module _ {A : Type 0} (b : Ballotin) (m : Metadata A) where
  unfoldable pub serialize_with_header : A → List ℕ → Outcome (List ℕ)
  unfolding write_dynamic
  serialize_with_header message bytes = do
    (bytes', offset') ←
        (identifier_serializer b).serialize m.protocol_identifier bytes
          (bits_per_byte * length bytes)
    (bytes'', _) ←
        if m.has_static_size
        then m.payload.serialize message bytes' offset'
        else write_dynamic b m.payload message bytes' offset'
    ok bytes''

  -- The payload behind its size, if the whole of it is there.
  unfoldable pub read_sized : List ℕ → ℕ → ℕ → Outcome (Option (A × ℕ))
  read_sized bytes offset size =
      if leb (offset + size) (bits_per_byte * length bytes)
      then (do
        (message, offset') ← m.payload.deserialize bytes offset
        ok (some (message, offset')))
      else ok none

  -- `none` is `return false`, with an offset that the caller has to drop.
  unfoldable pub try_deserialize_with_header : List ℕ → ℕ → Outcome (Option (A × ℕ))
  unfolding read_sized
  try_deserialize_with_header bytes offset =
      if m.has_static_size
      then read_sized bytes offset m.static_number_of_bits
      else if leb (offset + bits_per_byte * 4) (bits_per_byte * length bytes)
      then (do
        (size, offset') ← (size_serializer b).deserialize bytes offset
        read_sized bytes offset' size)
      else ok none
