-- ===== src/Wire/Serializer.antt =====
-- binary_serialization.hpp: a `BinarySerializer` for each type. A buffer is a byte vector and an
-- offset in bits; both `serialize` and `deserialize` advance the offset.
use farseer.Base.{
  ℕ, zero, suc, ◌+◌, ◌*◌, ◌%◌, ◌^◌, Bool, true, false, List, [], ◌∷◌, ◌==◌, not, length,
  if◌then◌else◌,
}
use farseer.Base.Int.{ℤ, to_signed, to_unsigned}
use farseer.Base.Outcome.{Outcome, ok, ◌>>=◌}
use farseer.Expected.{
  Expected, from_success, from_failure, success, get_value, get_error_code, get_error_message,
}
use farseer.Wire.Ballotin.{Ballotin, bits_per_byte}
use farseer.Wire.Ordered.{KeyOrder, OrderedMap, emplace}

pub record Serializer (A : Type 0) : Type 0 where
  pub serialize : A → List ℕ → ℕ → Outcome (List ℕ × ℕ)
  pub deserialize : List ℕ → ℕ → Outcome (A × ℕ)

module _ (b : Ballotin) where
  -- uintN_t, where the type takes `size` bytes
  unfoldable pub unsigned_serializer : ℕ → Serializer ℕ
  unsigned_serializer size = record {
    serialize = λ v bytes offset.
        ok (b.push_bits bytes offset (v % 2 ^ (bits_per_byte * size)) (bits_per_byte * size));
    deserialize = λ bytes offset. do
      v ← b.get_bits bytes offset (bits_per_byte * size)
      ok (v % 2 ^ (bits_per_byte * size), offset + bits_per_byte * size);
  }

  -- intN_t, through the unsigned type of its size
  unfoldable pub signed_serializer : ℕ → Serializer ℤ
  signed_serializer size = record {
    serialize = λ z bytes offset.
        let v = to_unsigned (2 ^ (bits_per_byte * size)) z in
        ok (b.push_bits bytes offset v (bits_per_byte * size));
    deserialize = λ bytes offset. do
      v ← b.get_bits bytes offset (bits_per_byte * size)
      ok (
        to_signed (2 ^ (bits_per_byte * size)) (v % 2 ^ (bits_per_byte * size)),
        offset + bits_per_byte * size,
      );
  }

  unfoldable pub bool_serializer : Serializer Bool
  bool_serializer = record {
    serialize = λ v bytes offset. ok (b.push_bits bytes offset (if v then 1 else 0) 1);
    deserialize = λ bytes offset. do
      v ← b.get_bits bytes offset 1
      ok (not (v == 0), offset + 1);
  }

  -- ProtocolIdentifier and ProtocolSize are uint32_t, ProtocolSequenceNumber is uint64_t.
  abbrev pub identifier_serializer : Serializer ℕ
  identifier_serializer = unsigned_serializer 4

  abbrev pub size_serializer : Serializer ℕ
  size_serializer = unsigned_serializer 4

  abbrev pub sequence_number_serializer : Serializer ℕ
  sequence_number_serializer = unsigned_serializer 8

  module _ {A : Type 0} (element : Serializer A) where
    unfoldable pub write_elements : List A → List ℕ → ℕ → Outcome (List ℕ × ℕ)
    write_elements [] bytes offset = ok (bytes, offset)
    write_elements (x ∷ xs) bytes offset = do
      (bytes', offset') ← element.serialize x bytes offset
      write_elements xs bytes' offset'

    unfoldable pub read_elements : ℕ → List ℕ → ℕ → Outcome (List A × ℕ)
    read_elements zero bytes offset = ok ([], offset)
    read_elements (suc n) bytes offset = do
      (x, offset') ← element.deserialize bytes offset
      (xs, offset'') ← read_elements n bytes offset'
      ok (x ∷ xs, offset'')

    -- std::vector<T>: the number of elements, then each
    unfoldable pub vector_serializer : Serializer (List A)
    unfolding write_elements read_elements
    vector_serializer = record {
      serialize = λ xs bytes offset. do
        size ← b.size_from (length xs)
        (bytes', offset') ← size_serializer.serialize size bytes offset
        write_elements xs bytes' offset';
      deserialize = λ bytes offset. do
        (count, offset') ← size_serializer.deserialize bytes offset
        read_elements count bytes offset';
    }

  -- std::string, a vector of char; a char is its unsigned value
  unfoldable pub string_serializer : Serializer (List ℕ)
  unfolding vector_serializer
  string_serializer = vector_serializer (unsigned_serializer 1)

  module _ {K V : Type 0} ⦃order : KeyOrder K⦄ (key : Serializer K) (mapped : Serializer V) where
    unfoldable pub write_entries : OrderedMap K V → List ℕ → ℕ → Outcome (List ℕ × ℕ)
    write_entries [] bytes offset = ok (bytes, offset)
    write_entries ((k, v) ∷ m) bytes offset = do
      (bytes', offset') ← key.serialize k bytes offset
      (bytes'', offset'') ← mapped.serialize v bytes' offset'
      write_entries m bytes'' offset''

    unfoldable pub read_entries : ℕ → OrderedMap K V → List ℕ → ℕ → Outcome (OrderedMap K V × ℕ)
    read_entries zero m bytes offset = ok (m, offset)
    read_entries (suc n) m bytes offset = do
      (k, offset') ← key.deserialize bytes offset
      (v, offset'') ← mapped.deserialize bytes offset'
      read_entries n (emplace k v m) bytes offset''

    -- std::map<K, V>
    unfoldable pub map_serializer : Serializer (OrderedMap K V)
    unfolding write_entries read_entries
    map_serializer = record {
      serialize = λ m bytes offset. do
        size ← b.size_from (length m)
        (bytes', offset') ← size_serializer.serialize size bytes offset
        write_entries m bytes' offset';
      deserialize = λ bytes offset. do
        (count, offset') ← size_serializer.deserialize bytes offset
        read_entries count [] bytes offset';
    }

  module _ {A : Type 0} (payload : Serializer A) where
    write_expected : Bool → Expected A → List ℕ → ℕ → Outcome (List ℕ × ℕ)
    unfolding get_value get_error_code get_error_message
    write_expected true e bytes offset = do a ← get_value e; payload.serialize a bytes offset
    write_expected false e bytes offset = do
      code ← get_error_code e
      message ← get_error_message e
      (bytes', offset') ← (unsigned_serializer 4).serialize code bytes offset
      string_serializer.serialize message bytes' offset'

    unfoldable pub read_expected : Bool → List ℕ → ℕ → Outcome (Expected A × ℕ)
    unfolding from_success from_failure
    read_expected true bytes offset = do
      (a, offset') ← payload.deserialize bytes offset
      ok (from_success a, offset')
    read_expected false bytes offset = do
      (code, offset') ← (unsigned_serializer 4).deserialize bytes offset
      (message, offset'') ← string_serializer.deserialize bytes offset'
      ok (from_failure code message, offset'')

    -- Expected<T>: a bit that tells success, then the value or the error
    unfoldable pub expected_serializer : Serializer (Expected A)
    unfolding write_expected read_expected
    expected_serializer = record {
      serialize = λ e bytes offset. do
        (bytes', offset') ← bool_serializer.serialize (success e) bytes offset
        write_expected (success e) e bytes' offset';
      deserialize = λ bytes offset. do
        (succeeded, offset') ← bool_serializer.deserialize bytes offset
        read_expected succeeded bytes offset';
    }
