-- ===== src/Generated/Payload/Advance.antt =====
-- Reading a payload never moves the offset back.
use farseer.Base.{ℕ, arith, ap}
use farseer.Base.Outcome.{ok_inj, bind_ok}
use farseer.Wire.Ballotin.{Ballotin}
use farseer.Wire.Advance.{
  Advances, unsigned-Advances, signed-Advances, bool-Advances, string-Advances, vector-Advances,
  map-Advances,
}
use farseer.Generated.Payload.{
  CppKey, int32, int64, uint32, uint64, text, CppType, key, bool, vector, map, class, CppFields,
  done, field, Value, Values, key_order, key_serializer, serializer, payload,
}

module _ (b : Ballotin) where
  key-Advances : (k : CppKey) → Advances (key_serializer b k)
  unfolding key_serializer
  key-Advances int32 = signed-Advances b 4
  key-Advances int64 = signed-Advances b 8
  key-Advances uint32 = unsigned-Advances b 4
  key-Advances uint64 = unsigned-Advances b 8
  key-Advances text = string-Advances b

  mutual
    unfolding serializer

    type-Advances : (t : CppType) → Advances (serializer b t)
    type-Advances (key k) = key-Advances k
    type-Advances bool = bool-Advances b
    type-Advances (vector t) = vector-Advances b (serializer b t) (type-Advances t)
    type-Advances (map k t) =
        map-Advances b ⦃order = key_order k⦄ (key_serializer b k) (serializer b t) (key-Advances k)
          (type-Advances t)
    type-Advances (class name fields) = fields-Advances fields

    fields-Advances : (fields : CppFields) → Advances (payload b fields)
    fields-Advances done bytes offset vs offset' h =
        omega (arith, ap (λ (r : Unit {0} × ℕ). r.1) (ok_inj h))
    fields-Advances (field name t fields) bytes offset vs offset' h =
        let ((v, middle), first, e) = bind_ok ((serializer b t).deserialize bytes offset) _ _ h in
        let ((rest, last), others, f) =
          bind_ok ((payload b fields).deserialize bytes middle) _ _ e in
        omega (
          arith,
          type-Advances t bytes offset v middle first,
          fields-Advances fields bytes middle rest last others,
          ap (λ (r : (Value t × Values fields) × ℕ). r.1) (ok_inj f),
        )

  -- Whatever the bytes are, reading the fields of a class leaves the offset where it was or moves it
  -- on.
  pub payload-Advances : (fields : CppFields) → Advances (payload b fields)
  payload-Advances fields = fields-Advances fields
