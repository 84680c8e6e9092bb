-- ===== src/Generated/Payload/Sizes.antt =====
-- The static size that the definitions count is the size of every encoding.
use farseer.Base.{
  false, if◌then◌else◌, length-append, Bool, refl, sym, ℕ, ◌+◌, ◌^◌, ◌<◌, ◌≡◌, ◌∙◌, true, List, [],
  ◌∷◌, length, arith,
}
use farseer.Definition.{all_static, has_static_size, static_size, FieldDefinition, sum_static}
use farseer.Wire.Bits.{length-bits}
use farseer.Wire.Ballotin.{Ballotin, IsBallotin}
use farseer.Generated.Payload.{
  Values, Value, definition, CppKey, int32, int64, uint32, uint64, text, CppType, key, bool, vector,
  map, class, CppFields, done, field, KeyValue, key_definition, field_definitions,
}
use farseer.Generated.Payload.Codec.{encode_fields, encode, key_bits}

-- The sum of the static sizes, without the bound of 32 bits.
unfoldable pub total_size : List FieldDefinition → ℕ
total_size [] = 0
total_size (f ∷ fs) = static_size f.definition + total_size fs

both_true : (p q : Bool) → (if p then q else false) ≡ true → (p ≡ true) × (q ≡ true)
both_true true q h = (refl, h)
both_true false q h = cc

module _ (b : Ballotin) where
  -- No class has more than 2^32 - 1 static bits.
  unfoldable mutual
    unfolding total_size field_definitions

    pub Fits : CppType → Type 0
    Fits (key k) = Unit {0}
    Fits bool = Unit {0}
    Fits (vector t) = Unit {0}
    Fits (map k t) = Unit {0}
    Fits (class name fields) = AllFit fields

    pub AllFit : CppFields → Type 0
    AllFit done = Unit {0}
    AllFit (field name t fields) =
        (total_size (field_definitions b (field name t fields)) < 2 ^ 32) × Fits t × AllFit fields

module _ {b : Ballotin} (law : IsBallotin b) where
  sum_static_lem :
      (start : ℕ) (fs : List FieldDefinition)
      → start + total_size fs < 2 ^ 32
      → sum_static b start fs ≡ start + total_size fs
  unfolding sum_static total_size
  sum_static_lem start [] h = omega arith
  sum_static_lem start (f ∷ fs) h =
      let added : b.size_add start (static_size f.definition) ≡ start + static_size f.definition =
        law.add start (static_size f.definition) (omega (arith, h)) in
      rw added
        (sum_static_lem (start + static_size f.definition) fs (omega (arith, h)) ∙ omega arith)

  key_static :
      (k : CppKey) (v : KeyValue k)
      → has_static_size (key_definition k) ≡ true
      → length (key_bits k v) ≡ static_size (key_definition k)
  unfolding key_definition
  key_static int32 v h = length-bits 32 _
  key_static int64 v h = length-bits 64 _
  key_static uint32 v h = length-bits 32 _
  key_static uint64 v h = length-bits 64 _
  key_static text v h = cc

  AllFit-total :
      (fields : CppFields) → AllFit b fields → total_size (field_definitions b fields) < 2 ^ 32
  unfolding AllFit total_size field_definitions
  AllFit-total done fit = omega arith
  AllFit-total (field name t fields) fit = fit.0

  pub sum_static-total :
      (fields : CppFields)
      → AllFit b fields
      → sum_static b 0 (field_definitions b fields) ≡ total_size (field_definitions b fields)
  sum_static-total fields fit =
      let small : 0 + total_size (field_definitions b fields) < 2 ^ 32 =
        omega (arith, AllFit-total fields fit) in
      omega (arith, sum_static_lem 0 (field_definitions b fields) small)

  mutual
    unfolding Fits encode definition all_static total_size

    value_static :
        (t : CppType) (v : Value t)
        → Fits b t
        → has_static_size (definition b t) ≡ true
        → length (encode t v) ≡ static_size (definition b t)
    value_static (key k) v fit h = key_static k v h
    value_static bool v fit h = refl
    value_static (vector t) v fit h = cc
    value_static (map k t) v fit h = cc
    value_static (class name fields) v fit h =
        fields_static fields v fit h ∙ sym (sum_static-total fields fit)

    pub fields_static :
        (fields : CppFields) (vs : Values fields)
        → AllFit b fields
        → all_static (field_definitions b fields) ≡ true
        → length (encode_fields fields vs) ≡ total_size (field_definitions b fields)
    fields_static done vs fit h = refl
    fields_static (field name t fields) vs fit h =
        let (first, rest) =
          both_true (has_static_size (definition b t)) (all_static (field_definitions b fields))
            h in
        omega (
          arith,
          length-append (encode t vs.0) (encode_fields fields vs.1),
          value_static t vs.0 fit.1 first,
          fields_static fields vs.1 fit.2 rest,
        )

  -- Where the definition of a type says that its size is static, and no class in it has more than
  -- 2^32 - 1 static bits, every value of the type is encoded in that many bits.
  pub encode_static :
      (t : CppType) (v : Value t)
      → Fits b t
      → has_static_size (definition b t) ≡ true
      → length (encode t v) ≡ static_size (definition b t)
  encode_static t v fit h = value_static t v fit h
