-- ===== src/Definition/Hash.antt =====
-- The hash codes of definitions, which are the identifiers of the protocols.
use farseer.Base.{ℕ, ◌≡◌, refl, ap₂, ◌∙◌, List, [], ◌∷◌}
use farseer.Base.Chars.{Chars}
use farseer.Definition.{
  TypeKind, TypeDefinition, get_type, FieldDefinition, MessageProtocolDefinition,
  RequestProtocolDefinition,
}

-- What is called of ballotin/hashing.hpp.
pub record Hashing : Type 0 where
  pub hash_code_type : TypeKind → ℕ
  pub hash_code_string : Chars → ℕ
  pub hash_combine : ℕ → ℕ → ℕ

module _ (h : Hashing) where
  -- The results of `hashCombine` with the name and with the subtypes are dropped by the code.
  unfoldable pub type_hash_code : TypeDefinition → ℕ
  type_hash_code definition = h.hash_code_type (get_type definition)

  unfoldable pub field_hash_code : FieldDefinition → ℕ
  unfolding type_hash_code
  field_hash_code field =
      h.hash_combine (type_hash_code field.definition) (h.hash_code_string field.name)

  -- for (const auto& field : fields) hashCode = hashCombine(hashCode, field.getHashCode())
  unfoldable pub combine_fields : ℕ → List FieldDefinition → ℕ
  unfolding field_hash_code
  combine_fields hash_code [] = hash_code
  combine_fields hash_code (field ∷ fields) =
      combine_fields (h.hash_combine hash_code (field_hash_code field)) fields

  unfoldable pub message_hash_code : MessageProtocolDefinition → ℕ
  unfolding combine_fields
  message_hash_code protocol =
      combine_fields
        (h.hash_combine (h.hash_code_string protocol.file_namespace)
          (h.hash_code_string protocol.name))
        protocol.fields

  unfoldable pub request_hash_code : RequestProtocolDefinition → ℕ
  unfolding combine_fields
  request_hash_code protocol =
      combine_fields
        (combine_fields
          (h.hash_combine (h.hash_code_string protocol.file_namespace)
            (h.hash_code_string protocol.name))
          protocol.request_fields)
        protocol.response_fields

  unfoldable pub response_hash_code : RequestProtocolDefinition → ℕ
  unfolding request_hash_code
  response_hash_code protocol = h.hash_combine (request_hash_code protocol) 0x496706CB

  -- The fields have the same kinds and names; subtypes and the names of messages may differ.
  abbrev pub SameKinds : List FieldDefinition → List FieldDefinition → Type 0
  SameKinds [] [] = Unit {0}
  SameKinds (f ∷ fs) (g ∷ gs) =
      (get_type f.definition ≡ get_type g.definition) × (f.name ≡ g.name) × SameKinds fs gs
  SameKinds [] (g ∷ gs) = ⊥
  SameKinds (f ∷ fs) [] = ⊥

  combine_fields-SameKinds :
      (c : ℕ) (fs gs : List FieldDefinition)
      → SameKinds fs gs
      → combine_fields c fs ≡ combine_fields c gs
  unfolding combine_fields
  combine_fields-SameKinds c [] [] s = refl
  combine_fields-SameKinds c [] (g ∷ gs) s = absurd s
  combine_fields-SameKinds c (f ∷ fs) [] s = absurd s
  combine_fields-SameKinds c (f ∷ fs) (g ∷ gs) s =
      ap₂
        (λ kind name.
          combine_fields
            (h.hash_combine c (h.hash_combine (h.hash_code_type kind) (h.hash_code_string name)))
            fs)
        s.0 s.1
      ∙ combine_fields-SameKinds (h.hash_combine c (field_hash_code g)) fs gs s.2

  -- Messages of one namespace and name whose fields agree in name and kind have one identifier,
  -- whatever the subtypes of their lists and maps are and whatever messages they refer to.
  pub message_hash_code_coarse :
      (space name : Chars) (fs gs : List FieldDefinition)
      → SameKinds fs gs
      → message_hash_code (record { file_namespace = space; name = name; fields = fs })
        ≡ message_hash_code (record { file_namespace = space; name = name; fields = gs })
  unfolding message_hash_code
  message_hash_code_coarse space name fs gs s =
      combine_fields-SameKinds (h.hash_combine (h.hash_code_string space) (h.hash_code_string name))
        fs gs s
