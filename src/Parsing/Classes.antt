-- ===== src/Parsing/Classes.antt =====
-- The syntax of generated classes stands for the definitions that they are made of.
use farseer.Base.{◌≡◌, refl, ap, ◌∙◌, true, false, some, List, [], ◌∷◌, ◌++◌}
use farseer.Base.Outcome.{ok}
use farseer.Base.Chars.{Chars}
use farseer.Definition.{
  from_message, all_static, sum_static, MessageProtocolDefinition, ProtocolDefinition, from_simple,
  can_be_map_key,
}
use farseer.Wire.Ballotin.{Ballotin}
use farseer.Parsing.{is_reserved, find_message, refer_to_message}
use farseer.Parsing.Syntax.{
  Simple, TypeSyntax, FieldSyntax, simple, list_of, map_of, named, message_item, request_item,
  checked_name, type_meaning, fields_meaning, item_meaning,
}
use farseer.Generated.Payload.{
  CppKey, int32, int64, uint32, uint64, text, CppType, key, bool, vector, map, class, CppFields,
  done, field, key_definition, definition, field_definitions,
}
use farseer.Generated.Payload.Classes.{message_definition_of, request_definition_of}

-- The type as it is written in a protocol file.
unfoldable pub key_syntax : CppKey → Simple
key_syntax int32 = Simple.int32
key_syntax int64 = Simple.int64
key_syntax uint32 = Simple.uint32
key_syntax uint64 = Simple.uint64
key_syntax text = Simple.text

unfoldable pub type_syntax : CppType → TypeSyntax
unfolding key_syntax
type_syntax (key k) = simple (key_syntax k)
type_syntax bool = simple Simple.bool
type_syntax (vector t) = list_of (type_syntax t)
type_syntax (map k t) = map_of (simple (key_syntax k)) (type_syntax t)
type_syntax (class name fields) = named name

unfoldable pub fields_syntax : CppFields → List FieldSyntax
unfolding type_syntax
fields_syntax done = []
fields_syntax (field name t fields) = (type_syntax t, name) ∷ fields_syntax fields

module _ (b : Ballotin) (messages : List MessageProtocolDefinition) where
  -- The class is that of a message in front.
  pub record IsClass (name : Chars) (fields : CppFields) : Type 0 where
    pub free : is_reserved name ≡ false
    pub message : MessageProtocolDefinition
    pub found : find_message name messages ≡ some message
    pub same : message.fields ≡ field_definitions b fields

  abbrev pub IsWritten : CppType → Type 0
  IsWritten (key k) = Unit {0}
  IsWritten bool = Unit {0}
  IsWritten (vector t) = IsWritten t
  IsWritten (map k t) = IsWritten t
  IsWritten (class name fields) = IsClass name fields

  abbrev pub AllWritten : CppFields → Type 0
  AllWritten done = Unit {0}
  AllWritten (field name t fields) = (is_reserved name ≡ false) × IsWritten t × AllWritten fields

  key_meaning :
      (k : CppKey) → type_meaning b messages (simple (key_syntax k)) ≡ ok (key_definition k)
  unfolding type_meaning key_syntax key_definition from_simple
  key_meaning int32 = refl
  key_meaning int64 = refl
  key_meaning uint32 = refl
  key_meaning uint64 = refl
  key_meaning text = refl

  key_can : (k : CppKey) → can_be_map_key (key_definition k) ≡ true
  unfolding can_be_map_key key_definition
  key_can int32 = refl
  key_can int64 = refl
  key_can uint32 = refl
  key_can uint64 = refl
  key_can text = refl

  checked_free : (name : Chars) → is_reserved name ≡ false → checked_name name ≡ ok name
  unfolding checked_name
  checked_free name h = rw (h, checked_name) refl

  refer_found :
      (name : Chars) (m : MessageProtocolDefinition)
      → find_message name messages ≡ some m
      → refer_to_message b name messages
        ≡ ok (from_message name (all_static m.fields) (sum_static b 0 m.fields))
  unfolding refer_to_message
  refer_found name m h = rw (h, refer_to_message) refl

  type_meaning_lem :
      (t : CppType) → IsWritten t → type_meaning b messages (type_syntax t) ≡ ok (definition b t)
  unfolding type_meaning type_syntax definition from_simple
  type_meaning_lem (key k) w = key_meaning k
  type_meaning_lem bool w = refl
  type_meaning_lem (vector t) w = rw (type_meaning_lem t w) refl
  type_meaning_lem (map k t) w = rw (key_meaning k, type_meaning_lem t w, key_can k) refl
  type_meaning_lem (class name fields) w = rw (checked_free name w.free) (
      refer_found name w.message w.found
      ∙ ap (λ fs. ok (from_message name (all_static fs) (sum_static b 0 fs))) w.same)

  fields_meaning_lem :
      (fields : CppFields)
      → AllWritten fields
      → fields_meaning b messages (fields_syntax fields) ≡ ok (field_definitions b fields)
  unfolding fields_meaning fields_syntax field_definitions
  fields_meaning_lem done w = refl
  fields_meaning_lem (field name t fields) w =
      rw (type_meaning_lem t w.1, checked_free name w.0, fields_meaning_lem fields w.2) refl

module _ (b : Ballotin) (protocol : ProtocolDefinition) (name : Chars)
    (free : is_reserved name ≡ false) where
  pub message_item_meaning :
      (fields : CppFields)
      → AllWritten b protocol.messages fields
      → item_meaning b (message_item name (fields_syntax fields)) protocol
        ≡ ok (record protocol {
          messages =
              protocol.messages ++ message_definition_of b protocol.file_namespace name fields ∷ [];
        })
  unfolding item_meaning message_definition_of
  message_item_meaning fields w =
      rw
        (
          checked_free b protocol.messages name free,
          fields_meaning_lem b protocol.messages fields w,
        )
        refl

  pub request_item_meaning :
      (fields answers : CppFields)
      → AllWritten b protocol.messages fields
      → AllWritten b protocol.messages answers
      → item_meaning b (request_item name (fields_syntax fields) (fields_syntax answers)) protocol
        ≡ ok (record protocol {
          requests =
              protocol.requests
              ++ request_definition_of b protocol.file_namespace name fields answers ∷ [];
        })
  unfolding item_meaning request_definition_of
  request_item_meaning fields answers w w' =
      rw
        (
          checked_free b protocol.messages name free,
          fields_meaning_lem b protocol.messages fields w,
          fields_meaning_lem b protocol.messages answers w',
        )
        refl
