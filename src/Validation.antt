-- ===== src/Validation.antt =====
-- internal/protocol_validation.cpp: names are unique, and fields refer to messages defined before.
pub mod Accepts
use farseer.Base.{ℕ, zero, suc, ◌+◌, Bool, true, false, if◌then◌else◌, List, [], ◌∷◌, ◌++◌}
use farseer.Base.Outcome.{
  Outcome, ok, err, logic_error, message_name_not_defined, duplicate_field_name,
  duplicate_protocol_name, protocol_field_self_reference, ◌>>=◌, ◌>>◌,
}
use farseer.Base.Chars.{Chars, same_chars, member}
use farseer.Definition.{
  TypeKind, message, TypeDefinition, type_definition, Subtypes, no_subtypes, subtype, get_type,
  get_name, get_subtypes, FieldDefinition, MessageProtocolDefinition, RequestProtocolDefinition,
  ProtocolDefinition,
}

unfoldable mutual
  -- The number of type definitions in one.
  pub type_size : TypeDefinition → ℕ
  type_size (type_definition kind name inner static size) = suc (subtypes_size inner)

  pub subtypes_size : Subtypes → ℕ
  subtypes_size no_subtypes = 0
  subtypes_size (subtype first rest) = type_size first + subtypes_size rest

unfoldable pub to_list : Subtypes → List TypeDefinition
to_list no_subtypes = []
to_list (subtype first rest) = first ∷ to_list rest

unfoldable pub is_message : TypeKind → Bool
is_message message = true
is_message kind = false

module _ (message_names : List Chars) (protocol_name : Chars) where
  unfoldable pub check_type : TypeDefinition → Outcome (Unit {0})
  unfolding is_message
  check_type definition =
      if is_message (get_type definition)
      then (if same_chars protocol_name (get_name definition)
          then err protocol_field_self_reference
          else if member (get_name definition) message_names
          then ok tt
          else err message_name_not_defined)
      else ok tt

  -- The loop over the queue, from the index on; subtypes are pushed at its end.
  unfoldable pub check_queue : ℕ → List TypeDefinition → Outcome (Unit {0})
  unfolding check_type to_list
  check_queue zero [] = ok tt
  check_queue zero (definition ∷ queue) = err logic_error
  check_queue (suc fuel) [] = ok tt
  check_queue (suc fuel) (definition ∷ queue) = do
    _ ← check_type definition
    check_queue fuel (queue ++ to_list (get_subtypes definition))

  -- A round takes one definition off the queue, so as many rounds as there are definitions are enough.
  unfoldable pub check_fields : List Chars → List FieldDefinition → Outcome (Unit {0})
  unfolding check_queue type_size
  check_fields field_names [] = ok tt
  check_fields field_names (field ∷ fields) = do
    _ ← check_queue (type_size field.definition) (field.definition ∷ [])
    if member field.name field_names
        then err duplicate_field_name
        else check_fields (field.name ∷ field_names) fields

unfoldable pub validate_field_definitions :
    List FieldDefinition → List Chars → Chars → Outcome (Unit {0})
unfolding check_fields
validate_field_definitions fields message_names protocol_name =
    check_fields message_names protocol_name [] fields

-- The names of the messages are an in-out parameter.
unfoldable pub validate_message_definitions :
    List MessageProtocolDefinition → List Chars → Outcome (List Chars)
unfolding validate_field_definitions
validate_message_definitions [] message_names = ok message_names
validate_message_definitions (protocol ∷ protocols) message_names =
    if member protocol.name message_names then err duplicate_protocol_name else (do
      _ ← validate_field_definitions protocol.fields (protocol.name ∷ message_names) protocol.name
      validate_message_definitions protocols (protocol.name ∷ message_names))

unfoldable pub validate_requests :
    List RequestProtocolDefinition → List Chars → List Chars → Outcome (Unit {0})
unfolding validate_field_definitions
validate_requests [] message_names request_names = ok tt
validate_requests (protocol ∷ protocols) message_names request_names =
    if member protocol.name message_names
    then err duplicate_protocol_name
    else if member protocol.name request_names
    then err duplicate_protocol_name
    else (do
      _ ← validate_field_definitions protocol.request_fields message_names protocol.name
      _ ← validate_field_definitions protocol.response_fields message_names protocol.name
      validate_requests protocols message_names (protocol.name ∷ request_names))

unfoldable pub validate_request_definitions :
    List RequestProtocolDefinition → List Chars → Outcome (Unit {0})
unfolding validate_requests
validate_request_definitions protocols message_names = validate_requests protocols message_names []

unfoldable pub validate_protocol_definition : ProtocolDefinition → Outcome (Unit {0})
unfolding validate_message_definitions validate_request_definitions
validate_protocol_definition protocol = do
  message_names ← validate_message_definitions protocol.messages []
  validate_request_definitions protocol.requests message_names
