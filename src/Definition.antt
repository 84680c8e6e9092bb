-- ===== src/Definition.antt =====
-- internal/protocol_definition.hpp and internal/protocol_definition.cpp: the definitions that a
-- protocol file is parsed to.
pub mod Text
pub mod Hash
use farseer.Base.{if◌then◌else◌, ℕ, zero, suc, Bool, true, false, ◌&&◌, List, [], ◌∷◌}
use farseer.Base.Outcome.{Outcome, ok, err, logic_error, ◌>>=◌}
use farseer.Base.Chars.{Chars}
use farseer.Wire.Ballotin.{Ballotin}

-- enum class Type
pub data TypeKind : Type 0 where
  i32 i64 u32 u64 string boolean list map message : TypeKind

unfoldable pub get_static_number_of_bits : TypeKind → Outcome ℕ
get_static_number_of_bits i32 = ok 32
get_static_number_of_bits i64 = ok 64
get_static_number_of_bits u32 = ok 32
get_static_number_of_bits u64 = ok 64
get_static_number_of_bits string = err logic_error
get_static_number_of_bits boolean = ok 1
get_static_number_of_bits list = err logic_error
get_static_number_of_bits map = err logic_error
get_static_number_of_bits message = err logic_error

-- The type, the name, the subtypes, and whether the size is static with the static size.
mutual
  pub data TypeDefinition : Type 0 where
    type_definition : TypeKind → Chars → Subtypes → Bool → ℕ → TypeDefinition

  pub data Subtypes : Type 0 where
    no_subtypes : Subtypes
    subtype : TypeDefinition → Subtypes → Subtypes

abbrev pub get_type : TypeDefinition → TypeKind
get_type (type_definition kind name inner static size) = kind

abbrev pub get_name : TypeDefinition → Chars
get_name (type_definition kind name inner static size) = name

abbrev pub get_subtypes : TypeDefinition → Subtypes
get_subtypes (type_definition kind name inner static size) = inner

abbrev pub has_static_size : TypeDefinition → Bool
has_static_size (type_definition kind name inner static size) = static

-- The member function of the same name as the function above.
abbrev pub static_size : TypeDefinition → ℕ
static_size (type_definition kind name inner static size) = size

unfoldable pub from_simple : TypeKind → Outcome TypeDefinition
unfolding get_static_number_of_bits
from_simple list = err logic_error
from_simple map = err logic_error
from_simple message = err logic_error
from_simple string = ok (type_definition string [] no_subtypes false 0)
from_simple kind = do
  size ← get_static_number_of_bits kind
  ok (type_definition kind [] no_subtypes true size)

unfoldable pub from_message : Chars → Bool → ℕ → TypeDefinition
from_message name static size = type_definition message name no_subtypes static size

unfoldable pub from_list : TypeDefinition → TypeDefinition
from_list sub = type_definition list [] (subtype sub no_subtypes) false 0

unfoldable pub from_map : TypeDefinition → TypeDefinition → TypeDefinition
from_map key value = type_definition map [] (subtype key (subtype value no_subtypes)) false 0

unfoldable pub can_be_map_key : TypeDefinition → Bool
can_be_map_key (type_definition i32 name inner static size) = true
can_be_map_key (type_definition i64 name inner static size) = true
can_be_map_key (type_definition u32 name inner static size) = true
can_be_map_key (type_definition u64 name inner static size) = true
can_be_map_key (type_definition string name inner static size) = true
can_be_map_key (type_definition kind name inner static size) = false

pub record FieldDefinition : Type 0 where
  pub definition : TypeDefinition
  pub name : Chars

pub record MessageProtocolDefinition : Type 0 where
  pub file_namespace : Chars
  pub name : Chars
  pub fields : List FieldDefinition

pub record RequestProtocolDefinition : Type 0 where
  pub file_namespace : Chars
  pub name : Chars
  pub request_fields : List FieldDefinition
  pub response_fields : List FieldDefinition

pub record ProtocolDefinition : Type 0 where
  pub file_namespace : Chars
  pub messages : List MessageProtocolDefinition
  pub requests : List RequestProtocolDefinition

-- std::all_of over the fields, which messages, requests and responses have in common
unfoldable pub all_static : List FieldDefinition → Bool
all_static [] = true
all_static (field ∷ fields) =
    let rest = all_static fields in if has_static_size field.definition then rest else false

module _ (b : Ballotin) where
  -- std::accumulate over the fields
  unfoldable pub sum_static : ℕ → List FieldDefinition → ℕ
  sum_static total [] = total
  sum_static total (field ∷ fields) =
      sum_static (b.size_add total (static_size field.definition)) fields

  unfoldable pub message_static_number_of_bits : MessageProtocolDefinition → ℕ
  unfolding sum_static
  message_static_number_of_bits protocol = sum_static 0 protocol.fields

  unfoldable pub request_static_number_of_bits : RequestProtocolDefinition → ℕ
  unfolding sum_static
  request_static_number_of_bits request = sum_static 0 request.request_fields

  unfoldable pub response_static_number_of_bits : RequestProtocolDefinition → ℕ
  unfolding sum_static
  response_static_number_of_bits request = sum_static 0 request.response_fields

unfoldable pub message_has_static_size : MessageProtocolDefinition → Bool
unfolding all_static
message_has_static_size protocol = all_static protocol.fields

unfoldable pub request_has_static_size : RequestProtocolDefinition → Bool
unfolding all_static
request_has_static_size request = all_static request.request_fields

unfoldable pub response_has_static_size : RequestProtocolDefinition → Bool
unfolding all_static
response_has_static_size request = all_static request.response_fields
