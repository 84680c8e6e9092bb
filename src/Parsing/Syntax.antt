-- ===== src/Parsing/Syntax.antt =====
-- The syntax trees of `protocolGrammar`, the nodes of a tree in the order in which the parser gives
-- them (each rule behind its parts), and the definitions that a tree stands for.
use farseer.Base.{if◌then◌else◌, List, [], ◌∷◌, ◌++◌}
use farseer.Base.Outcome.{Outcome, ok, err, reserved_name, invalid_map_key, ◌>>=◌}
use farseer.Base.Chars.{Chars}
use farseer.Wire.Ballotin.{Ballotin}
use farseer.Definition.{
  TypeKind, i32, i64, u32, u64, string, boolean, TypeDefinition, from_simple, from_list, from_map,
  can_be_map_key, FieldDefinition, MessageProtocolDefinition, ProtocolDefinition,
}
use farseer.Parsing.{
  module_symbol, name_symbol, other_symbol, Node, token, rule, Rule, start, protocol_definition,
  namespace_definition, protocols_message, protocols_request, protocols_empty, message_definition,
  request_definition, request_fields_fields, fields_field, fields_empty, type_i32, type_i64,
  type_u32, type_u64, type_string, type_bool, type_list, type_map, type_name, is_reserved,
  refer_to_message,
}

pub data Simple : Type 0 where
  int32 int64 uint32 uint64 text bool : Simple

pub data TypeSyntax : Type 0 where
  simple : Simple → TypeSyntax
  list_of : TypeSyntax → TypeSyntax
  map_of : TypeSyntax → TypeSyntax → TypeSyntax
  named : Chars → TypeSyntax

abbrev pub FieldSyntax : Type 0
FieldSyntax = TypeSyntax × Chars

pub data ItemSyntax : Type 0 where
  message_item : Chars → List FieldSyntax → ItemSyntax
  request_item : Chars → List FieldSyntax → List FieldSyntax → ItemSyntax

pub record FileSyntax : Type 0 where
  pub namespace : Chars
  pub items : List ItemSyntax

abbrev pub simple_rule : Simple → Rule
simple_rule int32 = type_i32
simple_rule int64 = type_i64
simple_rule uint32 = type_u32
simple_rule uint64 = type_u64
simple_rule text = type_string
simple_rule bool = type_bool

abbrev pub simple_kind : Simple → TypeKind
simple_kind int32 = i32
simple_kind int64 = i64
simple_kind uint32 = u32
simple_kind uint64 = u64
simple_kind text = string
simple_kind bool = boolean

-- A keyword or a bracket; the code does not look at its text.
abbrev pub terminal : Node
terminal = token other_symbol []

unfoldable pub type_nodes : TypeSyntax → List Node
type_nodes (simple k) = terminal ∷ rule (simple_rule k) ∷ []
type_nodes (list_of t) = terminal ∷ terminal ∷ (type_nodes t ++ terminal ∷ rule type_list ∷ [])
type_nodes (map_of k v) =
    terminal
    ∷ terminal
    ∷ (type_nodes k ++ terminal ∷ (type_nodes v ++ terminal ∷ rule type_map ∷ []))
type_nodes (named name) = token name_symbol name ∷ rule type_name ∷ []

unfoldable pub fields_nodes : List FieldSyntax → List Node
unfolding type_nodes
fields_nodes [] = []
fields_nodes ((t, name) ∷ fields) =
    type_nodes t ++ token name_symbol name ∷ terminal ∷ rule fields_field ∷ fields_nodes fields

unfoldable pub item_nodes : ItemSyntax → List Node
unfolding fields_nodes
item_nodes (message_item name fields) =
    terminal
    ∷ token name_symbol name
    ∷ terminal
    ∷ rule fields_empty
    ∷ (fields_nodes fields ++ terminal ∷ rule message_definition ∷ rule protocols_message ∷ [])
item_nodes (request_item name fields answers) =
    terminal
    ∷ token name_symbol name
    ∷ terminal
    ∷ rule fields_empty
    ∷ (fields_nodes fields
        ++ rule request_fields_fields
          ∷ terminal
          ∷ terminal
          ∷ rule fields_empty
          ∷ (fields_nodes answers
              ++ terminal ∷ terminal ∷ rule request_definition ∷ rule protocols_request ∷ []))

unfoldable pub items_nodes : List ItemSyntax → List Node
unfolding item_nodes
items_nodes [] = []
items_nodes (item ∷ items) = item_nodes item ++ items_nodes items

unfoldable pub file_nodes : FileSyntax → List Node
unfolding items_nodes
file_nodes file =
    terminal
    ∷ token module_symbol file.namespace
    ∷ terminal
    ∷ rule namespace_definition
    ∷ rule protocols_empty
    ∷ (items_nodes file.items ++ rule protocol_definition ∷ rule start ∷ [])

-- The tree's meaning, from left to right: the first error is the error of the file.
unfoldable pub checked_name : Chars → Outcome Chars
checked_name name = if is_reserved name then err reserved_name else ok name

module _ (b : Ballotin) where
  unfoldable pub type_meaning : List MessageProtocolDefinition → TypeSyntax → Outcome TypeDefinition
  unfolding checked_name
  type_meaning messages (simple k) = from_simple (simple_kind k)
  type_meaning messages (list_of t) = do
    definition ← type_meaning messages t
    ok (from_list definition)
  type_meaning messages (map_of k v) = do
    key ← type_meaning messages k
    value ← type_meaning messages v
    if can_be_map_key key then ok (from_map key value) else err invalid_map_key
  type_meaning messages (named name) = do
    name' ← checked_name name
    refer_to_message b name' messages

  unfoldable pub fields_meaning :
      List MessageProtocolDefinition → List FieldSyntax → Outcome (List FieldDefinition)
  unfolding type_meaning checked_name
  fields_meaning messages [] = ok []
  fields_meaning messages ((t, name) ∷ fields) = do
    definition ← type_meaning messages t
    name' ← checked_name name
    rest ← fields_meaning messages fields
    ok (record { definition = definition; name = name' } ∷ rest)

  unfoldable pub item_meaning : ItemSyntax → ProtocolDefinition → Outcome ProtocolDefinition
  unfolding fields_meaning checked_name
  item_meaning (message_item name fields) protocol = do
    name' ← checked_name name
    definitions ← fields_meaning protocol.messages fields
    ok (record protocol {
      messages =
          protocol.messages
          ++ record { file_namespace = protocol.file_namespace; name = name'; fields = definitions }
            ∷ [];
    })
  item_meaning (request_item name fields answers) protocol = do
    name' ← checked_name name
    definitions ← fields_meaning protocol.messages fields
    responses ← fields_meaning protocol.messages answers
    ok (record protocol {
      requests =
          protocol.requests
          ++ record {
            file_namespace = protocol.file_namespace;
            name = name';
            request_fields = definitions;
            response_fields = responses;
          }
            ∷ [];
    })

  unfoldable pub items_meaning : List ItemSyntax → ProtocolDefinition → Outcome ProtocolDefinition
  unfolding item_meaning
  items_meaning [] protocol = ok protocol
  items_meaning (item ∷ items) protocol = do
    protocol' ← item_meaning item protocol
    items_meaning items protocol'

  unfoldable pub file_meaning : FileSyntax → Outcome ProtocolDefinition
  unfolding items_meaning
  file_meaning file =
      items_meaning file.items
        (record { file_namespace = file.namespace; messages = []; requests = [] })
