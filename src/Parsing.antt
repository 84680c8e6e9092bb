-- ===== src/Parsing.antt =====
-- internal/protocol_definition_parsing.cpp: the nodes that the parser of the glyph library gives for a
-- protocol file are run on stacks. The parser itself is a parameter.
pub mod Syntax
pub mod Run
pub mod Classes
pub mod Protocols
use farseer.Base.{ℕ, Bool, true, false, if◌then◌else◌, Option, none, some, List, [], ◌∷◌, ◌++◌}
use farseer.Base.Outcome.{
  Outcome, ok, err, logic_error, reserved_name, invalid_map_key, message_name_not_defined, ◌>>=◌,
}
use farseer.Base.Chars.{Chars, chars, same_chars, member}
use farseer.Wire.Ballotin.{Ballotin}
use farseer.Validation.{validate_protocol_definition}
use farseer.Definition.{
  TypeKind, i32, i64, u32, u64, string, boolean, TypeDefinition, from_simple, from_message,
  from_list, from_map, can_be_map_key, FieldDefinition, MessageProtocolDefinition,
  RequestProtocolDefinition, ProtocolDefinition, message_has_static_size,
  message_static_number_of_bits,
}

-- The symbols that the code tells apart.
pub data Symbol : Type 0 where
  module_symbol name_symbol other_symbol : Symbol

-- The productions of `protocolGrammar` in the order of their indices, 0 to 19, and any other index.
pub data Rule : Type 0 where
  start protocol_definition namespace_definition : Rule
  protocols_message protocols_request protocols_empty : Rule
  message_definition request_definition request_fields_fields fields_field fields_empty : Rule
  type_i32 type_i64 type_u32 type_u64 type_string type_bool type_list type_map type_name : Rule
  unknown : Rule

-- A token with its text, or a production rule of `protocolGrammar`, when its nodes are complete.
pub data Node : Type 0 where
  token : Symbol → Chars → Node
  rule : Rule → Node

unfoldable pub reserved_identifier_names : List Chars
unfolding chars
reserved_identifier_names =
    chars "Response"
    ∷ chars "static"
    ∷ chars "module"
    ∷ chars "namespace"
    ∷ chars "template"
    ∷ chars "typename"
    ∷ chars "if"
    ∷ chars "else"
    ∷ chars "switch"
    ∷ chars "while"
    ∷ chars "for"
    ∷ chars "class"
    ∷ chars "struct"
    ∷ chars "char"
    ∷ chars "short"
    ∷ chars "unsigned"
    ∷ chars "int"
    ∷ chars "long"
    ∷ chars "float"
    ∷ chars "double"
    ∷ chars "const"
    ∷ chars "constexpr"
    ∷ chars "consteval"
    ∷ chars "this"
    ∷ chars "decltype"
    ∷ chars "default"
    ∷ chars "delete"
    ∷ chars "Metadata"
    ∷ chars "auto"
    ∷ chars "std"
    ∷ chars "list"
    ∷ chars "map"
    ∷ []

unfoldable pub is_reserved : Chars → Bool
unfolding reserved_identifier_names
is_reserved name = member name reserved_identifier_names

-- The local variables of the loop. The head of a stack is its back; a token is its text.
pub record Parsing : Type 0 where
  pub tokens : List Chars
  pub type_definitions : List TypeDefinition
  pub fields : List FieldDefinition
  pub request_fields : List FieldDefinition
  pub protocol : ProtocolDefinition

abbrev pub initial : Parsing
initial = record {
  tokens = [];
  type_definitions = [];
  fields = [];
  request_fields = [];
  protocol = record { file_namespace = []; messages = []; requests = [] };
}

unfoldable pub pop : {A : Type 0} → List A → Outcome (A × List A)
pop [] = err logic_error
pop (a ∷ stack) = ok (a, stack)

unfoldable pub find_message :
    Chars → List MessageProtocolDefinition → Option MessageProtocolDefinition
find_message name [] = none
find_message name (protocol ∷ protocols) =
    let rest = find_message name protocols in
    if same_chars protocol.name name then some protocol else rest

unfoldable pub push_type : TypeDefinition → Parsing → Parsing
push_type definition s = record s { type_definitions = definition ∷ s.type_definitions }

unfoldable pub push_simple : TypeKind → Parsing → Outcome Parsing
unfolding from_simple push_type
push_simple kind s = do definition ← from_simple kind; ok (push_type definition s)

unfoldable pub push_token : Symbol → Chars → Parsing → Outcome Parsing
unfolding is_reserved
push_token module_symbol text s = ok (record s { tokens = text ∷ s.tokens })
push_token name_symbol text s =
    if is_reserved text then err reserved_name else ok (record s { tokens = text ∷ s.tokens })
push_token other_symbol text s = ok s

module _ (b : Ballotin) where
  unfoldable pub refer_to_message : Chars → List MessageProtocolDefinition → Outcome TypeDefinition
  unfolding find_message from_message message_has_static_size message_static_number_of_bits
  refer_to_message name messages = elim (find_message name messages) [
    | none ↦ err message_name_not_defined
    | some protocol ↦ ok (
        from_message name (message_has_static_size protocol)
          (message_static_number_of_bits b protocol))
  ]

  -- The switch over the index of the rule.
  unfoldable pub apply_rule : Rule → Parsing → Outcome Parsing
  unfolding pop push_type push_simple from_list from_map can_be_map_key refer_to_message
  apply_rule namespace_definition s = do
    (text, tokens) ← pop s.tokens
    ok (record s { tokens = tokens; protocol = record s.protocol { file_namespace = text } })
  apply_rule message_definition s = do
    (text, tokens) ← pop s.tokens
    ok (record s {
      tokens = tokens;
      fields = [];
      protocol = record s.protocol {
        messages =
            s.protocol.messages
            ++ record { file_namespace = s.protocol.file_namespace; name = text; fields = s.fields }
              ∷ [];
      };
    })
  apply_rule request_definition s = do
    (text, tokens) ← pop s.tokens
    ok (record s {
      tokens = tokens;
      fields = [];
      request_fields = [];
      protocol = record s.protocol {
        requests =
            s.protocol.requests
            ++ record {
              file_namespace = s.protocol.file_namespace;
              name = text;
              request_fields = s.request_fields;
              response_fields = s.fields;
            }
              ∷ [];
      };
    })
  apply_rule request_fields_fields s = ok (record s { request_fields = s.fields; fields = [] })
  apply_rule fields_field s = do
    (definition, type_definitions) ← pop s.type_definitions
    (text, tokens) ← pop s.tokens
    ok (record s {
      tokens = tokens;
      type_definitions = type_definitions;
      fields = s.fields ++ record { definition = definition; name = text } ∷ [];
    })
  apply_rule type_i32 s = push_simple i32 s
  apply_rule type_i64 s = push_simple i64 s
  apply_rule type_u32 s = push_simple u32 s
  apply_rule type_u64 s = push_simple u64 s
  apply_rule type_string s = push_simple string s
  apply_rule type_bool s = push_simple boolean s
  apply_rule type_list s = do
    (definition, rest) ← pop s.type_definitions
    ok (push_type (from_list definition) (record s { type_definitions = rest }))
  apply_rule type_map s = do
    (value, rest) ← pop s.type_definitions
    (key, rest') ← pop rest
    if can_be_map_key key
        then ok (push_type (from_map key value) (record s { type_definitions = rest' }))
        else err invalid_map_key
  apply_rule type_name s = do
    (text, tokens) ← pop s.tokens
    definition ← refer_to_message text s.protocol.messages
    ok (push_type definition (record s { tokens = tokens }))
  apply_rule start s = ok s
  apply_rule protocol_definition s = ok s
  apply_rule protocols_message s = ok s
  apply_rule protocols_request s = ok s
  apply_rule protocols_empty s = ok s
  apply_rule fields_empty s = ok s
  apply_rule unknown s = err logic_error

  unfoldable pub apply_node : Node → Parsing → Outcome Parsing
  unfolding push_token apply_rule
  apply_node (token symbol text) s = push_token symbol text s
  apply_node (rule index) s = apply_rule index s

  -- for (const auto& node : nodes)
  unfoldable pub apply_nodes : List Node → Parsing → Outcome Parsing
  unfolding apply_node
  apply_nodes [] s = ok s
  apply_nodes (node ∷ nodes) s = do s' ← apply_node node s; apply_nodes nodes s'

  -- `parse` is what the parser of the glyph library does with the text.
  unfoldable pub parse_protocol_definition :
      (Chars → Outcome (List Node)) → Chars → Outcome ProtocolDefinition
  unfolding apply_nodes validate_protocol_definition
  parse_protocol_definition parse text = do
    nodes ← parse text
    s ← apply_nodes nodes initial
    _ ← validate_protocol_definition s.protocol
    ok s.protocol
