-- ===== src/Definition/Text.antt =====
-- The text of definitions: as in a protocol file, and as in C++.
use farseer.Base.{Bool, true, false, if◌then◌else◌, List, [], ◌∷◌, ◌++◌}
use farseer.Base.Outcome.{Outcome, ok, err, logic_error, ◌>>=◌}
use farseer.Base.Chars.{Chars, chars}
use farseer.Definition.{
  TypeKind, i32, i64, u32, u64, string, boolean, list, map, message, TypeDefinition,
  type_definition, subtype, FieldDefinition, MessageProtocolDefinition, RequestProtocolDefinition,
  ProtocolDefinition,
}

unfoldable pub kind_to_string : TypeKind → Chars
unfolding chars
kind_to_string i32 = chars "i32"
kind_to_string i64 = chars "i64"
kind_to_string u32 = chars "u32"
kind_to_string u64 = chars "u64"
kind_to_string string = chars "string"
kind_to_string boolean = chars "bool"
kind_to_string list = chars "list"
kind_to_string map = chars "map"
kind_to_string message = chars "message"

-- subtypes_.at throws std::out_of_range where a subtype is missing.
unfoldable mutual
  unfolding chars

  pub get_cpp_type : TypeDefinition → Outcome Chars
  get_cpp_type (type_definition i32 name inner static size) = ok (chars "int32_t")
  get_cpp_type (type_definition i64 name inner static size) = ok (chars "int64_t")
  get_cpp_type (type_definition u32 name inner static size) = ok (chars "uint32_t")
  get_cpp_type (type_definition u64 name inner static size) = ok (chars "uint64_t")
  get_cpp_type (type_definition string name inner static size) = ok (chars "std::string")
  get_cpp_type (type_definition boolean name inner static size) = ok (chars "bool")
  get_cpp_type (type_definition message name inner static size) = ok name
  get_cpp_type (type_definition list name (subtype t rest) static size) = do
    text ← get_cpp_type t
    ok (chars "std::vector<" ++ (text ++ chars ">"))
  get_cpp_type (type_definition map name (subtype k (subtype v rest)) static size) = do
    key ← get_cpp_type k
    value ← get_cpp_type v
    ok (chars "std::map<" ++ (key ++ (chars ", " ++ (value ++ chars ">"))))
  get_cpp_type (type_definition kind name inner static size) = err logic_error

unfoldable mutual
  unfolding chars kind_to_string

  pub to_string : TypeDefinition → Outcome Chars
  to_string (type_definition list name (subtype t rest) static size) = do
    text ← to_string t
    ok (chars "list<" ++ (text ++ chars ">"))
  to_string (type_definition map name (subtype k (subtype v rest)) static size) = do
    key ← to_string k
    value ← to_string v
    ok (chars "map<" ++ (key ++ (chars ", " ++ (value ++ chars ">"))))
  to_string (type_definition list name inner static size) = err logic_error
  to_string (type_definition map name inner static size) = err logic_error
  to_string (type_definition message name inner static size) = ok name
  to_string (type_definition kind name inner static size) = ok (kind_to_string kind)

-- The lines of fields, behind an indentation.
unfoldable pub fields_to_string : Chars → List FieldDefinition → Outcome Chars
unfolding to_string chars
fields_to_string indentation [] = ok []
fields_to_string indentation (field ∷ fields) = do
  text ← to_string field.definition
  rest ← fields_to_string indentation fields
  ok (indentation ++ (text ++ (chars " " ++ (field.name ++ (chars ";\n" ++ rest)))))

-- A blank line stands between two messages, and behind the last one if there are requests.
unfoldable pub messages_to_string : Bool → List MessageProtocolDefinition → Outcome Chars
unfolding fields_to_string chars
messages_to_string requested [] = ok []
messages_to_string requested (protocol ∷ rest) = do
  fields ← fields_to_string (chars "    ") protocol.fields
  others ← messages_to_string requested rest
  ok (
      chars "message "
      ++ (protocol.name ++ (chars "\n{\n" ++ (fields ++ (chars "}\n" ++ (blank rest ++ others))))))
  where
    blank : List MessageProtocolDefinition → Chars
    blank [] = if requested then chars "\n" else []
    blank (next ∷ rest) = chars "\n"

unfoldable pub requests_to_string : List RequestProtocolDefinition → Outcome Chars
unfolding fields_to_string chars
requests_to_string [] = ok []
requests_to_string (protocol ∷ rest) = do
  fields ← fields_to_string (chars "    ") protocol.request_fields
  answers ← fields_to_string (chars "        ") protocol.response_fields
  others ← requests_to_string rest
  ok (
      chars "request "
      ++ (protocol.name
          ++ (chars "\n{\n"
              ++ (fields
                  ++ (chars "\n    response\n    {\n"
                      ++ (answers ++ (chars "    }\n}\n" ++ (blank rest ++ others))))))))
  where
    blank : List RequestProtocolDefinition → Chars
    blank [] = []
    blank (next ∷ rest) = chars "\n"

unfoldable pub protocol_to_string : ProtocolDefinition → Outcome Chars
unfolding messages_to_string requests_to_string chars
protocol_to_string protocol = do
  messages ← messages_to_string (some_requests protocol.requests) protocol.messages
  requests ← requests_to_string protocol.requests
  ok (chars "namespace " ++ (protocol.file_namespace ++ (chars ";\n\n" ++ (messages ++ requests))))
  where
    some_requests : List RequestProtocolDefinition → Bool
    some_requests [] = false
    some_requests (next ∷ rest) = true
