-- ===== src/Parsing/Protocols.antt =====
-- What internal/protocol_definition_parsing.cpp builds for a file that is written as the fields of
-- classes.
use farseer.Base.{◌≡◌, refl, ap, ◌∙◌, false, List, [], ◌∷◌, ◌++◌}
use farseer.Base.Outcome.{Outcome, ok, ◌>>=◌}
use farseer.Base.Chars.{Chars}
use farseer.Definition.{ProtocolDefinition}
use farseer.Wire.Ballotin.{Ballotin}
use farseer.Validation.{validate_protocol_definition}
use farseer.Parsing.{Node, is_reserved, parse_protocol_definition}
use farseer.Parsing.Syntax.{
  ItemSyntax, message_item, request_item, FileSyntax, file_nodes, item_meaning, items_meaning,
  file_meaning,
}
use farseer.Parsing.Run.{parse_protocol_definition_lem}
use farseer.Parsing.Classes.{fields_syntax, AllWritten, message_item_meaning, request_item_meaning}
use farseer.Generated.Payload.{CppFields}
use farseer.Generated.Payload.Classes.{message_definition_of, request_definition_of}

-- A protocol by the fields of its classes.
pub data ProtocolClasses : Type 0 where
  message_class : Chars → CppFields → ProtocolClasses
  request_classes : Chars → CppFields → CppFields → ProtocolClasses

abbrev pub item_syntax : ProtocolClasses → ItemSyntax
item_syntax (message_class name fields) = message_item name (fields_syntax fields)
item_syntax (request_classes name fields answers) =
    request_item name (fields_syntax fields) (fields_syntax answers)

abbrev pub items_syntax : List ProtocolClasses → List ItemSyntax
items_syntax [] = []
items_syntax (c ∷ classes) = item_syntax c ∷ items_syntax classes

abbrev pub empty_protocol : Chars → ProtocolDefinition
empty_protocol namespace = record { file_namespace = namespace; messages = []; requests = [] }

abbrev pub file_of : Chars → List ProtocolClasses → FileSyntax
file_of namespace classes = record { namespace = namespace; items = items_syntax classes }

module _ (b : Ballotin) where
  -- The definition of the classes is put behind those in front.
  abbrev pub add_classes : ProtocolClasses → ProtocolDefinition → ProtocolDefinition
  add_classes (message_class name fields) protocol = record protocol {
    messages =
        protocol.messages ++ message_definition_of b protocol.file_namespace name fields ∷ [];
  }
  add_classes (request_classes name fields answers) protocol = record protocol {
    requests =
        protocol.requests
        ++ request_definition_of b protocol.file_namespace name fields answers ∷ [];
  }

  abbrev pub definitions_of : List ProtocolClasses → ProtocolDefinition → ProtocolDefinition
  definitions_of [] protocol = protocol
  definitions_of (c ∷ classes) protocol = definitions_of classes (add_classes c protocol)

  -- No name is reserved, and a class that a field refers to is that of a message in front.
  abbrev pub CanWrite : ProtocolClasses → ProtocolDefinition → Type 0
  CanWrite (message_class name fields) protocol =
      (is_reserved name ≡ false) × AllWritten b protocol.messages fields
  CanWrite (request_classes name fields answers) protocol =
      (is_reserved name ≡ false)
      × AllWritten b protocol.messages fields
      × AllWritten b protocol.messages answers

  abbrev pub AllCanWrite : List ProtocolClasses → ProtocolDefinition → Type 0
  AllCanWrite [] protocol = Unit {0}
  AllCanWrite (c ∷ classes) protocol =
      CanWrite c protocol × AllCanWrite classes (add_classes c protocol)

  item_meaning-add_classes :
      (c : ProtocolClasses) (protocol : ProtocolDefinition)
      → CanWrite c protocol
      → item_meaning b (item_syntax c) protocol ≡ ok (add_classes c protocol)
  item_meaning-add_classes (message_class name fields) protocol w =
      message_item_meaning b protocol name w.0 fields w.1
  item_meaning-add_classes (request_classes name fields answers) protocol w =
      request_item_meaning b protocol name w.0 fields answers w.1 w.2

  items_meaning-definitions_of :
      (classes : List ProtocolClasses) (protocol : ProtocolDefinition)
      → AllCanWrite classes protocol
      → items_meaning b (items_syntax classes) protocol ≡ ok (definitions_of classes protocol)
  unfolding items_meaning
  items_meaning-definitions_of [] protocol w = refl
  items_meaning-definitions_of (c ∷ classes) protocol (w, ws) =
      ap (λ r. r >>= items_meaning b (items_syntax classes)) (item_meaning-add_classes c protocol w)
      ∙ items_meaning-definitions_of classes (add_classes c protocol) ws

  -- Where the parser gives the nodes of a file of messages and requests whose fields are written as the
  -- types of classes, with no reserved name and only references to messages in front,
  -- parseProtocolDefinition returns the definitions that these classes are made of, in order, if they are
  -- valid, and throws what validation throws otherwise.
  pub parse_protocol_definition_builds :
      (parse : Chars → Outcome (List Node)) (source namespace : Chars)
      (classes : List ProtocolClasses)
      → parse source ≡ ok (file_nodes (file_of namespace classes))
      → AllCanWrite classes (empty_protocol namespace)
      → let built = definitions_of classes (empty_protocol namespace) in
        parse_protocol_definition b parse source
        ≡ (validate_protocol_definition built >>= λ _. ok built)
  unfolding file_meaning
  parse_protocol_definition_builds parse source namespace classes h w =
      parse_protocol_definition_lem b parse source (file_of namespace classes) h
      ∙ ap (λ r. r >>= λ protocol. validate_protocol_definition protocol >>= λ _. ok protocol)
          (items_meaning-definitions_of classes (empty_protocol namespace) w)
