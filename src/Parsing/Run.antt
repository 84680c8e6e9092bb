-- ===== src/Parsing/Run.antt =====
-- Running the nodes of a syntax tree on the stacks builds what the tree stands for.
use farseer.Base.{
  ◌≡◌, refl, sym, ap, ◌∙◌, if◌then◌else◌, List, [], ◌∷◌, ◌++◌, append_assoc, append-nil, Bool-cases,
  inl, inr,
}
use farseer.Base.Outcome.{invalid_map_key, Outcome, ok, err, ◌>>=◌, bind_assoc, bind_cong}
use farseer.Base.Chars.{Chars}
use farseer.Wire.Ballotin.{Ballotin}
use farseer.Definition.{
  TypeDefinition, from_simple, from_list, from_map, can_be_map_key, FieldDefinition,
  ProtocolDefinition,
}
use farseer.Validation.{validate_protocol_definition}
use farseer.Parsing.{
  fields_empty, start, protocol_definition, message_definition, protocols_message,
  request_definition, protocols_request, request_fields_fields, name_symbol, Node, token, rule,
  type_list, type_map, type_name, fields_field, Parsing, initial, is_reserved, push_type,
  refer_to_message, apply_nodes, parse_protocol_definition,
}
use farseer.Parsing.Syntax.{
  simple_rule, simple_kind, Simple, int32, int64, uint32, uint64, text, bool, TypeSyntax, simple,
  list_of, map_of, named, FieldSyntax, ItemSyntax, message_item, request_item, FileSyntax, terminal,
  type_nodes, fields_nodes, item_nodes, items_nodes, file_nodes, checked_name, type_meaning,
  fields_meaning, item_meaning, items_meaning, file_meaning,
}

module _ (b : Ballotin) where
  abbrev run : List Node → Parsing → Outcome Parsing
  run = apply_nodes b

  -- A name is pushed, unless it is reserved.
  name_pushed :
      (name : Chars) (rest : List Node) (s : Parsing)
      → run (token name_symbol name ∷ rest) s
        ≡ (checked_name name >>= λ n. run rest (record s { tokens = n ∷ s.tokens }))
  unfolding apply_nodes checked_name
  name_pushed name rest s = elim (Bool-cases (is_reserved name)) [
    | inl reserved ↦ rw reserved refl
    | inr free ↦ rw free refl
  ]

  simple_pushed :
      (k : Simple) (rest : List Node) (s : Parsing)
      → run (terminal ∷ rule (simple_rule k) ∷ rest) s
        ≡ (from_simple (simple_kind k) >>= λ d. run rest (push_type d s))
  unfolding apply_nodes
  simple_pushed int32 rest s = refl
  simple_pushed int64 rest s = refl
  simple_pushed uint32 rest s = refl
  simple_pushed uint64 rest s = refl
  simple_pushed text rest s = refl
  simple_pushed bool rest s = refl

  map_pushed :
      (key value : TypeDefinition) (rest : List Node) (s : Parsing)
      → run (terminal ∷ rule type_map ∷ rest) (push_type value (push_type key s)) ≡ (
          (if can_be_map_key key then ok (from_map key value) else err invalid_map_key) >>= λ d.
          run rest (push_type d s))
  unfolding apply_nodes
  map_pushed key value rest s = elim (Bool-cases (can_be_map_key key)) [
    | inl can ↦ rw can refl
    | inr cannot ↦ rw cannot refl
  ]

  apply_nodes-type_nodes :
      (t : TypeSyntax) (rest : List Node) (s : Parsing)
      → run (type_nodes t ++ rest) s
        ≡ (type_meaning b s.protocol.messages t >>= λ d. run rest (push_type d s))
  unfolding apply_nodes type_nodes type_meaning
  apply_nodes-type_nodes (simple k) rest s = simple_pushed k rest s
  apply_nodes-type_nodes (list_of t) rest s =
      let tail : List Node = terminal ∷ rule type_list ∷ [] in
      ap (λ xs. run xs s) (append_assoc (type_nodes t) tail rest)
      ∙ apply_nodes-type_nodes t (tail ++ rest) s
      ∙ sym (
          bind_assoc (type_meaning b s.protocol.messages t) (λ d. ok (from_list d))
            (λ d. run rest (push_type d s)))
  apply_nodes-type_nodes (map_of k v) rest s =
      let messages = s.protocol.messages in
      let tail : List Node = terminal ∷ rule type_map ∷ [] in
      let made : TypeDefinition → TypeDefinition → Outcome TypeDefinition =
        λ key value. if can_be_map_key key then ok (from_map key value) else err invalid_map_key in
      let next : TypeDefinition → Outcome Parsing = λ d. run rest (push_type d s) in
      ap (λ xs. run xs s) (append_assoc (type_nodes k) (terminal ∷ (type_nodes v ++ tail)) rest)
      ∙ apply_nodes-type_nodes k (terminal ∷ ((type_nodes v ++ tail) ++ rest)) s
      ∙ bind_cong (type_meaning b messages k) _ _ (λ key.
        ap (λ xs. run xs (push_type key s)) (append_assoc (type_nodes v) tail rest)
        ∙ apply_nodes-type_nodes v (tail ++ rest) (push_type key s)
        ∙ bind_cong (type_meaning b messages v) _ _ (λ value. map_pushed key value rest s)
        ∙ sym (bind_assoc (type_meaning b messages v) (made key) next))
      ∙ sym (
          bind_assoc (type_meaning b messages k) (λ key. type_meaning b messages v >>= made key)
            next)
  apply_nodes-type_nodes (named name) rest s =
      name_pushed name (rule type_name ∷ rest) s
      ∙ bind_cong (checked_name name) _ _ (λ n.
        bind_assoc (refer_to_message b n s.protocol.messages) (λ d. ok (push_type d s)) (run rest))
      ∙ sym (
          bind_assoc (checked_name name) (λ n. refer_to_message b n s.protocol.messages)
            (λ d. run rest (push_type d s)))

  apply_nodes-fields_nodes :
      (fields : List FieldSyntax) (rest : List Node) (s : Parsing)
      → run (fields_nodes fields ++ rest) s ≡ (
          fields_meaning b s.protocol.messages fields >>= λ ds.
          run rest (record s { fields = s.fields ++ ds }))
  unfolding apply_nodes fields_nodes fields_meaning
  apply_nodes-fields_nodes [] rest s =
      ap (λ fs. run rest (record s { fields = fs })) (sym (append-nil s.fields))
  apply_nodes-fields_nodes ((t, name) ∷ fields) rest s =
      let messages = s.protocol.messages in
      let others = fields_meaning b messages fields in
      let field : TypeDefinition → Chars → FieldDefinition =
        λ d n. record { definition = d; name = n } in
      let next : List FieldDefinition → Outcome Parsing =
        λ ds. run rest (record s { fields = s.fields ++ ds }) in
      let tail : List Node =
        token name_symbol name ∷ terminal ∷ rule fields_field ∷ fields_nodes fields in
      ap (λ xs. run xs s) (append_assoc (type_nodes t) tail rest)
      ∙ apply_nodes-type_nodes t (tail ++ rest) s
      ∙ bind_cong (type_meaning b messages t) _ _ (λ d.
        name_pushed name (terminal ∷ rule fields_field ∷ (fields_nodes fields ++ rest))
          (push_type d s)
        ∙ bind_cong (checked_name name) _ _ (λ n.
          apply_nodes-fields_nodes fields rest (record s { fields = s.fields ++ field d n ∷ [] })
          ∙ bind_cong others _ _ (λ ds.
            ap (λ fs. run rest (record s { fields = fs }))
              (append_assoc s.fields (field d n ∷ []) ds))
          ∙ sym (bind_assoc others (λ ds. ok (field d n ∷ ds)) next))
        ∙ sym (bind_assoc (checked_name name) (λ n. others >>= λ ds. ok (field d n ∷ ds)) next))
      ∙ sym (
          bind_assoc (type_meaning b messages t)
            (λ d. checked_name name >>= λ n. others >>= λ ds. ok (field d n ∷ ds)) next)

  -- Between two protocols the stacks are empty.
  abbrev resting : ProtocolDefinition → Parsing
  resting protocol = record initial { protocol = protocol }

  apply_nodes-item_nodes :
      (item : ItemSyntax) (rest : List Node) (protocol : ProtocolDefinition)
      → run (item_nodes item ++ rest) (resting protocol)
        ≡ (item_meaning b item protocol >>= λ p. run rest (resting p))
  unfolding apply_nodes item_nodes item_meaning
  apply_nodes-item_nodes (message_item name fields) rest protocol =
      let next : ProtocolDefinition → Outcome Parsing = λ p. run rest (resting p) in
      let built : Chars → List FieldDefinition → ProtocolDefinition = λ n ds. record protocol {
        messages =
            protocol.messages
            ++ record { file_namespace = protocol.file_namespace; name = n; fields = ds } ∷ [];
      } in
      let body = fields_meaning b protocol.messages fields in
      let tail : List Node = terminal ∷ rule message_definition ∷ rule protocols_message ∷ [] in
      name_pushed name (terminal ∷ rule fields_empty ∷ ((fields_nodes fields ++ tail) ++ rest))
        (resting protocol)
      ∙ bind_cong (checked_name name) _ _ (λ n.
        ap (λ xs. run xs (record (resting protocol) { tokens = n ∷ [] }))
          (append_assoc (fields_nodes fields) tail rest)
        ∙ apply_nodes-fields_nodes fields (tail ++ rest)
            (record (resting protocol) { tokens = n ∷ [] })
        ∙ sym (bind_assoc body (λ ds. ok (built n ds)) next))
      ∙ sym (bind_assoc (checked_name name) (λ n. body >>= λ ds. ok (built n ds)) next)
  apply_nodes-item_nodes (request_item name fields answers) rest protocol =
      let next : ProtocolDefinition → Outcome Parsing = λ p. run rest (resting p) in
      let built : Chars → List FieldDefinition → List FieldDefinition → ProtocolDefinition =
        λ n ds es. record protocol {
          requests =
              protocol.requests
              ++ record {
                file_namespace = protocol.file_namespace;
                name = n;
                request_fields = ds;
                response_fields = es;
              }
                ∷ [];
        } in
      let body = fields_meaning b protocol.messages fields in
      let answer = fields_meaning b protocol.messages answers in
      let last : List Node =
        terminal ∷ terminal ∷ rule request_definition ∷ rule protocols_request ∷ [] in
      let tail : List Node =
        rule request_fields_fields
        ∷ terminal
        ∷ terminal
        ∷ rule fields_empty
        ∷ (fields_nodes answers ++ last) in
      name_pushed name (terminal ∷ rule fields_empty ∷ ((fields_nodes fields ++ tail) ++ rest))
        (resting protocol)
      ∙ bind_cong (checked_name name) _ _ (λ n.
        let named_state = record (resting protocol) { tokens = n ∷ [] } in
        ap (λ xs. run xs named_state) (append_assoc (fields_nodes fields) tail rest)
        ∙ apply_nodes-fields_nodes fields (tail ++ rest) named_state
        ∙ bind_cong body _ _ (λ ds.
          let asked = record named_state { request_fields = ds } in
          ap (λ xs. run xs asked) (append_assoc (fields_nodes answers) last rest)
          ∙ apply_nodes-fields_nodes answers (last ++ rest) asked
          ∙ sym (bind_assoc answer (λ es. ok (built n ds es)) next))
        ∙ sym (bind_assoc body (λ ds. answer >>= λ es. ok (built n ds es)) next))
      ∙ sym (
          bind_assoc (checked_name name) (λ n. body >>= λ ds. answer >>= λ es. ok (built n ds es))
            next)

  apply_nodes-items_nodes :
      (items : List ItemSyntax) (rest : List Node) (protocol : ProtocolDefinition)
      → run (items_nodes items ++ rest) (resting protocol)
        ≡ (items_meaning b items protocol >>= λ p. run rest (resting p))
  unfolding apply_nodes items_nodes items_meaning
  apply_nodes-items_nodes [] rest protocol = refl
  apply_nodes-items_nodes (item ∷ items) rest protocol =
      ap (λ xs. run xs (resting protocol)) (append_assoc (item_nodes item) (items_nodes items) rest)
      ∙ apply_nodes-item_nodes item (items_nodes items ++ rest) protocol
      ∙ bind_cong (item_meaning b item protocol) _ _ (λ p. apply_nodes-items_nodes items rest p)
      ∙ sym (
          bind_assoc (item_meaning b item protocol) (items_meaning b items)
            (λ p. run rest (resting p)))

  -- Running the nodes of a file's syntax tree from the empty stacks ends with empty stacks and the
  -- definitions that the tree stands for, or with the first error, from left to right, that these
  -- have: a reserved name, an unknown message, or a type that cannot be the key of a map.
  pub apply_nodes-file_nodes :
      (file : FileSyntax)
      → apply_nodes b (file_nodes file) initial
        ≡ (file_meaning b file >>= λ protocol. ok (record initial { protocol = protocol }))
  unfolding apply_nodes file_nodes file_meaning
  apply_nodes-file_nodes file =
      apply_nodes-items_nodes file.items (rule protocol_definition ∷ rule start ∷ [])
        (record { file_namespace = file.namespace; messages = []; requests = [] })

  -- Where the parser gives the nodes of a syntax tree for a text, parseProtocolDefinition returns
  -- what the tree stands for, once it is valid, and throws the first error otherwise.
  pub parse_protocol_definition_lem :
      (parse : Chars → Outcome (List Node)) (source : Chars) (file : FileSyntax)
      → parse source ≡ ok (file_nodes file)
      → parse_protocol_definition b parse source ≡ (
          file_meaning b file >>= λ protocol.
          validate_protocol_definition protocol >>= λ _. ok protocol)
  unfolding parse_protocol_definition
  parse_protocol_definition_lem parse source file h =
      rw (h, apply_nodes-file_nodes file)
        (bind_assoc (file_meaning b file) (λ protocol. ok (resting protocol))
          (λ s. validate_protocol_definition s.protocol >>= λ _. ok s.protocol))
