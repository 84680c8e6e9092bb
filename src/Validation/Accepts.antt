-- ===== src/Validation/Accepts.antt =====
-- Which definitions are accepted.
use farseer.Base.{
  ap₂, ℕ, zero, suc, ◌+◌, ◌≤◌, ◌≡◌, refl, ap, ◌∙◌, Bool, true, false, if◌then◌else◌, List, [], ◌∷◌,
  ◌++◌, arith,
}
use farseer.Base.Outcome.{Error, Outcome, ok, err, ◌>>=◌}
use farseer.Base.Chars.{Chars, same_chars, member}
use farseer.Definition.{
  TypeKind, TypeDefinition, type_definition, Subtypes, no_subtypes, subtype, get_type, get_name,
  FieldDefinition, MessageProtocolDefinition, RequestProtocolDefinition, ProtocolDefinition,
}
use farseer.Validation.{
  type_size, subtypes_size, to_list, is_message, check_type, check_queue, check_fields,
  validate_field_definitions, validate_message_definitions, validate_requests,
  validate_request_definitions, validate_protocol_definition,
}

abbrev pub is_ok : {A : Type 0} → Outcome A → Bool
is_ok (ok a) = true
is_ok (err e) = false

abbrev both : Bool → Bool → Bool
both p q = if p then q else false

both_swap : (p q r : Bool) → both p (both q r) ≡ both (both p r) q
both_swap true true true = refl
both_swap true true false = refl
both_swap true false true = refl
both_swap true false false = refl
both_swap false q r = refl

is_ok-bind :
    {A B : Type 0} (o : Outcome A) (k : Outcome B) → is_ok (o >>= λ _. k) ≡ both (is_ok o) (is_ok k)
is_ok-bind (ok a) k = refl
is_ok-bind (err e) k = refl

unless :
    {A : Type 0} (c : Bool) (e : Error) (o : Outcome A) {r : Bool}
    → is_ok o ≡ r
    → is_ok (if c then err e else o) ≡ (if c then false else r)
unless true e o h = refl
unless false e o h = h

-- A message is refused or goes on to the next ones.
guarded-bind :
    {A B : Type 0} (c : Bool) (e : Error) (o : Outcome (Unit {0})) (next : Outcome A)
    (k : A → Outcome B) (p q r : Bool)
    → is_ok o ≡ p
    → is_ok (next >>= k) ≡ both q r
    → is_ok ((if c then err e else (o >>= λ _. next)) >>= k)
      ≡ both (if c then false else both p q) r
guarded-bind true e o next k p q r h i = refl
guarded-bind false e (ok _) next k p q r h i = rw (← h) i
guarded-bind false e (err _) next k p q r h i = rw (← h) refl

module _ (message_names : List Chars) (protocol_name : Chars) where
  -- A reference is to a message that is defined, and not to the protocol itself.
  unfoldable pub is_defined : TypeKind → Chars → Bool
  unfolding is_message
  is_defined kind name =
      if is_message kind
      then (if same_chars protocol_name name then false else member name message_names)
      else true

  unfoldable mutual
    unfolding is_defined

    -- All the references in a type are, at any depth.
    pub all_defined : TypeDefinition → Bool
    all_defined (type_definition kind name inner static size) =
        let rest = subtypes_defined inner in if is_defined kind name then rest else false

    pub subtypes_defined : Subtypes → Bool
    subtypes_defined no_subtypes = true
    subtypes_defined (subtype first rest) =
        let rest' = subtypes_defined rest in if all_defined first then rest' else false

  queue_defined : List TypeDefinition → Bool
  unfolding all_defined
  queue_defined [] = true
  queue_defined (t ∷ ts) = let rest = queue_defined ts in if all_defined t then rest else false

  queue_size : List TypeDefinition → ℕ
  unfolding type_size
  queue_size [] = 0
  queue_size (t ∷ ts) = type_size t + queue_size ts

  queue_size-subtypes :
      (ts : List TypeDefinition) (inner : Subtypes)
      → queue_size (ts ++ to_list inner) ≡ queue_size ts + subtypes_size inner
  unfolding queue_size to_list subtypes_size
  queue_size-subtypes [] no_subtypes = refl
  queue_size-subtypes [] (subtype t rest) = omega (arith, queue_size-subtypes [] rest)
  queue_size-subtypes (t ∷ ts) inner = omega (arith, queue_size-subtypes ts inner)

  queue_defined-subtypes :
      (ts : List TypeDefinition) (inner : Subtypes)
      → queue_defined (ts ++ to_list inner) ≡ both (queue_defined ts) (subtypes_defined inner)
  unfolding queue_defined to_list subtypes_defined
  queue_defined-subtypes [] no_subtypes = refl
  queue_defined-subtypes [] (subtype t rest) =
      ap (both (all_defined t)) (queue_defined-subtypes [] rest)
  queue_defined-subtypes (t ∷ ts) inner = ground (arith, queue_defined-subtypes ts inner)

  check_type_lem :
      (t : TypeDefinition)
      → is_ok (check_type message_names protocol_name t) ≡ is_defined (get_type t) (get_name t)
  unfolding check_type is_defined
  check_type_lem t = ground arith

  -- The queue is gone through to its end, and passes exactly where all its types are defined.
  check_queue_lem :
      (fuel : ℕ) (ts : List TypeDefinition)
      → queue_size ts ≤ fuel
      → is_ok (check_queue message_names protocol_name fuel ts) ≡ queue_defined ts
  unfolding check_queue queue_size queue_defined type_size
  check_queue_lem zero [] h = refl
  check_queue_lem zero (type_definition kind name inner static size ∷ ts) h = absurd (omega arith)
  check_queue_lem (suc fuel) [] h = refl
  check_queue_lem (suc fuel) (type_definition kind name inner static size ∷ ts) h =
      let fits : queue_size (ts ++ to_list inner) ≤ fuel =
        omega (arith, queue_size-subtypes ts inner) in
      let rest =
        check_queue_lem fuel (ts ++ to_list inner) fits ∙ queue_defined-subtypes ts inner in
      let t = type_definition kind name inner static size in
      is_ok-bind (check_type message_names protocol_name t)
        (check_queue message_names protocol_name fuel (ts ++ to_list inner))
      ∙ ap₂ both (check_type_lem t) rest
      ∙ both_swap (is_defined kind name) (queue_defined ts) (subtypes_defined inner)

  -- Every field is defined, and no name is there already.
  unfoldable pub fields_defined : List Chars → List FieldDefinition → Bool
  unfolding all_defined
  fields_defined names [] = true
  fields_defined names (field ∷ fields) =
      let rest = fields_defined (field.name ∷ names) fields in
      both (all_defined field.definition) (if member field.name names then false else rest)

  queue_of_one : (t : TypeDefinition) → queue_defined (t ∷ []) ≡ all_defined t
  unfolding queue_defined
  queue_of_one t = ground arith

  size_of_one : (t : TypeDefinition) → queue_size (t ∷ []) ≤ type_size t
  unfolding queue_size
  size_of_one t = omega arith

  check_fields_lem :
      (names : List Chars) (fields : List FieldDefinition)
      → is_ok (check_fields message_names protocol_name names fields) ≡ fields_defined names fields
  unfolding check_fields fields_defined
  check_fields_lem names [] = refl
  check_fields_lem names (field ∷ fields) =
      let one =
        check_queue_lem (type_size field.definition) (field.definition ∷ [])
          (size_of_one field.definition) in
      is_ok-bind
        (check_queue message_names protocol_name (type_size field.definition)
          (field.definition ∷ []))
        _
      ∙ ap₂ both (one ∙ queue_of_one field.definition)
          (unless (member field.name names) _ _ (check_fields_lem (field.name ∷ names) fields))

-- Every message has a name of its own, and its fields refer to messages in front of it.
unfoldable pub messages_defined : List Chars → List MessageProtocolDefinition → Bool
unfolding fields_defined
messages_defined names [] = true
messages_defined names (protocol ∷ protocols) =
    let rest = messages_defined (protocol.name ∷ names) protocols in
    if member protocol.name names
    then false
    else both (fields_defined (protocol.name ∷ names) protocol.name [] protocol.fields) rest

unfoldable pub names_after : List Chars → List MessageProtocolDefinition → List Chars
names_after names [] = names
names_after names (protocol ∷ protocols) = names_after (protocol.name ∷ names) protocols

-- Every request has a name of its own, and its fields and those of its response refer to messages.
unfoldable pub requests_defined : List Chars → List Chars → List RequestProtocolDefinition → Bool
unfolding fields_defined
requests_defined names taken [] = true
requests_defined names taken (protocol ∷ protocols) =
    let rest = requests_defined names (protocol.name ∷ taken) protocols in
    if member protocol.name names
    then false
    else if member protocol.name taken
    then false
    else both (fields_defined names protocol.name [] protocol.request_fields)
        (both (fields_defined names protocol.name [] protocol.response_fields) rest)

unfoldable pub protocol_defined : ProtocolDefinition → Bool
unfolding messages_defined requests_defined names_after
protocol_defined protocol =
    both (messages_defined [] protocol.messages)
      (requests_defined (names_after [] protocol.messages) [] protocol.requests)

validate_field_definitions_lem :
    (fields : List FieldDefinition) (names : List Chars) (name : Chars)
    → is_ok (validate_field_definitions fields names name) ≡ fields_defined names name [] fields
unfolding validate_field_definitions
validate_field_definitions_lem fields names name = check_fields_lem names name [] fields

-- The names that the messages leave, if they are accepted, go to the requests.
validate_messages-bind :
    {B : Type 0} (protocols : List MessageProtocolDefinition) (names : List Chars)
    (k : List Chars → Outcome B)
    → is_ok (validate_message_definitions protocols names >>= k)
      ≡ both (messages_defined names protocols) (is_ok (k (names_after names protocols)))
unfolding validate_message_definitions messages_defined names_after
validate_messages-bind [] names k = refl
validate_messages-bind (protocol ∷ protocols) names k =
    guarded-bind (member protocol.name names) _
      (validate_field_definitions protocol.fields (protocol.name ∷ names) protocol.name)
      (validate_message_definitions protocols (protocol.name ∷ names)) k _ _ _
      (validate_field_definitions_lem protocol.fields (protocol.name ∷ names) protocol.name)
      (validate_messages-bind protocols (protocol.name ∷ names) k)

validate_requests_lem :
    (protocols : List RequestProtocolDefinition) (names taken : List Chars)
    → is_ok (validate_requests protocols names taken) ≡ requests_defined names taken protocols
unfolding validate_requests requests_defined
validate_requests_lem [] names taken = refl
validate_requests_lem (protocol ∷ protocols) names taken = unless (member protocol.name names) _ _ (
    unless (member protocol.name taken) _ _ (
      is_ok-bind (validate_field_definitions protocol.request_fields names protocol.name) _
      ∙ ap₂ both (validate_field_definitions_lem protocol.request_fields names protocol.name) (
          is_ok-bind (validate_field_definitions protocol.response_fields names protocol.name) _
          ∙ ap₂ both (validate_field_definitions_lem protocol.response_fields names protocol.name)
              (validate_requests_lem protocols names (protocol.name ∷ taken)))))

-- A protocol file is accepted exactly if no two protocols have one name, no two fields of a protocol
-- have one, every reference in the fields of a message, at any depth of lists and maps, is to a
-- message in front of it, and every reference in a request or its response is to a message.
pub validate_protocol_definition_lem :
    (protocol : ProtocolDefinition)
    → is_ok (validate_protocol_definition protocol) ≡ protocol_defined protocol
unfolding validate_protocol_definition validate_request_definitions protocol_defined
validate_protocol_definition_lem protocol =
    validate_messages-bind protocol.messages [] (validate_request_definitions protocol.requests)
    ∙ ap (both (messages_defined [] protocol.messages))
        (validate_requests_lem protocol.requests (names_after [] protocol.messages) [])
