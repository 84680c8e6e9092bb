-- ===== src/Registry/WellFormed.antt =====
-- Registration is all or nothing, and leaves every descriptor with the functions of its type.
use farseer.Base.{
  Bool-cases, none-ne-some, some_inj, subst, ℕ, ◌≡◌, ◌⊎◌, inl, inr, refl, ◌∙◌, Bool, true, false,
  Option, some, [], arith, ◌==◌, sym, subst, Option-cases, if◌then◌else◌,
}
use farseer.Base.Outcome.{ok, err, protocol_identifier_already_registered, protocol_not_registered}
use farseer.Base.Assoc.{find, contains, find-erase}
use farseer.Registry.{
  ProtocolType, message, request, response, ProtocolDescriptor, ProtocolRegistry,
  is_protocol_registered, get_protocol_descriptor, MessageWithHeaderDeserializer,
  SequencedProtocolWithHeaderDeserializer, ResponseWithHeaderSerializer, register_message_protocol,
  register_request_protocol, message_descriptor, request_descriptor, response_descriptor,
}

-- The functions that the reader calls for a type are there.
abbrev pub HasFunctions : {Any : Type 0} → ProtocolType → ProtocolDescriptor Any → Type 0
HasFunctions {Any} message d =
    (f : MessageWithHeaderDeserializer Any) × (d.message_with_header_deserializer ≡ some f)
HasFunctions {Any} request d =
    (f : SequencedProtocolWithHeaderDeserializer Any) × (g : ResponseWithHeaderSerializer Any)
    × (d.sequenced_protocol_with_header_deserializer ≡ some f)
    × (d.response_with_header_serializer ≡ some g)
HasFunctions {Any} response d =
    (f : SequencedProtocolWithHeaderDeserializer Any)
    × (d.sequenced_protocol_with_header_deserializer ≡ some f)

module _ {Any : Type 0} where
  abbrev pub IsWellFormed : ProtocolRegistry Any → Type 0
  IsWellFormed registry =
      (k : ℕ) (d : ProtocolDescriptor Any)
      → find k registry ≡ some d
      → HasFunctions d.protocol_type d

  keep_functions :
      (c : Bool) (d e : ProtocolDescriptor Any) (rest : Option (ProtocolDescriptor Any))
      → HasFunctions d.protocol_type d
      → (rest ≡ some e → HasFunctions e.protocol_type e)
      → (if c then some d else rest) ≡ some e
      → HasFunctions e.protocol_type e
  keep_functions true d e rest has w h =
      subst (λ (x : ProtocolDescriptor Any). HasFunctions x.protocol_type x) (some_inj h) has
  keep_functions false d e rest has w h = w h

  -- A message is registered under a new identifier, or the registry stays as it is.
  pub register_message_protocol_lem :
      (i : ℕ) (f : MessageWithHeaderDeserializer Any) (registry : ProtocolRegistry Any) (k : ℕ)
      → let r = register_message_protocol i f registry in
        ((r.0 ≡ ok tt)
          × (contains i registry ≡ false)
          × (find k r.1 ≡ (if i == k then some (message_descriptor f) else find k registry)))
        ⊎ ((r.0 ≡ err protocol_identifier_already_registered)
            × (contains i registry ≡ true)
            × (find k r.1 ≡ find k registry))
  unfolding register_message_protocol find
  register_message_protocol_lem i f registry k = ground arith

  abbrev pub IsTaken : ℕ → ℕ → ProtocolRegistry Any → Type 0
  IsTaken i j registry =
      (contains i registry ≡ true) ⊎ ((contains j registry ≡ true) ⊎ ((i == j) ≡ true))

  -- A request is registered with its response or not at all: where neither identifier is taken and
  -- they differ, both are registered, with their descriptors, and no other lookup changes; where either
  -- is taken, or both are the same, it is an error and the registry answers every lookup as before.
  pub register_request_protocol_atomic :
      (i j : ℕ) (f g : SequencedProtocolWithHeaderDeserializer Any)
      (s : ResponseWithHeaderSerializer Any) (registry : ProtocolRegistry Any) (k : ℕ)
      → let r = register_request_protocol i f j g s registry in
        ((r.0 ≡ ok tt)
          × (contains i registry ≡ false)
          × (contains j registry ≡ false)
          × ((i == j) ≡ false)
          × (find k r.1 ≡ (
              if j == k
              then some (response_descriptor g)
              else if i == k
              then some (request_descriptor f s)
              else find k registry)))
        ⊎ ((r.0 ≡ err protocol_identifier_already_registered)
            × IsTaken i j registry
            × (find k r.1 ≡ find k registry))
  unfolding register_request_protocol find
  register_request_protocol_atomic i j f g s registry k = elim (Bool-cases (contains i registry)) [
    | inl taken ↦ inr (ground arith, inl taken, ground arith)
    | inr free ↦ elim (Bool-cases (contains j registry)) [
      | inl taken ↦ inr (ground arith, inr (inl taken), ground (arith, find-erase i k registry))
      | inr free' ↦ elim (Bool-cases (i == j)) [
        | inl same ↦ inr (ground arith, inr (inr same), ground (arith, find-erase i k registry))
        | inr other ↦ inl (ground arith, free, free', other, ground arith)
      ]
    ]
  ]

  pub empty-IsWellFormed : IsWellFormed []
  unfolding find
  empty-IsWellFormed k d h = absurd (none-ne-some h)

  pub register_message_protocol-IsWellFormed :
      (i : ℕ) (f : MessageWithHeaderDeserializer Any) (registry : ProtocolRegistry Any)
      → IsWellFormed registry
      → IsWellFormed (register_message_protocol i f registry).1
  unfolding message_descriptor
  register_message_protocol-IsWellFormed i f registry w k d h =
      elim (register_message_protocol_lem i f registry k) [
        | inl (_, _, e) ↦
            keep_functions (i == k) (message_descriptor f) d (find k registry) (f, refl) (w k d)
              (sym e ∙ h)
        | inr (_, _, e) ↦ w k d (sym e ∙ h)
      ]

  pub register_request_protocol-IsWellFormed :
      (i j : ℕ) (f g : SequencedProtocolWithHeaderDeserializer Any)
      (s : ResponseWithHeaderSerializer Any) (registry : ProtocolRegistry Any)
      → IsWellFormed registry
      → IsWellFormed (register_request_protocol i f j g s registry).1
  unfolding request_descriptor response_descriptor
  register_request_protocol-IsWellFormed i j f g s registry w k d h =
      elim (register_request_protocol_atomic i j f g s registry k) [
        | inl (_, _, _, _, e) ↦
            keep_functions (j == k) (response_descriptor g) d _ (g, refl)
              (keep_functions (i == k) (request_descriptor f s) d (find k registry)
                (f, s, refl, refl) (w k d))
              (sym e ∙ h)
        | inr (_, _, e) ↦ w k d (sym e ∙ h)
      ]

  -- The registries that registrations make, those that fail included.
  pub data Registrations : ProtocolRegistry Any → Type 0 where
    starts : Registrations []
    registers_message :
        {registry : ProtocolRegistry Any} (i : ℕ) (f : MessageWithHeaderDeserializer Any)
        → Registrations registry
        → Registrations (register_message_protocol i f registry).1
    registers_request :
        {registry : ProtocolRegistry Any} (i j : ℕ)
        (f g : SequencedProtocolWithHeaderDeserializer Any) (s : ResponseWithHeaderSerializer Any)
        → Registrations registry
        → Registrations (register_request_protocol i f j g s registry).1

  -- Whatever messages and requests were registered, in whatever order and with whatever outcomes, a
  -- descriptor that is found has the functions that the reader calls for its type.
  pub Registrations-HasFunctions :
      (registry : ProtocolRegistry Any) (k : ℕ) (d : ProtocolDescriptor Any)
      → Registrations registry
      → get_protocol_descriptor k registry ≡ ok d
      → HasFunctions d.protocol_type d
  unfolding get_protocol_descriptor
  Registrations-HasFunctions registry k d made h = elim (Option-cases (find k registry)) [
    | inl e ↦ absurd (ground arith)
    | inr (d', e) ↦ Registrations-IsWellFormed made k d (e ∙ ground arith)
  ]
    where
      Registrations-IsWellFormed :
          {registry : ProtocolRegistry Any} → Registrations registry → IsWellFormed registry
      Registrations-IsWellFormed starts = empty-IsWellFormed
      Registrations-IsWellFormed (registers_message {registry = r} i f made) =
          register_message_protocol-IsWellFormed i f r (Registrations-IsWellFormed made)
      Registrations-IsWellFormed (registers_request {registry = r} i j f g s made) =
          register_request_protocol-IsWellFormed i j f g s r (Registrations-IsWellFormed made)

  -- A protocol has a descriptor exactly when it is registered.
  pub get_protocol_descriptor-is_protocol_registered :
      (k : ℕ) (registry : ProtocolRegistry Any)
      → ((is_protocol_registered k registry ≡ true)
          × (d : ProtocolDescriptor Any) × (get_protocol_descriptor k registry ≡ ok d))
        ⊎ ((is_protocol_registered k registry ≡ false)
            × (get_protocol_descriptor k registry ≡ err protocol_not_registered))
  unfolding is_protocol_registered get_protocol_descriptor
  get_protocol_descriptor-is_protocol_registered k registry =
      elim (Option-cases (find k registry)) [
        | inl e ↦ inr (ground arith, ground arith)
        | inr (d, e) ↦ inl (ground arith, d, ground arith)
      ]
