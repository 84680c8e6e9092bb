-- ===== src/Samples/Service.antt =====
-- Runs of the generated functions, the registry and the reader on the sample protocol file.
use farseer.Base.{
  ◌==◌, none-ne-some, ◌≢◌, some, none, ◌⊎◌, take-append-drop, ◌∙◌, append-nil, ap, drop, concat,
  take, ℕ, ◌≡◌, refl, Bool, true, false, List, [], ◌∷◌, ◌++◌, arith, All,
}
use farseer.Base.Outcome.{
  err, protocol_not_registered, protocol_consumer_already_registered,
  protocol_identifier_already_registered, ok,
}
use farseer.Base.Assoc.{Assoc, contains, find}
use farseer.Reader.Generated.Answers.{IsServing, consume_request_answered}
use farseer.Wire.Buffer.{pack}
use farseer.Wire.Codec.Sequences.{string_bits}
use farseer.Generated.Framing.Layout.{response_bits}
use farseer.Expected.{Expected, value, error}
use farseer.Wire.Bits.{bits}
use farseer.Wire.Ballotin.{list_ballotin, list_ballotin-IsBallotin}
use farseer.Registry.WellFormed.{
  starts, registers_request, Registrations-HasFunctions, registers_message, IsTaken, HasFunctions,
  Registrations, register_request_protocol_atomic,
}
use farseer.Registry.{
  ProtocolType, get_protocol_descriptor, response_descriptor, request_descriptor,
  is_protocol_registered, ProtocolRegistry, register_message_protocol, register_request_protocol,
}
use farseer.Generated.Registration.{
  response_serializer, request_deserializer, register_message, register_request,
}
use farseer.Generated.Callback.{CallbackResult, returns, throws_request_error, invoke_callback}
use farseer.Reader.Chunks.{receive_any_chunks}
use farseer.Reader.Consumers.{
  consume_response_once, consume_response_erases, register_inbound_request_consumer_lem,
}
use farseer.Wire.Advance.{unsigned-Advances, bool-Advances, string-Advances}
use farseer.Reader.Advance.{AllForward}
use farseer.Reader.Generated.Termination.{
  register_message-AllForward, register_request-AllForward, read_inbound_bytes_ends,
}
use farseer.Reader.{
  read_loop, exhausted, ProtocolReader, request_consumed, skipped,
  register_inbound_request_consumer, add_events, consume_request, consume_response, ReadState,
  completes, throws_wide, read_inbound_bytes,
}
use farseer.Reader.Frames.{effects, stream, receive}
use farseer.Reader.Generated.Delivery.{
  item_frames, Item, message, request, response, Knows, Answers, CanSend, serialize_items,
  consume_items, items-AllFrames, delivery,
}
use farseer.Reader.Generated.Callbacks.{ResultInRange, invoke_callback-Answers}
use farseer.Samples.Protocol.{
  told-IsMetadata, ask, told, Held, protocols, tick_metadata, ask_metadata, told_metadata, tick_any,
  ask_any, told_any,
}

-- What registerMessageProtocol and registerRequestProtocol leave.
abbrev pub registry : ProtocolRegistry Held
registry =
    (register_request list_ballotin ask_any ask_metadata told_any told_metadata
      (register_message list_ballotin tick_any tick_metadata []).1).1

pub registry-Knows : Knows list_ballotin protocols registry
unfolding register_message register_request register_message_protocol register_request_protocol find
registry-Knows = record { message_known = refl; request_known = refl; response_known = refl }

-- Yes is refused with error 5.
abbrev callback : Bool → CallbackResult (List ℕ)
callback true = throws_request_error 5 (110 ∷ 111 ∷ [])
callback false = returns (111 ∷ 107 ∷ [])

callback-InRange : (q : Bool) → ResultInRange protocols (callback q)
unfolding bits
callback-InRange true = ground arith
callback-InRange false = ground arith

abbrev consumers : Assoc (Held → Held)
consumers = (300, invoke_callback [] ask_any told_any callback) ∷ []

consumers-Answers : Answers list_ballotin protocols consumers
consumers-Answers =
    (invoke_callback-Answers protocols list_ballotin [] [] callback (ask true) callback-InRange).1

invoke_callback-Answers_example :
    ((e : Expected (List ℕ)) × (invoke_callback [] ask_any told_any callback (ask true) ≡ told e)
      × (e ≡ error 5 (110 ∷ 111 ∷ [])))
    × Answers list_ballotin protocols consumers
invoke_callback-Answers_example =
    invoke_callback-Answers protocols list_ballotin [] [] callback (ask true) callback-InRange

-- The consumer of the message throws.
abbrev start : ReadState Held
start = record {
  reader = record {
    inbound_message_consumers = (7, λ x. throws_wide) ∷ [];
    inbound_request_consumers = consumers;
    inbound_one_shot_response_consumers = (9, λ x. completes) ∷ [];
  };
  outbound_bytes = [];
  events = [];
}

-- A request, a message, a request, and two responses of the same sequence number.
abbrev items : List (Item ℕ Bool (List ℕ))
items =
    request 1 true
    ∷ message 258
    ∷ request 2 false
    ∷ response 9 (value (104 ∷ 105 ∷ []))
    ∷ response 9 (error 4 [])
    ∷ []

abbrev sent : List ℕ
sent = stream (item_frames list_ballotin protocols items)

-- The first cut is inside the request, the second inside the response.
abbrev chunks : List (List ℕ)
chunks = take 7 sent ∷ take 30 (drop 7 sent) ∷ drop 30 (drop 7 sent) ∷ []

chunks_cut : concat chunks ≡ sent
chunks_cut =
    ap (λ xs. take 7 sent ++ (take 30 (drop 7 sent) ++ xs)) (append-nil (drop 30 (drop 7 sent)))
    ∙ ap (◌++◌ (take 7 sent)) (take-append-drop 30 (drop 7 sent))
    ∙ take-append-drop 7 sent

items-CanSend : All (CanSend list_ballotin protocols) items
unfolding bits
items-CanSend = ground arith

delivery_example :
    (serialize_items list_ballotin protocols items [] ≡ ok (concat chunks))
    × (receive (read_inbound_bytes list_ballotin registry) chunks [] start
        ≡ (ok tt, [], consume_items list_ballotin protocols items start))
delivery_example =
    delivery list_ballotin protocols list_ballotin-IsBallotin registry registry-Knows consumers
      consumers-Answers items start chunks items-CanSend (record { same = refl; bytes = tt })
      chunks_cut

receive_any_chunks_example :
    receive (read_inbound_bytes list_ballotin registry) chunks [] start
    ≡ (ok tt, [], effects (item_frames list_ballotin protocols items) start)
receive_any_chunks_example =
    receive_any_chunks list_ballotin registry (IsServing consumers) chunks
      (item_frames list_ballotin protocols items) start
      (items-AllFrames list_ballotin protocols list_ballotin-IsBallotin registry registry-Knows
        consumers consumers-Answers items items-CanSend)
      (record { same = refl; bytes = tt }) chunks_cut

-- The callback refuses the question.
consume_request_answered_example :
    consume_request 300
      (request_descriptor
        (request_deserializer list_ballotin ask_any ask_metadata)
        (response_serializer list_ballotin told_any told_metadata))
      6
      (ask true)
      40
      start
    ≡ (
      ok (some 40),
      record start {
        outbound_bytes =
            pack (response_bits told_metadata string_bits 6 (error 5 (110 ∷ 111 ∷ [])));
        events = request_consumed 300 6 (ask true) ∷ [];
      },
    )
unfolding find bits invoke_callback
consume_request_answered_example =
    consume_request_answered consumers list_ballotin-IsBallotin told-IsMetadata told_any
      (request_deserializer list_ballotin ask_any ask_metadata) 300 6 (omega arith) (ask true) 40
      start (record { same = refl; bytes = tt }) (invoke_callback [] ask_any told_any callback)
      (error 5 (110 ∷ 111 ∷ [])) refl refl (ground arith) (ground arith)

consume_response_erases_example :
    find 9
      (consume_response 70000 9 (told (value [])) start).reader.inbound_one_shot_response_consumers
    ≡ none
unfolding find
consume_response_erases_example = consume_response_erases 70000 9 (told (value [])) start 9

consume_response_once_example :
    consume_response 70000 9 (told (error 1 [])) (consume_response 70000 9 (told (value [])) start)
    ≡ add_events (skipped 70000 ∷ []) (consume_response 70000 9 (told (value [])) start)
consume_response_once_example =
    consume_response_once 70000 70000 9 (told (value [])) (told (error 1 [])) start

-- A second consumer.
register_inbound_request_consumer_lem_example :
    let r = register_inbound_request_consumer registry 300 (λ x. x) start.reader in
    ((is_protocol_registered 300 registry ≡ false) × (r ≡ err protocol_not_registered))
    ⊎ (((c : Held → Held) × (is_protocol_registered 300 registry ≡ true)
          × (find 300 consumers ≡ some c)
          × (r ≡ err protocol_consumer_already_registered))
        ⊎ ((reader' : ProtocolReader Held) × (r ≡ ok reader')
            × (is_protocol_registered 300 registry ≡ true)
            × (find 300 consumers ≡ none)
            × (find 4 reader'.inbound_request_consumers ≡ find 4 consumers)))
register_inbound_request_consumer_lem_example =
    register_inbound_request_consumer_lem registry 300 (λ x. x) start.reader 4

-- The identifier 300 of the request is taken.
register_request_protocol_atomic_example :
    let r =
      register_request_protocol 300
        (λ bytes n. ok none)
        8
        (λ bytes n. ok none)
        (λ x n bytes. ok bytes)
        registry in
    ((r.0 ≡ ok tt)
      × (contains 300 registry ≡ false)
      × (contains 8 registry ≡ false)
      × ((300 == 8) ≡ false)
      × (find 8 r.1 ≡ some (response_descriptor (λ bytes n. ok none))))
    ⊎ ((r.0 ≡ err protocol_identifier_already_registered)
        × IsTaken 300 8 registry
        × (find 8 r.1 ≡ find 8 registry))
register_request_protocol_atomic_example =
    register_request_protocol_atomic 300 8 (λ bytes n. ok none) (λ bytes n. ok none)
      (λ x n bytes. ok bytes) registry 8

-- A message, a request with its response, and a message under the identifier of the request.
abbrev registered : ProtocolRegistry Held
registered =
    (register_message_protocol 5 (λ bytes n. ok none)
      (register_request_protocol 5 (λ bytes n. ok none) 6 (λ bytes n. ok none)
        (λ x n bytes. ok bytes) (register_message_protocol 4 (λ bytes n. ok none) []).1).1).1

registered-Registrations : Registrations registered
registered-Registrations =
    registers_message 5 (λ bytes n. ok none)
      (registers_request 5 6 (λ bytes n. ok none) (λ bytes n. ok none) (λ x n bytes. ok bytes)
        (registers_message 4 (λ bytes n. ok none) starts))

registered_request :
    get_protocol_descriptor 5 registered
    ≡ ok (request_descriptor (λ bytes n. ok none) (λ x n bytes. ok bytes))
unfolding get_protocol_descriptor register_message_protocol register_request_protocol find
registered_request = refl

Registrations-HasFunctions_example :
    HasFunctions {Any = Held} ProtocolType.request
      (request_descriptor (λ bytes n. ok none) (λ x n bytes. ok bytes))
unfolding request_descriptor
Registrations-HasFunctions_example =
    Registrations-HasFunctions registered 5
      (request_descriptor (λ bytes n. ok none) (λ x n bytes. ok bytes)) registered-Registrations
      registered_request

registry-AllForward : AllForward registry
unfolding find
registry-AllForward =
    register_request-AllForward list_ballotin ask_any ask_metadata told_any told_metadata
      (register_message list_ballotin tick_any tick_metadata []).1 (bool-Advances list_ballotin)
      (string-Advances list_ballotin)
      (register_message-AllForward list_ballotin tick_any tick_metadata []
        (unsigned-Advances list_ballotin 4) (λ k d h. absurd (none-ne-some h)))

-- An identifier that nobody registered.
read_inbound_bytes_ends_example :
    (read_loop list_ballotin registry 7 (1 ∷ 2 ∷ 3 ∷ 4 ∷ 5 ∷ 6 ∷ []) 0 start).0 ≢ exhausted
read_inbound_bytes_ends_example =
    read_inbound_bytes_ends list_ballotin registry (1 ∷ 2 ∷ 3 ∷ 4 ∷ 5 ∷ 6 ∷ []) start
      list_ballotin-IsBallotin registry-AllForward
