-- ===== src/Reader.antt =====
-- internal/protocol_reader.hpp and internal/protocol_reader.cpp: the protocols in a stream of bytes
-- are handed to the consumers that the user registered.
mod State
mod Steps
pub mod Loop
pub mod Advance
pub mod Frames
pub mod Stream
pub mod Chunks
mod Dispatch
pub mod Consumers
pub mod Generated
unfoldable pub use State.*
use farseer.Base.{
  ℕ, zero, suc, ◌+◌, ◌*◌, ◌/◌, true, false, Option, none, some, List, [], ◌∷◌, ◌++◌, length, drop,
  leb, if◌then◌else◌,
}
use farseer.Base.Outcome.{
  Outcome, ok, err, Error, logic_error, protocol_not_registered,
  protocol_consumer_already_registered,
}
use farseer.Base.Assoc.{Assoc, find, contains, insert, erase}
use farseer.Wire.Ballotin.{Ballotin, bits_per_byte}
use farseer.Wire.Serializer.{identifier_serializer}
use farseer.Registry.{
  ProtocolType, message, request, response, ProtocolDescriptor, ProtocolRegistry,
  is_protocol_registered, get_protocol_descriptor,
}

-- What `readInboundBytes` works on beside the inbound bytes.
pub record ReadState (Any : Type 0) : Type 0 where
  pub reader : ProtocolReader Any
  pub outbound_bytes : List ℕ
  pub events : List (Event Any)

-- A step may throw, and then keeps what it did before; `some offset` is `true` with the new offset.
abbrev pub Read : Type 0 → Type 0
Read Any = Outcome (Option ℕ) × ReadState Any

module _ {Any : Type 0} where
  abbrev pub add_events : List (Event Any) → ReadState Any → ReadState Any
  add_events new s = record s { events = s.events ++ new }

  -- A call through a null function pointer; no registered descriptor leads to one.
  abbrev null_function : ReadState Any → Read Any
  null_function s = (err logic_error, s)

  unfoldable pub consume_message : ℕ → Any → ReadState Any → ReadState Any
  unfolding wrap_in_try_catch_and_invoke
  consume_message identifier protocol s =
      elim (find identifier s.reader.inbound_message_consumers) [
        | some consumer ↦
            add_events
              (message_consumed identifier protocol
                ∷ wrap_in_try_catch_and_invoke identifier consumer protocol)
              s
        | none ↦ add_events (skipped identifier ∷ []) s
      ]

  unfoldable pub read_inbound_message :
      ℕ → ProtocolDescriptor Any → List ℕ → ℕ → ReadState Any → Read Any
  unfolding consume_message
  read_inbound_message identifier descriptor bytes offset s =
      elim descriptor.message_with_header_deserializer [
        | none ↦ null_function s
        | some deserializer ↦ elim (deserializer bytes offset) [
          | err e ↦ (err e, s)
          | ok none ↦ (ok none, s)
          | ok (some (protocol, offset')) ↦
              (ok (some offset'), consume_message identifier protocol s)
        ]
      ]

  unfoldable pub consume_request :
      ℕ → ProtocolDescriptor Any → ℕ → Any → ℕ → ReadState Any → Read Any
  consume_request identifier descriptor sequence_number protocol offset s =
      elim (find identifier s.reader.inbound_request_consumers) [
        | none ↦ (ok (some offset), add_events (skipped identifier ∷ []) s)
        | some consumer ↦
            let s' = add_events (request_consumed identifier sequence_number protocol ∷ []) s in
            elim descriptor.response_with_header_serializer [
              | none ↦ null_function s'
              | some serializer ↦
                  elim (serializer (consumer protocol) sequence_number s'.outbound_bytes) [
                    | err e ↦ (err e, s')
                    | ok bytes ↦ (ok (some offset), record s' { outbound_bytes = bytes })
                  ]
            ]
      ]

  unfoldable pub read_inbound_request :
      ℕ → ProtocolDescriptor Any → List ℕ → ℕ → ReadState Any → Read Any
  unfolding consume_request
  read_inbound_request identifier descriptor bytes offset s =
      elim descriptor.sequenced_protocol_with_header_deserializer [
        | none ↦ null_function s
        | some deserializer ↦ elim (deserializer bytes offset) [
          | err e ↦ (err e, s)
          | ok none ↦ (ok none, s)
          | ok (some (sequence_number, protocol, offset')) ↦
              consume_request identifier descriptor sequence_number protocol offset' s
        ]
      ]

  -- The consumer of a response is erased once it was called, also where it threw (SCOPE_EXIT).
  unfoldable pub consume_response : ℕ → ℕ → Any → ReadState Any → ReadState Any
  unfolding wrap_in_try_catch_and_invoke
  consume_response identifier sequence_number protocol s =
      elim (find sequence_number s.reader.inbound_one_shot_response_consumers) [
        | some consumer ↦
            add_events
              (response_consumed identifier sequence_number protocol
                ∷ wrap_in_try_catch_and_invoke identifier consumer protocol)
              (record s {
                reader = record s.reader {
                  inbound_one_shot_response_consumers =
                      erase sequence_number s.reader.inbound_one_shot_response_consumers;
                };
              })
        | none ↦ add_events (skipped identifier ∷ []) s
      ]

  unfoldable pub read_inbound_response :
      ℕ → ProtocolDescriptor Any → List ℕ → ℕ → ReadState Any → Read Any
  unfolding consume_response
  read_inbound_response identifier descriptor bytes offset s =
      elim descriptor.sequenced_protocol_with_header_deserializer [
        | none ↦ null_function s
        | some deserializer ↦ elim (deserializer bytes offset) [
          | err e ↦ (err e, s)
          | ok none ↦ (ok none, s)
          | ok (some (sequence_number, protocol, offset')) ↦
              (ok (some offset'), consume_response identifier sequence_number protocol s)
        ]
      ]

-- How the loop of `readInboundBytes` ends, with the offset that it reached. `exhausted` is no C++
-- behaviour: the fuel ran out.
pub data LoopEnd : Type 0 where
  finished : ℕ → LoopEnd
  thrown : Error → ℕ → LoopEnd
  exhausted : LoopEnd

module _ {Any : Type 0} (b : Ballotin) (registry : ProtocolRegistry Any) where
  unfoldable pub read_by_type :
      ProtocolType → ℕ → ProtocolDescriptor Any → List ℕ → ℕ → ReadState Any → Read Any
  unfolding read_inbound_message read_inbound_request read_inbound_response
  read_by_type message = read_inbound_message
  read_by_type request = read_inbound_request
  read_by_type response = read_inbound_response

  -- The protocol at the offset, by the descriptor of its identifier.
  unfoldable pub read_protocol : List ℕ → ℕ → ReadState Any → Read Any
  unfolding read_by_type get_protocol_descriptor
  read_protocol bytes offset s = elim ((identifier_serializer b).deserialize bytes offset) [
    | err e ↦ (err e, s)
    | ok (identifier, offset') ↦ elim (get_protocol_descriptor identifier registry) [
      | err e ↦ (err e, s)
      | ok descriptor ↦ read_by_type descriptor.protocol_type identifier descriptor bytes offset' s
    ]
  ]

  unfoldable pub read_loop : ℕ → List ℕ → ℕ → ReadState Any → LoopEnd × ReadState Any
  unfolding read_protocol
  read_loop zero bytes offset s = (exhausted, s)
  read_loop (suc fuel) bytes offset s = elim (leb (offset / bits_per_byte + 4) (length bytes)) [
    | false ↦ (finished offset, s)
    | true ↦
        let (r, s') = read_protocol bytes offset s in
        elim r [
          | err e ↦ (thrown e offset, s')
          | ok none ↦ (finished offset, s')
          | ok (some offset') ↦ read_loop fuel bytes (bits_per_byte * b.number_of_bytes offset') s'
        ]
  ]

  -- The bytes in front of the offset are erased however the loop ends (SCOPE_EXIT).
  unfoldable pub end_read :
      List ℕ → LoopEnd × ReadState Any → Outcome (Unit {0}) × List ℕ × ReadState Any
  end_read bytes (finished offset, s) = (ok tt, drop (offset / bits_per_byte) bytes, s)
  end_read bytes (thrown e offset, s) = (err e, drop (offset / bits_per_byte) bytes, s)
  end_read bytes (exhausted, s) = (err logic_error, bytes, s)

  -- The outcome, the inbound bytes that are left, and the state. A protocol takes four bytes at
  -- least, so a round for each byte and one to stop is enough.
  unfoldable pub read_inbound_bytes :
      List ℕ → ReadState Any → Outcome (Unit {0}) × List ℕ × ReadState Any
  unfolding read_loop end_read
  read_inbound_bytes bytes s = end_read bytes (read_loop (suc (length bytes)) bytes 0 s)
