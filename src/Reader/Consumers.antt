-- ===== src/Reader/Consumers.antt =====
-- The registration of consumers, and how long a consumer stays.
use farseer.Base.{
  true, ==_refl, Bool-cases, ℕ, ◌≡◌, ◌⊎◌, inl, inr, refl, false, none, some, [], ◌∷◌, arith, ◌==◌,
  Option-cases, if◌then◌else◌,
}
use farseer.Base.Outcome.{ok, err, protocol_not_registered, protocol_consumer_already_registered}
use farseer.Base.Assoc.{find, insert, find-erase, find-insert}
use farseer.Registry.{ProtocolRegistry, is_protocol_registered}
use farseer.Reader.{
  ProtocolReader, ReadState, skipped, register_inbound_request_consumer, consume_response,
  add_events,
}

module _ {Any : Type 0} where
  -- A request consumer is registered exactly for a known protocol that has none, and then is the
  -- consumer of that protocol and of no other; an unknown protocol, or a second consumer, is an error.
  pub register_inbound_request_consumer_lem :
      (registry : ProtocolRegistry Any) (i : ℕ) (consumer : Any → Any) (reader : ProtocolReader Any)
      (k : ℕ)
      → let r = register_inbound_request_consumer registry i consumer reader in
        ((is_protocol_registered i registry ≡ false) × (r ≡ err protocol_not_registered))
        ⊎ (((c : Any → Any) × (is_protocol_registered i registry ≡ true)
              × (find i reader.inbound_request_consumers ≡ some c)
              × (r ≡ err protocol_consumer_already_registered))
            ⊎ ((reader' : ProtocolReader Any) × (r ≡ ok reader')
                × (is_protocol_registered i registry ≡ true)
                × (find i reader.inbound_request_consumers ≡ none)
                × (find k reader'.inbound_request_consumers
                    ≡ (if i == k then some consumer else find k reader.inbound_request_consumers))))
  unfolding register_inbound_request_consumer
  register_inbound_request_consumer_lem registry i consumer reader k =
      elim (Bool-cases (is_protocol_registered i registry)) [
        | inr unknown ↦ inl (unknown, ground arith)
        | inl known ↦ elim (Option-cases (find i reader.inbound_request_consumers)) [
          | inr (c, found) ↦ inr (inl (c, known, found, ground arith))
          | inl missing ↦ inr (
              inr (
                record reader {
                  inbound_request_consumers = insert i consumer reader.inbound_request_consumers;
                },
                ground arith,
                known,
                missing,
                ground (arith, find-insert i k consumer reader.inbound_request_consumers),
              ))
        ]
      ]

  -- A response takes its consumer away, and no other consumer.
  pub consume_response_erases :
      (i n : ℕ) (x : Any) (s : ReadState Any) (k : ℕ)
      → find k (consume_response i n x s).reader.inbound_one_shot_response_consumers
        ≡ (if n == k then none else find k s.reader.inbound_one_shot_response_consumers)
  unfolding consume_response
  consume_response_erases i n x s k =
      ground (arith, find-erase n k s.reader.inbound_one_shot_response_consumers)

  consume_response_skipped :
      (j n : ℕ) (y : Any) (s : ReadState Any)
      → find n s.reader.inbound_one_shot_response_consumers ≡ none
      → consume_response j n y s ≡ add_events (skipped j ∷ []) s
  unfolding consume_response
  consume_response_skipped j n y s h = rw (h, consume_response) refl

  -- A second response of a sequence number reaches no consumer, whatever the first one did.
  pub consume_response_once :
      (i j n : ℕ) (x y : Any) (s : ReadState Any)
      → let s' = consume_response i n x s in
        consume_response j n y s' ≡ add_events (skipped j ∷ []) s'
  consume_response_once i j n x y s =
      consume_response_skipped j n y (consume_response i n x s)
        (rw (consume_response_erases i n x s n, ==_refl n) refl)
