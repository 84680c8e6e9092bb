-- ===== src/Generated/Framing/Request.antt =====
-- Requests and responses are read back whole, and waited for otherwise.
use farseer.Base.{
  ℕ, ◌+◌, ◌*◌, ◌^◌, ◌≤◌, ◌<◌, ◌≡◌, refl, ap, ◌∙◌, Bool, List, ◌++◌, arith, length, if◌then◌else◌,
  length-append, none, some, le→leb, lt→leb_false, Bool-cases, inl, inr,
}
use farseer.Base.Outcome.{ok}
use farseer.Expected.{Expected}
use farseer.Wire.Bits.{length-bits}
use farseer.Wire.Buffer.{unpack}
use farseer.Wire.Ballotin.{Ballotin, IsBallotin}
use farseer.Wire.Codec.Scalars.{unsigned_bits}
use farseer.Wire.Codec.Sequences.{first_run, second_run}
use farseer.Wire.Codec.Maps.{expected_bits, ExpectedInRange, expected-IsCodec}
use farseer.Generated.Metadata.{Metadata, IsMetadata}
use farseer.Generated.Framing.Layout.{dynamic_bits, body_bits, body_size}
use farseer.Generated.Framing.Read.{available}
use farseer.Generated.Framing.Sequenced.{read_number, read_dynamic_lem, read_dynamic_short}
use farseer.Generated.Request
use farseer.Generated.Response

module _ {b : Ballotin} (law : IsBallotin b) {A : Type 0} {m : Metadata A} {P : A → Type 0}
    {encode : A → List Bool} (meta : IsMetadata m P encode) where
  pick :
      (s : Bool) (xs ys : List Bool) {t : Bool}
      → s ≡ t
      → (if s then xs else ys) ≡ (if t then xs else ys)
  pick s xs ys e = ap (λ (t : Bool). if t then xs else ys) e

  pick_size : (s : Bool) (i j : ℕ) {t : Bool} → s ≡ t → (if s then i else j) ≡ (if t then i else j)
  pick_size s i j e = ap (λ (t : Bool). if t then i else j) e

  -- From the sequence number and the body of a request in range, whatever stands before and behind
  -- them, tryDeserializeWithHeader reads both and moves the offset behind the fields.
  pub request-try_deserialize :
      (a : A) (n : ℕ) (bytes : List ℕ) (pre post : List Bool)
      → n < 2 ^ 64
      → P a
      → length (encode a) < 2 ^ 32
      → unpack bytes ≡ pre ++ ((unsigned_bits 8 n ++ body_bits m encode a) ++ post)
      → Request.try_deserialize_with_header b m bytes (length pre)
        ≡ ok (some (n, a, length pre + (64 + body_size m encode a)))
  unfolding Request.try_deserialize_with_header
  request-try_deserialize a n bytes pre post small r fits e = elim (Bool-cases m.has_static_size) [
    | inl static ↦
        let seq = unsigned_bits 8 n in
        let e' : unpack bytes ≡ pre ++ ((seq ++ encode a) ++ post) =
          e
          ∙ ap (λ xs. pre ++ ((seq ++ xs) ++ post))
              (pick m.has_static_size (encode a) (dynamic_bits (encode a)) static) in
        let first = first_run pre seq (encode a) post e' in
        let enough : length pre + 64 + length (encode a) ≤ 8 * length bytes = omega (
          arith,
          available bytes pre (seq ++ (encode a ++ post)) first,
          length-append seq (encode a ++ post),
          length-append (encode a) post,
          length-bits 64 n,
        ) in
        rw
          (
            static,
            ← meta.static_size a r static,
            le→leb _ _ enough,
            read_number law 8 n bytes pre (encode a ++ post) (omega arith) small first,
            meta.codec.reads a bytes (pre ++ seq) post r (second_run pre seq (encode a) post e'),
          )
          (ap (λ (k : ℕ). ok (some (n, a, k)))
            (omega (
              arith,
              length-append (pre ++ seq) (encode a),
              length-append pre seq,
              length-bits 64 n,
            )))
    | inr dynamic ↦
        let e' =
          e
          ∙ ap (λ xs. pre ++ ((unsigned_bits 8 n ++ xs) ++ post))
              (pick m.has_static_size (encode a) (dynamic_bits (encode a)) dynamic) in
        rw dynamic (
          read_dynamic_lem law meta.codec n small a r fits bytes pre post e'
          ∙ ap (λ (k : ℕ). ok (some (n, a, k))) (omega arith))
  ]

  -- Where the bytes end before the last bit of the request's fields, tryDeserializeWithHeader of a
  -- request returns false.
  pub request-try_deserialize_short :
      (a : A) (n : ℕ) (bytes : List ℕ) (pre part more : List Bool)
      → n < 2 ^ 64
      → P a
      → length (encode a) < 2 ^ 32
      → unpack bytes ≡ pre ++ part
      → part ++ more ≡ unsigned_bits 8 n ++ body_bits m encode a
      → length part < 64 + body_size m encode a
      → Request.try_deserialize_with_header b m bytes (length pre) ≡ ok none
  unfolding Request.try_deserialize_with_header
  request-try_deserialize_short a n bytes pre part more small r fits e prefix short =
      elim (Bool-cases m.has_static_size) [
        | inl static ↦
            let few : 8 * length bytes < length pre + 64 + m.static_number_of_bits = omega (
              arith,
              available bytes pre part e,
              meta.static_size a r static,
              pick_size m.has_static_size (length (encode a)) (32 + length (encode a)) static,
            ) in
            rw (static, lt→leb_false _ _ few) refl
        | inr dynamic ↦
            let few : length part < 96 + length (encode a) = omega (
              arith,
              pick_size m.has_static_size (length (encode a)) (32 + length (encode a)) dynamic,
            ) in
            let body =
              prefix
              ∙ ap (◌++◌ (unsigned_bits 8 n))
                  (pick m.has_static_size (encode a) (dynamic_bits (encode a)) dynamic) in
            rw dynamic
              (read_dynamic_short law meta.codec n small a r fits bytes pre part more e body few)
      ]

  -- From the sequence number and the body of a response in range, success or error,
  -- tryDeserializeWithHeader reads both and moves the offset behind them.
  pub response-try_deserialize :
      (x : Expected A) (n : ℕ) (bytes : List ℕ) (pre post : List Bool)
      → n < 2 ^ 64
      → ExpectedInRange P x
      → length (expected_bits encode x) < 2 ^ 32
      → unpack bytes ≡ pre ++ ((unsigned_bits 8 n ++ dynamic_bits (expected_bits encode x)) ++ post)
      → Response.try_deserialize_with_header b m bytes (length pre)
        ≡ ok (some (n, x, length pre + (96 + length (expected_bits encode x))))
  unfolding Response.try_deserialize_with_header
  response-try_deserialize x n bytes pre post small r fits e =
      read_dynamic_lem law (expected-IsCodec law meta.codec) n small x r fits bytes pre post e

  -- Where the bytes end before the last bit of the response, tryDeserializeWithHeader of a response
  -- returns false.
  pub response-try_deserialize_short :
      (x : Expected A) (n : ℕ) (bytes : List ℕ) (pre part more : List Bool)
      → n < 2 ^ 64
      → ExpectedInRange P x
      → length (expected_bits encode x) < 2 ^ 32
      → unpack bytes ≡ pre ++ part
      → part ++ more ≡ unsigned_bits 8 n ++ dynamic_bits (expected_bits encode x)
      → length part < 96 + length (expected_bits encode x)
      → Response.try_deserialize_with_header b m bytes (length pre) ≡ ok none
  unfolding Response.try_deserialize_with_header
  response-try_deserialize_short x n bytes pre part more small r fits e prefix short =
      read_dynamic_short law (expected-IsCodec law meta.codec) n small x r fits bytes pre part more
        e prefix short
