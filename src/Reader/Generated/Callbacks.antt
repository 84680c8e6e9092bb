-- ===== src/Reader/Generated/Callbacks.antt =====
-- SocketProvider::registerRequestCallback (socket_provider.hpp): a callback of the user that
-- invokeCallback wraps is a consumer whose answers can be sent.
use farseer.Base.{
  inr, inl, Option-cases, Option, none, ==_refl, ℕ, ◌+◌, ◌*◌, ◌^◌, ◌<◌, ◌≡◌, refl, sym, ap, ◌∙◌,
  some, some_inj, List, [], ◌∷◌, ◌++◌, length, length-append, arith, All, All-append,
}
use farseer.Base.Assoc.{Assoc, find}
use farseer.Base.Chars.{chars}
use farseer.Expected.{
  value, from_success, Expected, error, from_failure, from_internal_server_error,
  from_internal_server_error_message,
}
use farseer.Wire.Bits.{length-bits}
use farseer.Wire.Buffer.{IsByte}
use farseer.Wire.Ballotin.{Ballotin}
use farseer.Wire.Codec.Scalars.{unsigned_bits}
use farseer.Wire.Codec.Sequences.{concat_bits, string_bits}
use farseer.Wire.Codec.Maps.{expected_bits, ExpectedInRange}
use farseer.Generated.Callback.{
  CallbackResult, returns, throws_request_error, throws_exception, throws_unknown, answer,
  invoke_callback,
}
use farseer.Reader.Generated.Delivery.{Protocols, Answers}

length-string_bits : (cs : List ℕ) → length (string_bits cs) ≡ 32 + 8 * length cs
length-string_bits cs = omega (
  arith,
  length-append (unsigned_bits 4 (length cs)) (concat_bits (unsigned_bits 1) cs),
  length-bits 32 (length cs),
  body cs,
)
  where
    body : (cs : List ℕ) → length (concat_bits (unsigned_bits 1) cs) ≡ 8 * length cs
    body [] = refl
    body (c ∷ cs) = omega (
      arith,
      length-append (unsigned_bits 1 c) (concat_bits (unsigned_bits 1) cs),
      length-bits 8 c,
      body cs,
    )

module _ {Any A Q R : Type 0} (p : Protocols Any A Q R) where
  abbrev pub CanAnswer : Expected R → Type 0
  CanAnswer e = ExpectedInRange p.InResponse e × (length (expected_bits p.response_code e) < 2 ^ 32)

  -- The texts of exceptions are no longer than 2^28 chars, and the error codes are 32 bits wide.
  abbrev pub IsText : List ℕ → Type 0
  IsText text = All IsByte text × (length text < 2 ^ 28)

  abbrev pub ResultInRange : CallbackResult R → Type 0
  ResultInRange (returns a) = p.InResponse a × (length (p.response_code a) < 2 ^ 31)
  ResultInRange (throws_request_error code text) = (code < 2 ^ 32) × IsText text
  ResultInRange (throws_exception what) = IsText what
  ResultInRange throws_unknown = Unit {0}

  error_fits :
      (code : ℕ) (text : List ℕ)
      → code < 2 ^ 32
      → All IsByte text
      → length text < 2 ^ 28 + 23
      → CanAnswer (error code text)
  error_fits code text c bytes short = (
    (c, (omega arith, bytes)),
    omega (
      arith,
      length-append (unsigned_bits 4 code) (string_bits text),
      length-bits 32 code,
      length-string_bits text,
    ),
  )

  server_error_fits :
      (what : List ℕ) → IsText what → CanAnswer (from_internal_server_error_message what)
  unfolding from_internal_server_error_message from_failure chars
  server_error_fits what t =
      error_fits 0 (chars "Internal server error: " ++ what) (omega arith)
        (All-append IsByte (chars "Internal server error: ") what (ground arith) t.0)
        (omega (arith, t.1))

  answer-CanAnswer : (c : CallbackResult R) → ResultInRange c → CanAnswer (answer c)
  unfolding answer from_success from_failure from_internal_server_error chars
  answer-CanAnswer (returns a) r = (r.0, omega (arith, r.1))
  answer-CanAnswer (throws_request_error code text) r =
      error_fits code text r.0 r.1.0 (omega (arith, r.1.1))
  answer-CanAnswer (throws_exception what) r = server_error_fits what r
  answer-CanAnswer throws_unknown r =
      error_fits 0 (chars "Internal server error") (omega arith) (ground arith) (omega arith)

  -- What the peer is to be told about the end of a callback.
  abbrev pub IsAnswer : CallbackResult R → Expected R → Type 0
  IsAnswer (returns response) e = e ≡ value response
  IsAnswer (throws_request_error code text) e = e ≡ error code text
  IsAnswer (throws_exception what) e = e ≡ error 0 (chars "Internal server error: " ++ what)
  IsAnswer throws_unknown e = e ≡ error 0 (chars "Internal server error")

  answer-IsAnswer : (c : CallbackResult R) → IsAnswer c (answer c)
  unfolding answer from_success from_failure from_internal_server_error chars
      from_internal_server_error_message
  answer-IsAnswer (returns response) = refl
  answer-IsAnswer (throws_request_error code text) = refl
  answer-IsAnswer (throws_exception what) = refl
  answer-IsAnswer throws_unknown = refl

  wrapped-Answers :
      (b : Ballotin) (consumers : Assoc (Any → Any)) (bad_any_cast : List ℕ)
      (callback : Q → CallbackResult R)
      → ((q : Q) → ResultInRange (callback q))
      → Answers b p (
          (
            p.request_metadata.protocol_identifier,
            invoke_callback bad_any_cast p.request_any p.response_any callback,
          )
          ∷ consumers)
  unfolding invoke_callback find
  wrapped-Answers b consumers bad_any_cast callback in_range consumer q found =
      let first : invoke_callback bad_any_cast p.request_any p.response_any callback ≡ consumer =
        some_inj (
          head (p.request_metadata.protocol_identifier)
            (invoke_callback bad_any_cast p.request_any p.response_any callback) consumers
          ∙ found) in
      let (r, fits) = answer-CanAnswer (callback q) (in_range q) in
      (
        answer (callback q),
        sym (ap (λ (c : Any → Any). c (p.request_any.to_any q)) first)
            ∙ (rw (p.request_any.cast_to_any q, invoke_callback) refl),
        r,
        fits,
      )
    where
      head : (k : ℕ) (c : Any → Any) (cs : Assoc (Any → Any)) → some c ≡ find k ((k, c) ∷ cs)
      head k c cs = rw (==_refl k) refl

  -- Of what the cast of the request gives.
  abbrev pub IsAnswerTo : List ℕ → (Q → CallbackResult R) → Option Q → Expected R → Type 0
  IsAnswerTo bad_any_cast callback none e =
      e ≡ error 0 (chars "Internal server error: " ++ bad_any_cast)
  IsAnswerTo bad_any_cast callback (some q) e = IsAnswer (callback q) e

  wrapped-IsAnswerTo :
      (bad_any_cast : List ℕ) (callback : Q → CallbackResult R) (x : Any)
      → (e : Expected R) × (invoke_callback bad_any_cast p.request_any p.response_any callback x
          ≡ p.response_any.to_any e)
        × IsAnswerTo bad_any_cast callback (p.request_any.cast x) e
  unfolding invoke_callback from_internal_server_error_message from_failure chars
  wrapped-IsAnswerTo bad_any_cast callback x = elim (Option-cases (p.request_any.cast x)) [
    | inl h ↦ rw (h, invoke_callback) (_, refl, refl)
    | inr (q, h) ↦ rw (h, invoke_callback) (_, refl, answer-IsAnswer (callback q))
  ]

  -- A callback of the user that invokeCallback wraps, on whatever std::any: a request is answered with
  -- the value that the callback returns, with the code and the text of a RequestProtocolError, with
  -- error 0 and the text of any other std::exception behind `Internal server error: `, or with error 0
  -- and `Internal server error`; where the cast to a request fails, with error 0 and the text of that
  -- exception in the same way. If what the callback returns or throws is in range, a reader whose
  -- consumer it is answers every request with a response that can be sent.
  pub invoke_callback-Answers :
      (b : Ballotin) (consumers : Assoc (Any → Any)) (bad_any_cast : List ℕ)
      (callback : Q → CallbackResult R) (x : Any)
      → ((q : Q) → ResultInRange (callback q))
      → let wrapped = invoke_callback bad_any_cast p.request_any p.response_any callback in
        ((e : Expected R) × (wrapped x ≡ p.response_any.to_any e)
          × IsAnswerTo bad_any_cast callback (p.request_any.cast x) e)
        × Answers b p ((p.request_metadata.protocol_identifier, wrapped) ∷ consumers)
  invoke_callback-Answers b consumers bad_any_cast callback x in_range = (
    wrapped-IsAnswerTo bad_any_cast callback x,
    wrapped-Answers b consumers bad_any_cast callback in_range,
  )
