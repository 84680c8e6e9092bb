-- ===== src/Generated/Callback.antt =====
-- Response::Metadata::invokeCallback. cpp_protocol.cpp, invokeCallbackTemplate
use farseer.Base.{ℕ, none, some, List}
use farseer.Expected.{
  Expected, from_success, from_failure, from_internal_server_error,
  from_internal_server_error_message,
}
use farseer.Generated.Registration.{AnyOf}

-- How the callback of the user ends: it returns, or throws a RequestProtocolError, another
-- std::exception with its text, or anything else.
pub data CallbackResult (R : Type 0) : Type 0 where
  returns : R → CallbackResult R
  throws_request_error : ℕ → List ℕ → CallbackResult R
  throws_exception : List ℕ → CallbackResult R
  throws_unknown : CallbackResult R

-- The four ways out of the try block.
unfoldable pub answer : {R : Type 0} → CallbackResult R → Expected R
unfolding from_success from_failure from_internal_server_error from_internal_server_error_message
answer (returns response) = from_success response
answer (throws_request_error code text) = from_failure code text
answer (throws_exception what) = from_internal_server_error_message what
answer throws_unknown = from_internal_server_error

module _ {A R : Type 0} where
  -- The cast of the request is inside the try block; `bad_any_cast` is the text of its exception,
  -- which the language leaves open.
  unfoldable pub invoke_callback :
      {Any : Type 0}
      → List ℕ
      → AnyOf Any A
      → AnyOf Any (Expected R)
      → (A → CallbackResult R)
      → Any
      → Any
  unfolding answer from_internal_server_error_message
  invoke_callback bad_any_cast request_any response_any callback x =
      response_any.to_any (elim (request_any.cast x) [
        | none ↦ from_internal_server_error_message bad_any_cast
        | some a ↦ answer (callback a)
      ])
