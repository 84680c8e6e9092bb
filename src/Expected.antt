-- ===== src/Expected.antt =====
-- expected.hpp: a value, or an error code with a message. A std::string is the list of its chars.
use farseer.Base.Chars.{chars}
use farseer.Base.{ℕ, Bool, true, false, List, ◌++◌}
use farseer.Base.Outcome.{Outcome, ok, err, logic_error}

-- The std::variant: `value` is from_success.
pub data Expected (A : Type 0) : Type 0 where
  value : A → Expected A
  error : ℕ → List ℕ → Expected A

abbrev pub internal_server_error_code : ℕ
internal_server_error_code = 0

module _ {A : Type 0} where
  unfoldable pub from_success : A → Expected A
  from_success a = value a

  unfoldable pub from_failure : ℕ → List ℕ → Expected A
  from_failure code message = error code message

  unfoldable pub from_internal_server_error : Expected A
  unfolding from_failure chars
  from_internal_server_error =
      from_failure internal_server_error_code (chars "Internal server error")

  unfoldable pub from_internal_server_error_message : List ℕ → Expected A
  unfolding from_failure chars
  from_internal_server_error_message message =
      from_failure internal_server_error_code (chars "Internal server error: " ++ message)

  unfoldable pub success : Expected A → Bool
  success (value a) = true
  success (error code message) = false

  unfoldable pub failure : Expected A → Bool
  failure (value a) = false
  failure (error code message) = true

  -- std::get throws on the other alternative.
  unfoldable pub get_value : Expected A → Outcome A
  get_value (value a) = ok a
  get_value (error code message) = err logic_error

  unfoldable pub get_error_code : Expected A → Outcome ℕ
  get_error_code (value a) = err logic_error
  get_error_code (error code message) = ok code

  unfoldable pub get_error_message : Expected A → Outcome (List ℕ)
  get_error_message (value a) = err logic_error
  get_error_message (error code message) = ok message
