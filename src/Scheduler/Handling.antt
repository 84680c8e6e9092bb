-- ===== src/Scheduler/Handling.antt =====
-- How internal/windows/operation_scheduler.cpp runs an operation that was dequeued: the status of its I/O,
-- its execute, what that throws, and its failure hook. A text is the same in either width of characters.
use farseer.Base.{◌⊎◌, inl, inr, ℕ, Bool, false, Option, none, some, List, [], ◌∷◌, ◌++◌}
use farseer.Scheduler.{Behaviour}

-- What execute throws.
pub data Thrown : Type 0 where
  socket_not_found_error : Thrown
  internal_socket_error_with_code : (code : ℕ) (message : List ℕ) → Thrown
  wide_exception : (message : List ℕ) → Thrown
  exception : (what : List ℕ) → Thrown
  unknown_exception : Thrown

-- An operation: execute gives the system operations that it has scheduled up to its end and what it
-- returns or throws; the hook gives those that it has scheduled up to its end, which may be a throw.
pub record Operation : Type 0 where
  pub execute : ℕ → List (Bool × ℕ) × (Thrown ⊎ Bool)
  pub on_failure : Option ℕ → Option (List ℕ) → List (Bool × ℕ)

-- "An unknown exception was thrown"
abbrev pub unknown_message : List ℕ
unknown_message =
    65 ∷ 110 ∷ 32 ∷ 117 ∷ 110 ∷ 107 ∷ 110 ∷ 111 ∷ 119 ∷ 110 ∷ 32 ∷ 101 ∷ 120 ∷ 99 ∷ 101 ∷ 112 ∷ 116
    ∷ 105 ∷ 111 ∷ 110 ∷ 32 ∷ 119 ∷ 97 ∷ 115 ∷ 32 ∷ 116 ∷ 104 ∷ 114 ∷ 111 ∷ 119 ∷ 110 ∷ []

-- handleFailedOperation, which logs what the hook throws.
unfoldable pub handle_failed_operation : Operation → Option ℕ → Option (List ℕ) → List (Bool × ℕ)
handle_failed_operation operation code message = operation.on_failure code message

-- The code and the message of each handler of handleSuccessfulOperation.
unfoldable pub handle_thrown : Operation → Thrown → List (Bool × ℕ)
unfolding handle_failed_operation
handle_thrown operation socket_not_found_error = handle_failed_operation operation none none
handle_thrown operation (internal_socket_error_with_code code message) =
    handle_failed_operation operation (some code) (some message)
handle_thrown operation (wide_exception message) =
    handle_failed_operation operation none (some message)
handle_thrown operation (exception what) = handle_failed_operation operation none (some what)
handle_thrown operation unknown_exception =
    handle_failed_operation operation none (some unknown_message)

unfoldable pub executed : Operation → List (Bool × ℕ) × (Thrown ⊎ Bool) → Behaviour
unfolding handle_thrown
executed operation (schedules, inr rescheduled) = record {
  schedules = schedules;
  rescheduled = rescheduled;
}
executed operation (schedules, inl thrown) = record {
  schedules = schedules ++ handle_thrown operation thrown;
  rescheduled = false;
}

-- An entry of the completion port: the error code of its status where that is negative.
pub record OverlappedEntry : Type 0 where
  pub operation : Operation
  pub failed : Option ℕ
  pub bytes_transferred : ℕ

unfoldable pub handle_status : Operation → Option ℕ → ℕ → Behaviour
unfolding executed handle_failed_operation
handle_status operation none bytes_transferred =
    executed operation (operation.execute bytes_transferred)
handle_status operation (some code) bytes_transferred = record {
  schedules = handle_failed_operation operation (some code) none;
  rescheduled = false;
}

-- consumeOperation
unfoldable pub behave : OverlappedEntry → Behaviour
unfolding handle_status
behave c = handle_status c.operation c.failed c.bytes_transferred
