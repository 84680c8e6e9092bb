-- ===== src/Tasks.antt =====
-- internal/linux/task_queue.cpp, and the consumption of tasks by the event thread:
-- internal/linux/linux_socket_provider_implementation.cpp. The mutex makes insert and transfer one step
-- each; a task is anything of a type `T` that is executed on the sockets, of a type `S`.
pub mod Order
use farseer.Base.{
  ℕ, zero, suc, ◌+◌, ◌==◌, Bool, true, false, Option, none, some, if◌then◌else◌, List, [], ◌∷◌,
  ◌++◌,
}
use farseer.Base.Outcome.{Outcome, ok, err, internal_socket_error}

-- `none` is the null pointer that ends the thread; `counter` is that of the event file descriptor.
pub record TaskQueue (T : Type 0) : Type 0 where
  pub tasks : List (Option T)
  pub counter : ℕ

module _ {T : Type 0} where
  -- `written` says whether ::write succeeds; the task is taken back where it fails (SCOPE_FAILURE).
  unfoldable pub insert : Bool → Option T → TaskQueue T → Outcome (Unit {0}) × TaskQueue T
  insert written task queue =
      if written
      then (ok tt, record { tasks = queue.tasks ++ task ∷ []; counter = queue.counter + 1 })
      else (err internal_socket_error, queue)

  -- ::read sets the counter back to zero, and fails where it is zero.
  unfoldable pub transfer : List (Option T) → TaskQueue T → Outcome (List (Option T)) × TaskQueue T
  transfer output queue =
      if queue.counter == 0
      then (err internal_socket_error, queue)
      else (ok (output ++ queue.tasks), record { tasks = []; counter = 0 })

module _ {T S : Type 0} (execute : T → S → Outcome (Unit {0}) × S) where
  -- `true` for the null pointer. The exceptions of a task are logged and go no further.
  unfoldable pub run_tasks : List (Option T) → S → Bool × S
  run_tasks [] s = (false, s)
  run_tasks (none ∷ tasks) s = (true, s)
  run_tasks (some task ∷ tasks) s = run_tasks tasks (execute task s).1

  unfoldable pub run_transferred :
      Outcome (List (Option T)) × TaskQueue T → S → Outcome Bool × TaskQueue T × S
  run_transferred (err e, queue) s = (err e, queue, s)
  run_transferred (ok tasks, queue) s = let (abort, s') = run_tasks tasks s in (ok abort, queue, s')

  -- The buffer is empty before and after.
  unfoldable pub consume_tasks : TaskQueue T → S → Outcome Bool × TaskQueue T × S
  consume_tasks queue s = run_transferred (transfer [] queue) s
