-- ===== src/Scheduler.antt =====
-- internal/windows/operation_scheduler.cpp: the operations that threads post to a completion port, and
-- the thread that consumes and drains them. An operation is a number, as its address; `state` is the
-- word state_. The answers of the system calls and what operations do are arguments.
pub mod Handling
pub mod Steps
pub mod Counting
pub mod Consuming
pub mod Draining
pub mod Settling
pub mod Eventually
pub mod Closed
use farseer.Base.{
  ℕ, ◌+◌, ◌-◌, ◌%◌, Bool, true, false, if◌then◌else◌, ◌==◌, leb, Option, none, some, List, [], ◌∷◌,
  ◌++◌, take, drop,
}

-- The aborting flag is the top bit of state_.
abbrev pub aborting_flag : ℕ
aborting_flag = 9223372036854775808

abbrev pub word_mod : ℕ
word_mod = 18446744073709551616

abbrev pub is_aborting : ℕ → Bool
is_aborting state = leb aborting_flag state

-- ++state_, --state_ and state_.fetch_or(abortingFlag)
abbrev pub increment : ℕ → ℕ
increment state = (state + 1) % word_mod

abbrev pub decrement : ℕ → ℕ
decrement state = (state + (word_mod - 1)) % word_mod

abbrev pub set_aborting : ℕ → ℕ
set_aborting state = if is_aborting state then state else state + aborting_flag

-- `entering` and `refused` are the operations of threads that have incremented state_ in
-- scheduleUserOperation, and post or give up next; `aborts` are the threads that are about to post the
-- abort packet. `port` is the completion port, where `none` is the abort packet, `pending` the
-- operations whose I/O is not complete, `batch` the entries that were dequeued and not looked at yet.
-- `created` and `freed` are the operations that were given to the scheduler and deleted so far.
pub record Scheduler : Type 0 where
  pub state : ℕ
  pub entering : List ℕ
  pub refused : List ℕ
  pub aborts : ℕ
  pub port : List (Option ℕ)
  pub pending : List ℕ
  pub batch : List (Option ℕ)
  pub draining : Bool
  pub ended : Bool
  pub created : List ℕ
  pub freed : List ℕ

-- scheduleUserOperation up to its test of the aborting flag.
unfoldable pub begin_schedule : ℕ → Scheduler → Scheduler
begin_schedule operation s =
    if is_aborting s.state
    then record s {
      state = increment s.state;
      refused = operation ∷ s.refused;
      created = operation ∷ s.created;
    }
    else record s {
      state = increment s.state;
      entering = operation ∷ s.entering;
      created = operation ∷ s.created;
    }

-- Behind the test, where the thread that is aborting refuses the operation.
unfoldable pub refuse : ℕ → List ℕ → Scheduler → Scheduler
refuse operation others s = record s {
  state = decrement s.state;
  refused = others;
  freed = operation ∷ s.freed;
}

-- PostQueuedCompletionStatus, and the SCOPE_FAILURE.
unfoldable pub post : Bool → ℕ → List ℕ → Scheduler → Scheduler
post posted operation others s =
    if posted
    then record s { entering = others; port = s.port ++ some operation ∷ [] }
    else record s { state = decrement s.state; entering = others; freed = operation ∷ s.freed }

-- `scheduled` says whether the schedule function of the operation throws nothing.
unfoldable pub schedule_system_operation : Bool → ℕ → Scheduler → Scheduler
schedule_system_operation scheduled operation s =
    if scheduled
    then record s {
      state = increment s.state;
      pending = operation ∷ s.pending;
      created = operation ∷ s.created;
    }
    else record s {
      state = decrement (increment s.state);
      created = operation ∷ s.created;
      freed = operation ∷ s.freed;
    }

-- scheduleAbortOperation: the flag, the count, and the packet.
unfoldable pub flag_abort : Scheduler → Scheduler
flag_abort s = record s { state = set_aborting s.state }

unfoldable pub begin_abort : Scheduler → Scheduler
begin_abort s = record s { state = increment s.state; aborts = s.aborts + 1 }

unfoldable pub post_abort : Bool → Scheduler → Scheduler
post_abort posted s =
    if posted
    then record s { aborts = s.aborts - 1; port = s.port ++ none ∷ [] }
    else record s { state = decrement s.state; aborts = s.aborts - 1 }

-- eraseAllSockets cancels the I/O that is pending; its packets are on their way.
unfoldable pub start_draining : Scheduler → Scheduler
start_draining s = record s { state = set_aborting s.state }

-- What consumeOperation does to the scheduler: the system operations that are scheduled, with whether that
-- succeeds, and whether the operation has rescheduled itself.
pub record Behaviour : Type 0 where
  pub schedules : List (Bool × ℕ)
  pub rescheduled : Bool

unfoldable pub schedule_all : List (Bool × ℕ) → Scheduler → Scheduler
unfolding schedule_system_operation
schedule_all [] s = s
schedule_all ((scheduled, operation) ∷ operations) s =
    schedule_all operations (schedule_system_operation scheduled operation s)

-- Behind consumeOperation.
unfoldable pub end_operation : Bool → ℕ → Scheduler → Scheduler
end_operation rescheduled operation s =
    if rescheduled
    then record s { pending = operation ∷ s.pending }
    else record s { state = decrement s.state; freed = operation ∷ s.freed }

-- An entry where no draining is going on.
unfoldable pub consume_operation : Behaviour → Option ℕ → Scheduler → Scheduler
unfolding schedule_all end_operation start_draining
consume_operation behaviour none s =
    start_draining (record s { state = decrement s.state; draining = true })
consume_operation behaviour (some operation) s =
    end_operation behaviour.rescheduled operation (schedule_all behaviour.schedules s)

-- An entry while draining: deleting a null pointer does nothing.
unfoldable pub drain_operation : Option ℕ → Scheduler → Scheduler
drain_operation none s = record s { state = decrement s.state }
drain_operation (some operation) s = record s {
  state = decrement s.state;
  freed = operation ∷ s.freed;
}

-- The body of the loop over the entries.
unfoldable pub consume_entry : Behaviour → Option ℕ → List (Option ℕ) → Scheduler → Scheduler
unfolding consume_operation drain_operation
consume_entry behaviour entry entries s =
    let s' = record s { batch = entries } in
    if s.draining then drain_operation entry s' else consume_operation behaviour entry s'

-- The test at the head of the loop.
unfoldable pub is_drained : Scheduler → Bool
is_drained s = if s.draining then s.state == aborting_flag else false

-- GetQueuedCompletionStatusEx gives `count` entries.
unfoldable pub dequeue : ℕ → Scheduler → Scheduler
dequeue count s = record s { batch = take count s.port; port = drop count s.port }

-- It fails, and not by the time-out of draining.
unfoldable pub dequeue_failed : Scheduler → Scheduler
unfolding start_draining
dequeue_failed s =
    if s.draining then record s { ended = true } else start_draining (record s { draining = true })
