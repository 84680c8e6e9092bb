-- ===== src/Scheduler/Steps.antt =====
-- The threads of internal/windows/operation_scheduler.cpp: those that schedule operations, the one that
-- destroys the scheduler, the completion of I/O, and the consumer.
use farseer.Base.{ℕ, ◌+◌, ◌<◌, ◌≡◌, Bool, true, false, Option, some, List, [], ◌∷◌, ◌++◌, length}
use farseer.Scheduler.Handling.{OverlappedEntry, behave}
use farseer.Scheduler.{
  Scheduler, aborting_flag, begin_schedule, refuse, post, flag_abort, begin_abort, post_abort,
  dequeue, dequeue_failed, consume_entry, is_drained,
}

abbrev pub start : Scheduler
start = record {
  state = 0;
  entering = [];
  refused = [];
  aborts = 0;
  port = [];
  pending = [];
  batch = [];
  draining = false;
  ended = false;
  created = [];
  freed = [];
}

-- What state_ counts.
abbrev pub outstanding : Scheduler → ℕ
outstanding s =
    length s.entering
    + length s.refused
    + s.aborts
    + length s.port
    + length s.pending
    + length s.batch

-- I/O of an operation completes, or is cancelled.
unfoldable pub complete : ℕ → List ℕ → Scheduler → Scheduler
complete operation others s = record s { pending = others; port = s.port ++ some operation ∷ [] }

unfoldable pub end_consumer : Scheduler → Scheduler
end_consumer s = record s { ended = true }

-- What goes on without a new call of a user. An operation is taken from anywhere in a list. Where the
-- consumer drains and dequeuing times out, nothing changes, and that is no step.
pub data Settle (s : Scheduler) : Scheduler → Type 0 where
  refuses :
      (before after : List ℕ) (operation : ℕ)
      → s.refused ≡ before ++ operation ∷ after
      → Settle s (refuse operation (before ++ after) s)
  posts :
      (posted : Bool) (before after : List ℕ) (operation : ℕ)
      → s.entering ≡ before ++ operation ∷ after
      → Settle s (post posted operation (before ++ after) s)
  posts_abort : (posted : Bool) → 0 < s.aborts → Settle s (post_abort posted s)
  completes :
      (before after : List ℕ) (operation : ℕ)
      → s.pending ≡ before ++ operation ∷ after
      → Settle s (complete operation (before ++ after) s)
  dequeues :
      (count : ℕ)
      → s.ended ≡ false
      → s.batch ≡ []
      → is_drained s ≡ false
      → 0 < count
      → 0 < length s.port
      → Settle s (dequeue count s)
  consumes :
      (completion : OverlappedEntry) (entry : Option ℕ) (entries : List (Option ℕ))
      → s.ended ≡ false
      → s.batch ≡ entry ∷ entries
      → outstanding s + length (behave completion).schedules < aborting_flag
      → Settle s (consume_entry (behave completion) entry entries s)
  fails : s.ended ≡ false → s.batch ≡ [] → is_drained s ≡ false → Settle s (dequeue_failed s)
  ends : s.ended ≡ false → s.batch ≡ [] → is_drained s ≡ true → Settle s (end_consumer s)

-- state_ has room for fewer than 2^63 operations.
pub data Step (s : Scheduler) : Scheduler → Type 0 where
  settles : {t : Scheduler} → Settle s t → Step s t
  begins : (operation : ℕ) → outstanding s + 1 < aborting_flag → Step s (begin_schedule operation s)
  flags : Step s (flag_abort s)
  begins_abort : outstanding s + 1 < aborting_flag → Step s (begin_abort s)

pub data Reach (s : Scheduler) : Scheduler → Type 0 where
  here : Reach s s
  next : {t u : Scheduler} → Reach s t → Step t u → Reach s u
