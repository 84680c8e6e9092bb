-- ===== src/Samples/Scheduler.antt =====
-- A scheduler whose consumer reads an abort packet behind an operation that schedules another.
use farseer.Base.{ℕ, ◌+◌, ◌≡◌, refl, true, false, none, some, [], ◌∷◌, arith, inr}
use farseer.Scheduler.{
  Scheduler, begin_schedule, refuse, post, flag_abort, begin_abort, post_abort, consume_entry,
  dequeue, is_drained,
}
use farseer.Scheduler.Handling.{OverlappedEntry, behave}
use farseer.Scheduler.Steps.{
  start, complete, end_consumer, refuses, posts, posts_abort, completes, dequeues, consumes,
  settles, begins, flags, begins_abort, Reach, here, next,
}
use farseer.Scheduler.Counting.{IsCounted, count}
use farseer.Scheduler.Consuming.{Reach-IsCounted}
use farseer.Scheduler.Eventually.{Eventually, IsOver, draining_ends}
use farseer.Scheduler.Closed.{HoldsNothing, closed_forever}

-- It schedules operation 9.
abbrev completion : OverlappedEntry
completion = record {
  operation = record {
    execute = λ bytes_transferred. ((true, 9) ∷ [], inr false);
    on_failure = λ code message. [];
  };
  failed = none;
  bytes_transferred = 0;
}

abbrev posted : Scheduler
posted = post true 7 [] (begin_schedule 7 start)

abbrev aborted : Scheduler
aborted = post_abort true (begin_abort (flag_abort posted))

abbrev dequeued : Scheduler
dequeued = dequeue 2 aborted

abbrev consumed_first : Scheduler
consumed_first = consume_entry (behave completion) (some 7) (none ∷ []) dequeued

abbrev draining : Scheduler
draining = consume_entry (behave completion) none [] consumed_first

abbrev drained : Scheduler
drained = consume_entry (behave completion) (some 9) [] (dequeue 1 (complete 9 [] draining))

start-dequeued : Reach start dequeued
unfolding begin_schedule post flag_abort begin_abort post_abort dequeue is_drained
start-dequeued =
    next
      (next
        (next
          (next (next (next here (begins 7 (omega arith))) (settles (posts true [] [] 7 refl)))
            flags)
          (begins_abort (omega arith)))
        (settles (posts_abort true (omega arith))))
      (settles (dequeues 2 refl refl refl (omega arith) (omega arith)))

start-draining : Reach start draining
unfolding begin_schedule post flag_abort begin_abort post_abort dequeue consume_entry behave
start-draining =
    next
      (next start-dequeued
        (settles (consumes completion (some 7) (none ∷ []) refl refl (omega arith))))
      (settles (consumes completion none [] refl refl (omega arith)))

start-drained : Reach start drained
unfolding begin_schedule post flag_abort begin_abort post_abort dequeue consume_entry behave
    complete is_drained
start-drained =
    next
      (next (next start-draining (settles (completes [] [] 9 refl)))
        (settles (dequeues 1 refl refl refl (omega arith) (omega arith))))
      (settles (consumes completion (some 9) [] refl refl (omega arith)))

abbrev refused_later : Scheduler
refused_later = refuse 11 [] (begin_schedule 11 (end_consumer drained))

drained-refused : Reach (end_consumer drained) refused_later
unfolding begin_schedule post flag_abort begin_abort post_abort dequeue consume_entry behave
    complete end_consumer
drained-refused = next (next here (begins 11 (omega arith))) (settles (refuses [] [] 11 refl))

Reach-IsCounted_example : IsCounted draining
Reach-IsCounted_example = Reach-IsCounted start-draining

draining_ends_example : Eventually IsOver draining
unfolding begin_schedule post flag_abort begin_abort post_abort dequeue consume_entry behave
draining_ends_example = draining_ends draining start-draining refl refl

closed_forever_example :
    HoldsNothing refused_later
    × ((x : ℕ)
        → count x refused_later.created
          ≡ count x refused_later.refused + count x refused_later.freed)
unfolding begin_schedule post flag_abort begin_abort post_abort dequeue consume_entry behave
    complete is_drained
closed_forever_example =
    closed_forever drained refused_later start-drained refl refl refl drained-refused
