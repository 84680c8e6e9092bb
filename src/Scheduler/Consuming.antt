-- ===== src/Scheduler/Consuming.antt =====
-- The consumer of internal/windows/operation_scheduler.cpp on one entry, and all steps of all threads.
use farseer.Base.{
  ℕ, ◌+◌, ◌<◌, ◌≡◌, refl, sym, ap, subst, if◌then◌else◌, Bool, true, false, Option, none, some,
  List, [], ◌∷◌, length, arith,
}
use farseer.Scheduler.{
  Scheduler, aborting_flag, Behaviour, schedule_system_operation, schedule_all, end_operation,
  consume_operation, drain_operation, consume_entry, start_draining, flag_abort, dequeue_failed,
}
use farseer.Scheduler.Handling.{behave}
use farseer.Scheduler.Steps.{
  start, outstanding, Settle, refuses, posts, posts_abort, completes, dequeues, consumes, Step,
  settles, begins, flags, begins_abort, fails, ends, Reach, here, next,
}
use farseer.Scheduler.Counting.{
  IsCounted, begin_schedule-IsCounted, refuse-IsCounted, post-IsCounted, post_abort-IsCounted,
  complete-IsCounted, dequeue-IsCounted, set_aborting-IsCounted, begin_abort-IsCounted,
  end_consumer-IsCounted, schedule_system_operation-IsCounted,
}

-- The entries of the batch wait meanwhile.
pub schedule_all-batch :
    (operations : List (Bool × ℕ)) (s : Scheduler) (entries : List (Option ℕ))
    → schedule_all operations (record s { batch = entries })
      ≡ record (schedule_all operations s) { batch = entries }
unfolding schedule_all
schedule_all-batch [] s entries = refl
schedule_all-batch ((true, operation) ∷ operations) s entries =
    schedule_all-batch operations (schedule_system_operation true operation s) entries
schedule_all-batch ((false, operation) ∷ operations) s entries =
    schedule_all-batch operations (schedule_system_operation false operation s) entries

schedule_all-IsCounted :
    (operations : List (Bool × ℕ)) (s : Scheduler)
    → outstanding s + length operations < aborting_flag
    → IsCounted s
    → IsCounted (schedule_all operations s)
unfolding schedule_all schedule_system_operation
schedule_all-IsCounted [] s bound v = v
schedule_all-IsCounted ((true, operation) ∷ operations) s bound v =
    schedule_all-IsCounted operations (schedule_system_operation true operation s) (omega arith)
      (schedule_system_operation-IsCounted true operation s (omega arith) v)
schedule_all-IsCounted ((false, operation) ∷ operations) s bound v =
    schedule_all-IsCounted operations (schedule_system_operation false operation s) (omega arith)
      (schedule_system_operation-IsCounted false operation s (omega arith) v)

-- The entry that the consumer holds is counted as one of the batch.
end_operation-IsCounted :
    (rescheduled : Bool) (operation : ℕ) (s : Scheduler)
    → IsCounted (record s { batch = some operation ∷ s.batch })
    → IsCounted (end_operation rescheduled operation s)
unfolding end_operation
end_operation-IsCounted true operation s v = record {
  counted = omega (arith, v.counted);
  below = omega (arith, v.below);
  draining_aborts = v.draining_aborts;
  owned = λ x. omega (arith, v.owned x);
}
end_operation-IsCounted false operation s v = record {
  counted = ground (arith, v.counted, v.below);
  below = omega (arith, v.below);
  draining_aborts = ground (arith, v.counted, v.below, v.draining_aborts);
  owned = λ x. omega (arith, v.owned x);
}

drain_operation-IsCounted :
    (entry : Option ℕ) (s : Scheduler)
    → IsCounted (record s { batch = entry ∷ s.batch })
    → IsCounted (drain_operation entry s)
unfolding drain_operation
drain_operation-IsCounted none s v = record {
  counted = ground (arith, v.counted, v.below);
  below = omega (arith, v.below);
  draining_aborts = ground (arith, v.counted, v.below, v.draining_aborts);
  owned = λ x. omega (arith, v.owned x);
}
drain_operation-IsCounted (some operation) s v = record {
  counted = ground (arith, v.counted, v.below);
  below = omega (arith, v.below);
  draining_aborts = ground (arith, v.counted, v.below, v.draining_aborts);
  owned = λ x. omega (arith, v.owned x);
}

consume_operation-IsCounted :
    (behaviour : Behaviour) (entry : Option ℕ) (s : Scheduler)
    → outstanding s + 1 + length behaviour.schedules < aborting_flag
    → IsCounted (record s { batch = entry ∷ s.batch })
    → IsCounted (consume_operation behaviour entry s)
unfolding consume_operation start_draining drain_operation
consume_operation-IsCounted behaviour none s bound v =
    set_aborting-IsCounted (drain_operation none s) true s.ended
      (drain_operation-IsCounted none s v)
consume_operation-IsCounted behaviour (some operation) s bound v =
    end_operation-IsCounted behaviour.rescheduled operation (schedule_all behaviour.schedules s) (
      subst
        (λ entries.
          IsCounted
            (record (schedule_all behaviour.schedules s) { batch = some operation ∷ entries }))
        (sym (ap (λ (s : Scheduler). s.batch) (schedule_all-batch behaviour.schedules s s.batch)))
        (subst IsCounted (schedule_all-batch behaviour.schedules s (some operation ∷ s.batch)) (
          schedule_all-IsCounted behaviour.schedules (record s { batch = some operation ∷ s.batch })
            (omega arith) v)))

if-IsCounted :
    (test : Bool) (s t : Scheduler) → IsCounted s → IsCounted t → IsCounted (if test then s else t)
if-IsCounted true s t v w = v
if-IsCounted false s t v w = w

consume_entry-IsCounted :
    (behaviour : Behaviour) (entry : Option ℕ) (entries : List (Option ℕ)) (s : Scheduler)
    → s.batch ≡ entry ∷ entries
    → outstanding s + length behaviour.schedules < aborting_flag
    → IsCounted s
    → IsCounted (consume_entry behaviour entry entries s)
unfolding consume_entry
consume_entry-IsCounted behaviour entry entries s e bound v =
    let s' : Scheduler = record s { batch = entries } in
    let held : IsCounted (record s' { batch = entry ∷ entries }) =
      subst (λ entries. IsCounted (record s { batch = entries })) e v in
    if-IsCounted s.draining (drain_operation entry s') (consume_operation behaviour entry s')
      (drain_operation-IsCounted entry s' held)
      (consume_operation-IsCounted behaviour entry s' (omega (arith, ap length e)) held)

pub Settle-IsCounted : {s t : Scheduler} → Settle s t → IsCounted s → IsCounted t
unfolding dequeue_failed start_draining farseer.Scheduler.Steps.end_consumer
Settle-IsCounted {s} (refuses before after operation e) v =
    refuse-IsCounted before after operation s e v
Settle-IsCounted {s} (posts posted before after operation e) v =
    post-IsCounted posted before after operation s e v
Settle-IsCounted {s} (posts_abort posted some_abort) v = post_abort-IsCounted posted s some_abort v
Settle-IsCounted {s} (completes before after operation e) v =
    complete-IsCounted before after operation s e v
Settle-IsCounted {s} (dequeues n goes_on empty not_drained some_taken some_wait) v =
    dequeue-IsCounted n s empty v
Settle-IsCounted {s} (consumes completion entry entries goes_on e bound) v =
    consume_entry-IsCounted (behave completion) entry entries s e bound v
Settle-IsCounted {s} (fails goes_on empty not_drained) v =
    if-IsCounted s.draining _ _ (end_consumer-IsCounted s v)
      (set_aborting-IsCounted s true s.ended v)
Settle-IsCounted {s} (ends goes_on empty drained) v = end_consumer-IsCounted s v

pub Step-IsCounted : {s t : Scheduler} → Step s t → IsCounted s → IsCounted t
unfolding flag_abort
Step-IsCounted (settles step) v = Settle-IsCounted step v
Step-IsCounted {s} (begins operation bound) v = begin_schedule-IsCounted operation s bound v
Step-IsCounted {s} flags v = set_aborting-IsCounted s s.draining s.ended v
Step-IsCounted {s} (begins_abort bound) v = begin_abort-IsCounted s bound v

start-IsCounted : IsCounted start
start-IsCounted = record {
  counted = refl;
  below = omega arith;
  draining_aborts = refl;
  owned = λ x. refl;
}

-- Whatever the threads do in any order, with state_ counting fewer than 2^63 operations: state_ is the
-- number of operations and abort packets that are with a thread, in the port, pending or in the batch,
-- plus the aborting flag where it is set, which it is while the consumer drains; and each operation is
-- with one of these or freed, as often as it was given to the scheduler.
pub Reach-IsCounted : {s : Scheduler} → Reach start s → IsCounted s
Reach-IsCounted here = start-IsCounted
Reach-IsCounted (next r step) = Step-IsCounted step (Reach-IsCounted r)
