-- ===== src/Scheduler/Closed.antt =====
-- The scheduler of internal/windows/operation_scheduler.cpp after its consumer has returned.
use farseer.Base.{
  ℕ, ◌+◌, ◌≡◌, refl, ap, Bool, true, false, none, List, [], ◌∷◌, ◌++◌, length, arith,
}
use farseer.Scheduler.{
  Scheduler, is_aborting, is_drained, begin_schedule, post_abort, flag_abort, refuse, begin_abort,
}
use farseer.Scheduler.Steps.{
  start, Settle, refuses, posts, posts_abort, completes, dequeues, consumes, Step, settles, begins,
  flags, begins_abort, fails, ends, Reach, here, next, end_consumer,
}
use farseer.Scheduler.Counting.{
  IsCounted, count, count_packets, count_packets-append, length_between,
}
use farseer.Scheduler.Consuming.{Reach-IsCounted, Step-IsCounted}
use farseer.Scheduler.Draining.{Reach-AllFreed, drained_state}
use farseer.Scheduler.Eventually.{flag_set, both_tests}

-- No thread, no packet and no I/O holds an operation that is yet to be deleted, but for those that are
-- being refused.
pub record HoldsNothing (s : Scheduler) : Type 0 where
  pub none_entering : s.entering ≡ []
  pub none_pending : s.pending ≡ []
  pub batch_empty : s.batch ≡ []
  pub no_packets : (x : ℕ) → count_packets x s.port ≡ 0

record IsClosed (s : Scheduler) : Type 0 where
  drains : s.draining ≡ true
  over : s.ended ≡ true
  holds : HoldsNothing s

between_nothing :
    {B : Type 0} {xs : List ℕ} (before after : List ℕ) (x : ℕ)
    → xs ≡ []
    → xs ≡ before ++ x ∷ after
    → B
between_nothing before after x e h =
    absurd (omega (arith, ap length e, ap length h, length_between x before after))

begin_schedule-IsClosed :
    (operation : ℕ) (s : Scheduler)
    → is_aborting s.state ≡ true
    → IsClosed s
    → IsClosed (begin_schedule operation s)
unfolding begin_schedule
begin_schedule-IsClosed operation s aborting c = rw aborting (record {
  drains = c.drains;
  over = c.over;
  holds = record {
    none_entering = c.holds.none_entering;
    none_pending = c.holds.none_pending;
    batch_empty = c.holds.batch_empty;
    no_packets = c.holds.no_packets;
  };
})

post_abort-IsClosed : (posted : Bool) (s : Scheduler) → IsClosed s → IsClosed (post_abort posted s)
unfolding post_abort
post_abort-IsClosed true s c = record {
  drains = c.drains;
  over = c.over;
  holds = record {
    none_entering = c.holds.none_entering;
    none_pending = c.holds.none_pending;
    batch_empty = c.holds.batch_empty;
    no_packets =
        λ x. omega (arith, count_packets-append x s.port (none ∷ []), c.holds.no_packets x);
  };
}
post_abort-IsClosed false s c = record {
  drains = c.drains;
  over = c.over;
  holds = record {
    none_entering = c.holds.none_entering;
    none_pending = c.holds.none_pending;
    batch_empty = c.holds.batch_empty;
    no_packets = c.holds.no_packets;
  };
}

-- A step that changes the count and the threads that refuse or abort.
counts-IsClosed :
    (s : Scheduler) (state : ℕ) (refused freed : List ℕ) (aborts : ℕ)
    → IsClosed s
    → IsClosed (record s { state = state; refused = refused; freed = freed; aborts = aborts })
counts-IsClosed s state refused freed aborts c = record {
  drains = c.drains;
  over = c.over;
  holds = record {
    none_entering = c.holds.none_entering;
    none_pending = c.holds.none_pending;
    batch_empty = c.holds.batch_empty;
    no_packets = c.holds.no_packets;
  };
}

Settle-IsClosed : {s t : Scheduler} → Settle s t → IsClosed s → IsClosed t
unfolding refuse
Settle-IsClosed {s} (refuses before after operation e) c = counts-IsClosed s _ _ _ _ c
Settle-IsClosed (posts posted before after operation e) c =
    between_nothing before after operation c.holds.none_entering e
Settle-IsClosed {s} (posts_abort posted some_abort) c = post_abort-IsClosed posted s c
Settle-IsClosed (completes before after operation e) c =
    between_nothing before after operation c.holds.none_pending e
Settle-IsClosed (dequeues n goes_on empty not_drained some_taken some_wait) c =
    both_tests c.over goes_on
Settle-IsClosed (consumes completion entry entries goes_on e bound) c = both_tests c.over goes_on
Settle-IsClosed (fails goes_on empty not_drained) c = both_tests c.over goes_on
Settle-IsClosed (ends goes_on empty drained) c = both_tests c.over goes_on

Step-IsClosed : {s t : Scheduler} → Step s t → IsCounted s → IsClosed s → IsClosed t
unfolding flag_abort begin_abort
Step-IsClosed (settles step) v c = Settle-IsClosed step c
Step-IsClosed {s} (begins operation bound) v c =
    begin_schedule-IsClosed operation s
      (flag_set s.draining (is_aborting s.state) v.draining_aborts c.drains) c
Step-IsClosed {s} flags v c = counts-IsClosed s _ _ _ _ c
Step-IsClosed {s} (begins_abort bound) v c = counts-IsClosed s _ _ _ _ c

Reach-IsClosed :
    {s t : Scheduler} → Reach s t → IsCounted s → IsClosed s → (IsCounted t) × (IsClosed t)
Reach-IsClosed here v c = (v, c)
Reach-IsClosed (next r step) v c =
    let (v', c') = Reach-IsClosed r v c in (Step-IsCounted step v', Step-IsClosed step v' c')

end_consumer-IsClosed :
    (s : Scheduler) → Reach start s → s.batch ≡ [] → is_drained s ≡ true → IsClosed (end_consumer s)
unfolding is_drained end_consumer
end_consumer-IsClosed s r empty drained =
    let freed = Reach-AllFreed s r empty drained in
    let (d, e) = drained_state s.draining s.state drained in
    record {
      drains = d;
      over = refl;
      holds = record {
        none_entering = freed.none_entering;
        none_pending = freed.none_pending;
        batch_empty = empty;
        no_packets = λ x. ap (count_packets x) freed.port_empty;
      };
    }

-- After the consumer has found all operations drained and has returned, whatever the threads do later,
-- with state_ counting fewer than 2^63 operations: no operation is about to be posted, waits for I/O, or
-- stands in a packet that nobody would read, and each operation was freed as often as it was given to the
-- scheduler, but for those that are being refused.
pub closed_forever :
    (s t : Scheduler)
    → Reach start s
    → s.ended ≡ false
    → s.batch ≡ []
    → is_drained s ≡ true
    → Reach (end_consumer s) t
    → HoldsNothing t × ((x : ℕ) → count x t.created ≡ count x t.refused + count x t.freed)
closed_forever s t r goes_on empty drained later =
    let (v, c) =
      Reach-IsClosed later
        (Step-IsCounted (settles (ends goes_on empty drained)) (Reach-IsCounted r))
        (end_consumer-IsClosed s r empty drained) in
    let h = c.holds in
    (
      h,
      λ x. omega (
        arith,
        v.owned x,
        ap (count x) h.none_entering,
        ap (count x) h.none_pending,
        ap (count_packets x) h.batch_empty,
        h.no_packets x,
      ),
    )
