-- ===== src/Scheduler/Settling.antt =====
-- The threads of internal/windows/operation_scheduler.cpp while the consumer drains.
use farseer.Base.{
  inr, inl, ◌⊎◌, ℕ, zero, suc, ◌+◌, ◌*◌, ◌<◌, ◌≡◌, refl, sym, ap, ◌∙◌, Bool, true, false, Option,
  none, some, List, [], ◌∷◌, if◌then◌else◌, length, length-append, take, drop, take-append-drop,
  arith,
}
use farseer.Scheduler.{
  dequeue_failed, Scheduler, Behaviour, refuse, post, post_abort, dequeue, consume_entry,
  consume_operation, drain_operation,
}
use farseer.Scheduler.Handling.{behave}
use farseer.Scheduler.Steps.{
  ends, fails, end_consumer, complete, Settle, refuses, posts, posts_abort, completes, dequeues,
  consumes,
}
use farseer.Scheduler.Counting.{IsCounted, length_between}

-- What is left to do.
abbrev pub weight : Scheduler → ℕ
weight s =
    3 * length s.entering
    + length s.refused
    + 3 * s.aborts
    + 2 * length s.port
    + 3 * length s.pending
    + length s.batch

pub record IsDraining (s : Scheduler) : Type 0 where
  pub counted : IsCounted s
  pub drains : s.draining ≡ true
  pub goes_on : s.ended ≡ false

-- A step that goes on towards the end.
pub record Progresses (s t : Scheduler) : Type 0 where
  pub keeps_draining : t.draining ≡ s.draining
  pub keeps_going : t.ended ≡ s.ended
  pub lighter : weight t < weight s

dequeue_weight :
    (n : ℕ) (port : List (Option ℕ))
    → 0 < n
    → 0 < length port
    → 2 * length (drop n port) + length (take n port) < 2 * length port
dequeue_weight zero port h g = elim h [ ]
dequeue_weight (suc n) [] h g = elim g [ ]
dequeue_weight (suc n) (packet ∷ port) h g =
    omega
      (arith, sym (length-append (take n port) (drop n port)) ∙ ap length (take-append-drop n port))

drain_operation-Progresses :
    (entry : Option ℕ) (entries : List (Option ℕ)) (s : Scheduler)
    → s.batch ≡ entry ∷ entries
    → Progresses s (drain_operation entry (record s { batch = entries }))
unfolding drain_operation
drain_operation-Progresses none entries s e = record {
  keeps_draining = refl;
  keeps_going = refl;
  lighter = omega (arith, ap length e);
}
drain_operation-Progresses (some operation) entries s e = record {
  keeps_draining = refl;
  keeps_going = refl;
  lighter = omega (arith, ap length e);
}

if-Progresses :
    (test : Bool) (s t u : Scheduler)
    → test ≡ true
    → Progresses s t
    → Progresses s (if test then t else u)
if-Progresses true s t u h p = p
if-Progresses false s t u h p = absurd (ground arith)

pub consume_entry-Progresses :
    (behaviour : Behaviour) (entry : Option ℕ) (entries : List (Option ℕ)) (s : Scheduler)
    → s.batch ≡ entry ∷ entries
    → s.draining ≡ true
    → Progresses s (consume_entry behaviour entry entries s)
unfolding consume_entry
consume_entry-Progresses behaviour entry entries s e d =
    if-Progresses s.draining s (drain_operation entry (record s { batch = entries }))
      (consume_operation behaviour entry (record s { batch = entries })) d
      (drain_operation-Progresses entry entries s e)

failed_ends :
    (test : Bool) (s t : Scheduler)
    → test ≡ true
    → (if test then record s { ended = true } else t).ended ≡ true
failed_ends true s t h = refl
failed_ends false s t h = absurd (ground arith)

pub Settle-Progresses :
    {s t : Scheduler} → Settle s t → s.draining ≡ true → Progresses s t ⊎ (t.ended ≡ true)
unfolding dequeue_failed end_consumer refuse post post_abort complete dequeue
Settle-Progresses (refuses before after operation e) d = inl (record {
  keeps_draining = refl;
  keeps_going = refl;
  lighter = omega (arith, ap length e, length_between operation before after);
})
Settle-Progresses {s} (posts true before after operation e) d = inl (record {
  keeps_draining = refl;
  keeps_going = refl;
  lighter = omega (
    arith,
    ap length e,
    length_between operation before after,
    length-append s.port (some operation ∷ []),
  );
})
Settle-Progresses (posts false before after operation e) d = inl (record {
  keeps_draining = refl;
  keeps_going = refl;
  lighter = omega (arith, ap length e, length_between operation before after);
})
Settle-Progresses {s} (posts_abort true some_abort) d = inl (record {
  keeps_draining = refl;
  keeps_going = refl;
  lighter = omega (arith, length-append s.port (none ∷ []));
})
Settle-Progresses (posts_abort false some_abort) d =
    inl (record { keeps_draining = refl; keeps_going = refl; lighter = omega arith })
Settle-Progresses {s} (completes before after operation e) d = inl (record {
  keeps_draining = refl;
  keeps_going = refl;
  lighter = omega (
    arith,
    ap length e,
    length_between operation before after,
    length-append s.port (some operation ∷ []),
  );
})
Settle-Progresses {s} (dequeues n goes_on empty not_drained some_taken some_wait) d = inl (record {
  keeps_draining = refl;
  keeps_going = refl;
  lighter = omega (arith, ap length empty, dequeue_weight n s.port some_taken some_wait);
})
Settle-Progresses {s} (consumes completion entry entries goes_on e bound) d =
    inl (consume_entry-Progresses (behave completion) entry entries s e d)
Settle-Progresses {s} (fails goes_on empty not_drained) d = inr (failed_ends s.draining s _ d)
Settle-Progresses {s} (ends goes_on empty drained) d = inr refl
