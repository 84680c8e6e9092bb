-- ===== src/Scheduler/Counting.antt =====
-- The count in state_ of internal/windows/operation_scheduler.cpp, and the owners of operations.
use farseer.Base.{
  take-append-drop, ◌∙◌, drop, take, sym, length-append, ℕ, ◌+◌, ◌<◌, ◌≡◌, refl, ap, Bool, true,
  false, Option, none, some, List, [], ◌∷◌, ◌++◌, ◌==◌, if◌then◌else◌, length, arith, Bool-cases,
  inl, inr,
}
use farseer.Scheduler.{
  schedule_system_operation, begin_abort, set_aborting, dequeue, post_abort, post, Scheduler,
  aborting_flag, is_aborting, begin_schedule, refuse,
}
use farseer.Scheduler.Steps.{end_consumer, complete, outstanding}

abbrev one_if : Bool → ℕ
one_if true = 1
one_if false = 0

-- How often an operation stands in a list.
abbrev pub count : ℕ → List ℕ → ℕ
count x [] = 0
count x (y ∷ ys) = one_if (x == y) + count x ys

abbrev pub count_packets : ℕ → List (Option ℕ) → ℕ
count_packets x [] = 0
count_packets x (none ∷ packets) = count_packets x packets
count_packets x (some y ∷ packets) = one_if (x == y) + count_packets x packets

pub count_packets-append :
    (x : ℕ) (p q : List (Option ℕ))
    → count_packets x (p ++ q) ≡ count_packets x p + count_packets x q
count_packets-append x [] q = omega arith
count_packets-append x (none ∷ p) q = count_packets-append x p q
count_packets-append x (some y ∷ p) q = omega (arith, count_packets-append x p q)

pub count_between :
    (x y : ℕ) (before after : List ℕ)
    → count x (before ++ y ∷ after) ≡ one_if (x == y) + count x (before ++ after)
count_between x y [] after = refl
count_between x y (z ∷ before) after = omega (arith, count_between x y before after)

pub length_between :
    (y : ℕ) (before after : List ℕ) → length (before ++ y ∷ after) ≡ length (before ++ after) + 1
length_between y [] after = omega arith
length_between y (z ∷ before) after = omega (arith, length_between y before after)

-- The count of `state` and its flag; and every operation is with one owner.
pub record IsCounted (s : Scheduler) : Type 0 where
  pub counted : s.state ≡ outstanding s + (if is_aborting s.state then aborting_flag else 0)
  pub below : outstanding s < aborting_flag
  pub draining_aborts : (if s.draining then is_aborting s.state else true) ≡ true
  pub owned :
      (x : ℕ)
      → count x s.created
        ≡ count x s.entering
          + count x s.refused
          + count_packets x s.port
          + count x s.pending
          + count_packets x s.batch
          + count x s.freed

pub begin_schedule-IsCounted :
    (operation : ℕ) (s : Scheduler)
    → outstanding s + 1 < aborting_flag
    → IsCounted s
    → IsCounted (begin_schedule operation s)
unfolding begin_schedule
begin_schedule-IsCounted operation s bound v = elim (Bool-cases (is_aborting s.state)) [
  | inl e ↦ rw e (record {
    counted = ground arith;
    below = ground arith;
    draining_aborts = ground arith;
    owned = λ x. omega (arith, v.owned x);
  })
  | inr e ↦ rw e (record {
    counted = ground arith;
    below = ground arith;
    draining_aborts = ground arith;
    owned = λ x. omega (arith, v.owned x);
  })
]

pub refuse-IsCounted :
    (before after : List ℕ) (operation : ℕ) (s : Scheduler)
    → s.refused ≡ before ++ operation ∷ after
    → IsCounted s
    → IsCounted (refuse operation (before ++ after) s)
unfolding refuse
refuse-IsCounted before after operation s e v = record {
  counted = ground (arith, ap length e, length_between operation before after, v.below);
  below = omega (arith, ap length e, length_between operation before after);
  draining_aborts = ground (arith, ap length e, length_between operation before after);
  owned = λ x. omega (arith, v.owned x, ap (count x) e, count_between x operation before after);
}

pub post-IsCounted :
    (posted : Bool) (before after : List ℕ) (operation : ℕ) (s : Scheduler)
    → s.entering ≡ before ++ operation ∷ after
    → IsCounted s
    → IsCounted (post posted operation (before ++ after) s)
unfolding post
post-IsCounted true before after operation s e v =
    let lengths = length-append s.port (some operation ∷ []) in
    record {
      counted =
          omega (arith, ap length e, length_between operation before after, lengths, v.counted);
      below = omega (arith, ap length e, length_between operation before after, lengths, v.below);
      draining_aborts = v.draining_aborts;
      owned = λ x. omega (
        arith,
        v.owned x,
        ap (count x) e,
        count_between x operation before after,
        count_packets-append x s.port (some operation ∷ []),
      );
    }
post-IsCounted false before after operation s e v = record {
  counted = ground (arith, ap length e, length_between operation before after, v.below);
  below = omega (arith, ap length e, length_between operation before after);
  draining_aborts = ground (arith, ap length e, length_between operation before after);
  owned = λ x. omega (arith, v.owned x, ap (count x) e, count_between x operation before after);
}

pub post_abort-IsCounted :
    (posted : Bool) (s : Scheduler) → 0 < s.aborts → IsCounted s → IsCounted (post_abort posted s)
unfolding post_abort
post_abort-IsCounted true s some_abort v =
    let lengths = length-append s.port (none ∷ []) in
    record {
      counted = omega (arith, lengths, v.counted);
      below = omega (arith, lengths, v.below);
      draining_aborts = v.draining_aborts;
      owned = λ x. omega (arith, v.owned x, count_packets-append x s.port (none ∷ []));
    }
post_abort-IsCounted false s some_abort v = record {
  counted = ground arith;
  below = omega arith;
  draining_aborts = ground arith;
  owned = v.owned;
}

pub complete-IsCounted :
    (before after : List ℕ) (operation : ℕ) (s : Scheduler)
    → s.pending ≡ before ++ operation ∷ after
    → IsCounted s
    → IsCounted (complete operation (before ++ after) s)
unfolding complete
complete-IsCounted before after operation s e v =
    let lengths = length-append s.port (some operation ∷ []) in
    record {
      counted =
          omega (arith, ap length e, length_between operation before after, lengths, v.counted);
      below = omega (arith, ap length e, length_between operation before after, lengths, v.below);
      draining_aborts = v.draining_aborts;
      owned = λ x. omega (
        arith,
        v.owned x,
        ap (count x) e,
        count_between x operation before after,
        count_packets-append x s.port (some operation ∷ []),
      );
    }

pub dequeue-IsCounted :
    (n : ℕ) (s : Scheduler) → s.batch ≡ [] → IsCounted s → IsCounted (dequeue n s)
unfolding dequeue
dequeue-IsCounted n s empty v =
    let lengths =
      sym (length-append (take n s.port) (drop n s.port)) ∙ ap length (take-append-drop n s.port) in
    record {
      counted = omega (arith, lengths, ap length empty, v.counted);
      below = omega (arith, lengths, ap length empty, v.below);
      draining_aborts = v.draining_aborts;
      owned = λ x. omega (
        arith,
        v.owned x,
        ap (count_packets x) empty,
        sym (count_packets-append x (take n s.port) (drop n s.port))
            ∙ ap (count_packets x) (take-append-drop n s.port),
      );
    }

pub set_aborting-IsCounted :
    (s : Scheduler) (draining ended : Bool)
    → IsCounted s
    → IsCounted (record s { state = set_aborting s.state; draining = draining; ended = ended })
set_aborting-IsCounted s draining ended v = record {
  counted = ground (arith, v.below);
  below = v.below;
  draining_aborts = ground (arith, v.below);
  owned = v.owned;
}

pub begin_abort-IsCounted :
    (s : Scheduler) → outstanding s + 1 < aborting_flag → IsCounted s → IsCounted (begin_abort s)
unfolding begin_abort
begin_abort-IsCounted s bound v = record {
  counted = ground arith;
  below = omega arith;
  draining_aborts = ground arith;
  owned = v.owned;
}

pub end_consumer-IsCounted : (s : Scheduler) → IsCounted s → IsCounted (end_consumer s)
unfolding end_consumer
end_consumer-IsCounted s v = record {
  counted = v.counted;
  below = v.below;
  draining_aborts = v.draining_aborts;
  owned = v.owned;
}

pub schedule_system_operation-IsCounted :
    (scheduled : Bool) (operation : ℕ) (s : Scheduler)
    → outstanding s + 1 < aborting_flag
    → IsCounted s
    → IsCounted (schedule_system_operation scheduled operation s)
unfolding schedule_system_operation
schedule_system_operation-IsCounted true operation s bound v = record {
  counted = ground arith;
  below = omega arith;
  draining_aborts = ground arith;
  owned = λ x. omega (arith, v.owned x);
}
schedule_system_operation-IsCounted false operation s bound v = record {
  counted = ground arith;
  below = omega arith;
  draining_aborts = ground arith;
  owned = λ x. omega (arith, v.owned x);
}
