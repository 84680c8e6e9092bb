-- ===== src/Scheduler/Eventually.antt =====
-- That the consumer of internal/windows/operation_scheduler.cpp comes to its end.
use farseer.Base.{
  none, ℕ, zero, suc, ◌+◌, ◌<◌, ◌≡◌, refl, ap, ◌∙◌, Bool, true, false, [], ◌==◌, if◌then◌else◌,
  length, arith, ◌⊎◌, inl, inr, Bool-cases,
}
use farseer.Scheduler.{
  post_abort, refuse, dequeue, post, Scheduler, aborting_flag, is_aborting, is_drained,
}
use farseer.Scheduler.Handling.{OverlappedEntry, behave}
use farseer.Scheduler.Steps.{
  complete, start, outstanding, Settle, refuses, posts, posts_abort, completes, dequeues, consumes,
  Reach,
}
use farseer.Scheduler.Consuming.{Reach-IsCounted, Settle-IsCounted}
use farseer.Scheduler.Draining.{List-cases}
use farseer.Scheduler.Settling.{
  consume_entry-Progresses, Progresses, weight, IsDraining, Settle-Progresses,
}

-- P holds after finitely many steps, whatever the threads do next, in any order, and the consumer may
-- fail at any of them. Until then there is a next step that is no such failure.
pub data Eventually (P : Scheduler → Type 0) : Scheduler → Type 0 where
  now : {s : Scheduler} → P s → Eventually P s
  later :
      {s : Scheduler} (t : Scheduler)
      → Settle s t
      → t.ended ≡ false
      → ((u : Scheduler) → Settle s u → Eventually P u)
      → Eventually P s

-- The consumer is at the head of its loop, and returns.
abbrev pub Returns : Scheduler → Type 0
Returns s = (s.batch ≡ []) × (is_drained s ≡ true)

-- It does, or it has returned since dequeuing failed.
abbrev pub IsOver : Scheduler → Type 0
IsOver s = Returns s ⊎ (s.ended ≡ true)

Progresses-IsDraining :
    (s t : Scheduler) → Settle s t → IsDraining s → Progresses s t → IsDraining t
Progresses-IsDraining s t step v p = record {
  counted = Settle-IsCounted step v.counted;
  drains = p.keeps_draining ∙ v.drains;
  goes_on = p.keeps_going ∙ v.goes_on;
}

drained_test :
    (draining : Bool) (state : ℕ)
    → draining ≡ true
    → state ≡ aborting_flag
    → (if draining then state == aborting_flag else false) ≡ true
drained_test true state d e = ground arith
drained_test false state d e = absurd (ground arith)

pub flag_set :
    (draining aborting : Bool)
    → (if draining then aborting else true) ≡ true
    → draining ≡ true
    → aborting ≡ true
flag_set true aborting h d = h
flag_set false aborting h d = absurd (ground arith)

-- Where state_ counts nothing, the test of the loop succeeds.
outstanding_zero : (s : Scheduler) → IsDraining s → outstanding s ≡ 0 → is_drained s ≡ true
unfolding is_drained
outstanding_zero s v e =
    let flagged = flag_set s.draining (is_aborting s.state) v.counted.draining_aborts v.drains in
    drained_test s.draining s.state v.drains (
      omega (
        arith,
        e,
        v.counted.counted ∙ ap (λ b. outstanding s + (if b then aborting_flag else 0)) flagged,
      ))

-- An operation that does nothing.
abbrev nothing : OverlappedEntry
nothing = record {
  operation = record {
    execute = λ bytes_transferred. ([], inr false);
    on_failure = λ code message. [];
  };
  failed = none;
  bytes_transferred = 0;
}

zero_or_more : (n : ℕ) → (n ≡ 0) ⊎ (0 < n)
zero_or_more zero = inl refl
zero_or_more (suc n) = inr (omega arith)

pub both_tests : {A : Type 0} {b : Bool} → b ≡ true → b ≡ false → A
both_tests h g = absurd (ground arith)

-- Where the batch and the port are empty, another thread goes on.
others-Settle :
    (s : Scheduler)
    → IsDraining s
    → s.batch ≡ []
    → s.port ≡ []
    → is_drained s ≡ false
    → (t : Scheduler) × Settle s t × (t.ended ≡ s.ended)
unfolding post refuse complete post_abort
others-Settle s v batch port undrained = elim (List-cases s.entering) [
  | inr (operation, others, e) ↦ (_, posts true [] others operation e, refl)
  | inl entering ↦ elim (List-cases s.refused) [
    | inr (operation, others, e) ↦ (_, refuses [] others operation e, refl)
    | inl refused ↦ elim (List-cases s.pending) [
      | inr (operation, others, e) ↦ (_, completes [] others operation e, refl)
      | inl pending ↦ elim (zero_or_more s.aborts) [
        | inr some_abort ↦ (_, posts_abort true some_abort, refl)
        | inl aborts ↦
            let lengths : outstanding s ≡ 0 = omega (
              arith,
              ap length entering,
              ap length refused,
              ap length pending,
              ap length batch,
              ap length port,
              aborts,
            ) in
            both_tests (outstanding_zero s v lengths) undrained
      ]
    ]
  ]
]

-- Some thread can go on, or the consumer returns.
progress :
    (s : Scheduler)
    → IsDraining s
    → Returns s ⊎ ((t : Scheduler) × Settle s t × (t.ended ≡ s.ended))
unfolding behave dequeue
progress s v = elim (List-cases s.batch) [
  | inr (entry, entries, e) ↦ inr (
    _,
    consumes nothing entry entries v.goes_on e (omega (arith, v.counted.below)),
    (consume_entry-Progresses (behave nothing) entry entries s e v.drains).keeps_going,
  )
  | inl batch ↦ elim (Bool-cases (is_drained s)) [
    | inl drained ↦ inl (batch, drained)
    | inr undrained ↦ elim (List-cases s.port) [
      | inr (packet, packets, e) ↦
          inr (
            _,
            dequeues 1 v.goes_on batch undrained (omega arith) (omega (arith, ap length e)),
            refl,
          )
      | inl port ↦ inr (others-Settle s v batch port undrained)
    ]
  ]
]

settles_within : (n : ℕ) (s : Scheduler) → weight s < n → IsDraining s → Eventually IsOver s
settles_within zero s bound v = absurd (omega arith)
settles_within (suc n) s bound v = elim (progress s v) [
  | inl returns ↦ now (inl returns)
  | inr (t, step, same) ↦ later t step (same ∙ v.goes_on) (λ u step'.
      elim (Settle-Progresses step' v.drains) [
        | inl p ↦
            settles_within n u (omega (arith, p.lighter)) (Progresses-IsDraining s u step' v p)
        | inr over ↦ now (inr over)
      ])
]

-- Where the consumer drains and has not ended, state_ has counted fewer than 2^63 operations, and no user
-- calls the scheduler any more: after finitely many steps, whatever the threads do, in any order and with
-- any failures of posting, the consumer is at the head of its loop with state_ at the aborting flag, or
-- has returned since dequeuing failed; and until then there is a next step that is no such failure.
-- Time-outs of dequeuing, which change nothing, are not counted as steps.
pub draining_ends :
    (s : Scheduler) → Reach start s → s.draining ≡ true → s.ended ≡ false → Eventually IsOver s
draining_ends s r d e =
    settles_within (weight s + 1) s (omega arith)
      (record { counted = Reach-IsCounted r; drains = d; goes_on = e })
