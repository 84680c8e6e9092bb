-- ===== src/Scheduler/Draining.antt =====
-- What the consumer of internal/windows/operation_scheduler.cpp has done where it ends.
use farseer.Base.{
  ℕ, ◌+◌, ◌≡◌, refl, ap, ◌∙◌, Bool, true, false, List, [], ◌∷◌, ◌==◌, if◌then◌else◌, length, arith,
  ◌⊎◌, inl, inr,
}
use farseer.Scheduler.{Scheduler, aborting_flag, is_aborting, is_drained}
use farseer.Scheduler.Steps.{start, outstanding, Reach}
use farseer.Scheduler.Counting.{IsCounted, count, count_packets}
use farseer.Scheduler.Consuming.{Reach-IsCounted}

length_zero : {A : Type 0} (xs : List A) → length xs ≡ 0 → xs ≡ []
length_zero [] h = refl
length_zero (x ∷ xs) h = absurd (omega arith)

pub List-cases : {A : Type 0} (xs : List A) → (xs ≡ []) ⊎ ((x : A) × (ys : List A) × (xs ≡ x ∷ ys))
List-cases [] = inl refl
List-cases (x ∷ xs) = inr (x, xs, refl)

pub drained_state :
    (draining : Bool) (state : ℕ)
    → (if draining then state == aborting_flag else false) ≡ true
    → (draining ≡ true) × (state ≡ aborting_flag)
drained_state true state h = (refl, ground arith)
drained_state false state h = absurd (ground arith)

drained_outstanding : (s : Scheduler) → IsCounted s → is_drained s ≡ true → outstanding s ≡ 0
unfolding is_drained
drained_outstanding s v h =
    let (d, e) = drained_state s.draining s.state h in
    let flagged : is_aborting s.state ≡ true = ground arith in
    omega (arith, v.counted ∙ ap (λ b. outstanding s + (if b then aborting_flag else 0)) flagged, e)

-- Nothing is left, and every operation was freed.
pub record AllFreed (s : Scheduler) : Type 0 where
  pub none_entering : s.entering ≡ []
  pub none_refused : s.refused ≡ []
  pub port_empty : s.port ≡ []
  pub none_pending : s.pending ≡ []
  pub all_freed : (x : ℕ) → count x s.created ≡ count x s.freed

pub Reach-AllFreed :
    (s : Scheduler) → Reach start s → s.batch ≡ [] → is_drained s ≡ true → AllFreed s
Reach-AllFreed s r empty h =
    let v = Reach-IsCounted r in
    let zero_left = drained_outstanding s v h in
    let entering = length_zero s.entering (omega arith) in
    let refused = length_zero s.refused (omega arith) in
    let port = length_zero s.port (omega arith) in
    let pending = length_zero s.pending (omega arith) in
    record {
      none_entering = entering;
      none_refused = refused;
      port_empty = port;
      none_pending = pending;
      all_freed = λ x. omega (
        arith,
        v.owned x,
        ap (count x) entering,
        ap (count x) refused,
        ap (count_packets x) port,
        ap (count x) pending,
        ap (count_packets x) empty,
      );
    }
