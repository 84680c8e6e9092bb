-- ===== src/Samples/Tasks.antt =====
-- Tasks of two threads, with a consumption in front of the null pointer.
use farseer.Base.{◌≡◌, refl, ◌++◌, false, none, some, ℕ, List, [], ◌∷◌, arith, ◌<◌}
use farseer.Base.Outcome.{Outcome, ok}
use farseer.Tasks.{insert, consume_tasks, transfer, run_transferred, run_tasks}
use farseer.Tasks.Order.{
  consumed, System, IsInOrder, begins, goes, inserts, consumes, at_start, after_insert,
  after_consume, tasks-IsInOrder,
}

abbrev note : ℕ → List ℕ → Outcome (Unit {0}) × List ℕ
note n s = (ok tt, s ++ n ∷ [])

abbrev waiting : System {T = ℕ} note
waiting = after_insert note (some 2) (after_insert note (some 1) (at_start note []))

abbrev last : System {T = ℕ} note
last = after_insert note none (after_consume note waiting)

waiting_counter : 0 < waiting.queue.counter
unfolding after_insert insert
waiting_counter = omega arith

waiting_ended : waiting.ended ≡ false
unfolding after_insert
waiting_ended = refl

waiting_run : (after_consume note waiting).sockets ≡ 1 ∷ 2 ∷ []
unfolding after_consume after_insert insert consume_tasks transfer run_transferred run_tasks
    consumed
waiting_run = refl

tasks-IsInOrder_example : IsInOrder note [] last
tasks-IsInOrder_example = tasks-IsInOrder note [] last (
    goes
      (goes (goes (goes begins (inserts (some 1))) (inserts (some 2)))
        (consumes waiting_ended waiting_counter))
      (inserts none))
