-- ===== src/Tasks/Order.antt =====
-- The interleaving of threads that insert tasks with the event thread of
-- internal/linux/linux_socket_provider_implementation.cpp, which takes and runs them.
use farseer.Base.{
  ◌<◌, ◌≡◌, ◌↔◌, refl, sym, subst, ap, ◌∙◌, Bool, true, false, Option, none, some, List, [], ◌∷◌,
  ◌++◌, append_assoc, append-nil, length, length-append, arith, ◌==◌,
}
use farseer.Base.Outcome.{Outcome, ok, err}
use farseer.Tasks.{TaskQueue, insert, transfer, run_tasks, run_transferred, consume_tasks}

module _ {T S : Type 0} (execute : T → S → Outcome (Unit {0}) × S) where
  -- The queue, the sockets, whether the thread has ended, and all tasks that were inserted so far.
  pub record System : Type 0 where
    pub queue : TaskQueue T
    pub sockets : S
    pub ended : Bool
    pub inserted : List (Option T)

  abbrev pub at_start : S → System
  at_start s = record {
    queue = record { tasks = []; counter = 0 };
    sockets = s;
    ended = false;
    inserted = [];
  }

  unfoldable pub after_insert : Option T → System → System
  unfolding insert
  after_insert task y = record y {
    queue = (insert true task y.queue).1;
    inserted = y.inserted ++ task ∷ [];
  }

  -- The thread ends at the null pointer, and with an exception that leaves consumeTasks.
  unfoldable pub consumed : Outcome Bool × TaskQueue T × S → System → System
  consumed (ok abort, queue, s) y = record y { queue = queue; sockets = s; ended = abort }
  consumed (err e, queue, s) y = record y { queue = queue; sockets = s; ended = true }

  unfoldable pub after_consume : System → System
  after_consume y = consumed (consume_tasks execute y.queue y.sockets) y

  -- Any thread inserts a task at any time, or fails to; the event thread consumes the tasks when the
  -- counter is not zero, which is when the event file descriptor is readable.
  pub data Step : System → System → Type 0 where
    inserts : {y : System} (task : Option T) → Step y (after_insert task y)
    fails :
        {y : System} (task : Option T) → Step y (record y { queue = (insert false task y.queue).1 })
    consumes : {y : System} → y.ended ≡ false → 0 < y.queue.counter → Step y (after_consume y)

  pub data Reach (s : S) : System → Type 0 where
    begins : Reach s (at_start s)
    goes : {y z : System} → Reach s y → Step y z → Reach s z

  -- `done` are the tasks that are not in the queue any more.
  pub record IsInOrder (s : S) (y : System) : Type 0 where
    pub done : List (Option T)
    pub order : y.inserted ≡ done ++ y.queue.tasks
    pub run : run_tasks execute done s ≡ (y.ended, y.sockets)
    pub idle : y.queue.counter ≡ 0 ↔ y.queue.tasks ≡ []

  run_tasks-append :
      (done tasks : List (Option T)) (s t : S)
      → run_tasks execute done s ≡ (false, t)
      → run_tasks execute (done ++ tasks) s ≡ run_tasks execute tasks t
  unfolding run_tasks
  run_tasks-append [] tasks s t h = ap (λ (r : Bool × S). run_tasks execute tasks r.1) h
  run_tasks-append (none ∷ done) tasks s t h = absurd (ground arith)
  run_tasks-append (some task ∷ done) tasks s t h =
      run_tasks-append done tasks (execute task s).1 t h

  at_start-IsInOrder : (s : S) → IsInOrder s (at_start s)
  unfolding run_tasks
  at_start-IsInOrder s = record {
    done = [];
    order = refl;
    run = refl;
    idle = (λ e. refl, λ e. refl);
  }

  after_insert-IsInOrder :
      (s : S) (y : System) (task : Option T) → IsInOrder s y → IsInOrder s (after_insert task y)
  unfolding after_insert insert
  after_insert-IsInOrder s y task v = record {
    done = v.done;
    order = ap (λ xs. xs ++ task ∷ []) v.order ∙ append_assoc v.done y.queue.tasks (task ∷ []);
    run = v.run;
    idle = (
      λ e. absurd (omega arith),
      λ e. absurd (omega (arith, ap length e, length-append y.queue.tasks (task ∷ []))),
    );
  }

  transfer-tasks :
      (queue : TaskQueue T)
      → 0 < queue.counter
      → transfer [] queue ≡ (ok queue.tasks, record { tasks = []; counter = 0 })
  unfolding transfer
  transfer-tasks queue some_wait =
      let that : (queue.counter == 0) ≡ false = ground arith in rw that refl

  pub consume_tasks-transfer :
      (queue : TaskQueue T) (s : S)
      → 0 < queue.counter
      → consume_tasks execute queue s ≡ (
        ok (run_tasks execute queue.tasks s).0,
        record { tasks = []; counter = 0 },
        (run_tasks execute queue.tasks s).1,
      )
  unfolding consume_tasks run_transferred
  consume_tasks-transfer queue s some_wait =
      ap (λ r. run_transferred execute r s) (transfer-tasks queue some_wait)

  after_consume-IsInOrder :
      (s : S) (y : System)
      → y.ended ≡ false
      → 0 < y.queue.counter
      → IsInOrder s y
      → IsInOrder s (after_consume y)
  unfolding after_consume consumed
  after_consume-IsInOrder s y goes_on some_wait v =
      let e = consume_tasks-transfer y.queue y.sockets some_wait in
      subst (λ r. IsInOrder s (consumed r y)) (sym e)
        record {
          done = v.done ++ y.queue.tasks;
          order = v.order ∙ sym (append-nil (v.done ++ y.queue.tasks));
          run =
              run_tasks-append v.done y.queue.tasks s y.sockets
                (v.run ∙ ap (λ e. (e, y.sockets)) goes_on);
          idle = (λ e. refl, λ e. refl);
        }

  -- Whatever the interleaving of insertions, of insertions that fail and of consumptions while the
  -- thread has not ended, the tasks inserted so far are those that were taken, in their order, and then
  -- those that wait; running the former one after the other, up to the null pointer, gives the sockets
  -- and says whether the thread has ended; and the counter is zero exactly if no task waits.
  pub tasks-IsInOrder : (s : S) (y : System) → Reach s y → IsInOrder s y
  unfolding insert
  tasks-IsInOrder s y begins = at_start-IsInOrder s
  tasks-IsInOrder s _ (goes {y = y} r (inserts task)) =
      after_insert-IsInOrder s y task (tasks-IsInOrder s y r)
  tasks-IsInOrder s _ (goes {y = y} r (fails task)) = tasks-IsInOrder s y r
  tasks-IsInOrder s _ (goes {y = y} r (consumes goes_on some_wait)) =
      after_consume-IsInOrder s y goes_on some_wait (tasks-IsInOrder s y r)
