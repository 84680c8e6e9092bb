-- ===== src/Provider/Sound.antt =====
-- A socket provider of internal/linux/linux_socket_provider_implementation.cpp, over all that its
-- threads do.
use farseer.Base.{
  none-ne-some, append-nil, ◌⊎◌, ℕ, ◌+◌, ◌<◌, ◌≡◌, refl, sym, ap, subst, ◌∙◌, Bool, true, false,
  Option, none, some, List, [], ◌∷◌, ◌++◌, ◌==◌, length, arith, Bool-cases, inl, inr,
}
use farseer.Wire.Ballotin.{Ballotin}
use farseer.Registry.{ProtocolRegistry}
use farseer.Sequencer.{generate, u64_mod}
use farseer.Tasks.{insert}
use farseer.Containers.{SocketContainer, EpollEvents}
use farseer.Containers.Operations.{Environment}
use farseer.Containers.Handlers.{handle_socket_events}
use farseer.Base.Assoc.{find, contains}
use farseer.Tasks.Order.{consume_tasks-transfer}
use farseer.Containers.Insert.{same-IsWellFormed}
use farseer.Containers.Refines.{handle_socket_events-Moves}
use farseer.Containers.Invariant.{Moves-IsWellFormed}
use farseer.Containers.Closing.{closed_count, elem}
use farseer.Containers.Opened.{generate_next, Moves-IsReported}
use farseer.Provider as Calls
use farseer.Provider.{
  Task, listen_task, connect_task, send_bytes_task, send_request_task,
  register_message_consumer_task, register_request_callback_task, close_task, TaskAnswers,
  Scheduled, execute, Provider, insert_task, open_by_task,
}
use farseer.Provider.Execution.{waiting_of, IsDistinct, IsSound, run_tasks-IsSound}
use farseer.Provider.System.{
  Step, listens, connects, inserts, stops, consumes, handles, Reach, begins, goes, at_start,
  consume, consumed,
}

waiting_of-append :
    {Any : Type 0} (xs ys : List (Option (Scheduled Any)))
    → waiting_of (xs ++ ys) ≡ waiting_of xs ++ waiting_of ys
unfolding waiting_of
waiting_of-append [] ys = refl
waiting_of-append (none ∷ xs) ys = waiting_of-append xs ys
waiting_of-append (some (listen_task i ip_address port, a) ∷ xs) ys =
    ap (λ is. i ∷ is) (waiting_of-append xs ys)
waiting_of-append (some (connect_task i ip_address port, a) ∷ xs) ys =
    ap (λ is. i ∷ is) (waiting_of-append xs ys)
waiting_of-append (some (send_bytes_task i bytes, a) ∷ xs) ys = waiting_of-append xs ys
waiting_of-append (some (send_request_task i n bytes consumer, a) ∷ xs) ys = waiting_of-append xs ys
waiting_of-append (some (register_message_consumer_task i p consumer, a) ∷ xs) ys =
    waiting_of-append xs ys
waiting_of-append (some (register_request_callback_task i p consumer, a) ∷ xs) ys =
    waiting_of-append xs ys
waiting_of-append (some (close_task i, a) ∷ xs) ys = waiting_of-append xs ys

elem_last : (i k : ℕ) (is : List ℕ) → elem i (is ++ k ∷ []) ≡ true → (elem i is ≡ true) ⊎ (k ≡ i)
unfolding elem
elem_last i k [] h = inr (ground arith)
elem_last i k (j ∷ is) h = elim (Bool-cases (j == i)) [
  | inl e ↦ inl (rw e refl)
  | inr e ↦ elim (elem_last i k is (rw e at h)) [ inl g ↦ inl (rw e g) | inr g ↦ inr g ]
]

elem_last_new :
    (j k : ℕ) (is : List ℕ) → elem j is ≡ false → (k == j) ≡ false → elem j (is ++ k ∷ []) ≡ false
unfolding elem
elem_last_new j k [] h g = rw g refl
elem_last_new j k (i ∷ is) h g = ground (arith, elem_last_new j k is)

IsDistinct-last :
    (k : ℕ) (is : List ℕ)
    → IsDistinct is
    → ((i : ℕ) → elem i is ≡ true → i < k)
    → IsDistinct (is ++ k ∷ [])
unfolding elem
IsDistinct-last k [] distinct below = (refl, tt)
IsDistinct-last k (j ∷ is) (new, distinct) below =
    let less : j < k = below j (ground arith) in
    (
      elem_last_new j k is new (ground arith),
      IsDistinct-last k is distinct (λ i h. below i (ground arith)),
    )

module _ {Any : Type 0} where
  -- Of the tasks in the queue no two open a socket under one identifier, and the container is sound.
  abbrev IsServed : Provider Any → Type 0
  IsServed y =
      IsDistinct (waiting_of y.queue.tasks) × IsSound (waiting_of y.queue.tasks) y.container

  -- An identifier is handed out.
  generated-IsSound :
      (is is' : List ℕ) (c : SocketContainer Any)
      → c.socket_identifier_sequencer + 1 < u64_mod
      → ((i : ℕ) → elem i is' ≡ true → (elem i is ≡ true) ⊎ (c.socket_identifier_sequencer ≡ i))
      → IsSound is c
      → IsSound is'
          (record c { socket_identifier_sequencer = (generate c.socket_identifier_sequencer).1 })
  generated-IsSound is is' c bound fewer (v, w) =
      let next = generate_next c.socket_identifier_sequencer bound in
      (
        same-IsWellFormed c _ (λ i. refl) (λ d. refl) refl v,
        record {
          waiting_unused = λ i h. elim (fewer i h) [
            | inl g ↦ w.waiting_unused i g
            | inr g ↦ w.next_unused i (omega arith)
          ];
          waiting_below = λ i h. elim (fewer i h) [
            | inl g ↦ omega (arith, w.waiting_below i g)
            | inr g ↦ omega arith
          ];
          next_unused = λ i h. w.next_unused i (omega arith);
          still_open = w.still_open;
          at_most_once = w.at_most_once;
        },
      )

  -- A task that was inserted, or not, for a socket under the next identifier.
  open_by_task-IsServed :
      (written : Bool) (a : TaskAnswers) (task : ℕ → Task Any) (y : Provider Any)
      → y.container.socket_identifier_sequencer + 1 < u64_mod
      → ((i : ℕ) → waiting_of (some (task i, a) ∷ []) ≡ i ∷ [])
      → IsServed y
      → IsServed (open_by_task written a task y).1
  unfolding open_by_task insert_task insert generate
  open_by_task-IsServed true a task y bound opens (distinct, v) =
      let next = y.container.socket_identifier_sequencer in
      let is = waiting_of y.queue.tasks in
      let e : waiting_of (y.queue.tasks ++ some (task next, a) ∷ []) ≡ is ++ next ∷ [] =
        waiting_of-append y.queue.tasks (some (task next, a) ∷ [])
        ∙ ap (λ js. is ++ js) (opens next) in
      subst
        (λ js.
          IsDistinct js
          × IsSound js (record y.container { socket_identifier_sequencer = (generate next).1 }))
        (sym e)
        (
          IsDistinct-last next is distinct v.1.waiting_below,
          generated-IsSound is (is ++ next ∷ []) y.container bound (λ i h. elem_last i next is h) v,
        )
  open_by_task-IsServed false a task y bound opens (distinct, v) = (
    distinct,
    generated-IsSound (waiting_of y.queue.tasks) (waiting_of y.queue.tasks) y.container bound
        (λ i h. inl h) v,
  )

  -- A task that opens no socket.
  insert-IsServed :
      (written : Bool) (task : Option (Scheduled Any)) (y : Provider Any)
      → waiting_of (task ∷ []) ≡ []
      → IsServed y
      → IsServed (record y { queue = (insert written task y.queue).1 })
  unfolding insert
  insert-IsServed true task y opens v =
      subst (λ js. IsDistinct js × IsSound js y.container)
        (sym (
          waiting_of-append y.queue.tasks (task ∷ [])
          ∙ ap (λ js. waiting_of y.queue.tasks ++ js) opens
          ∙ append-nil _))
        v
  insert-IsServed false task y opens v = v

  consume-IsServed :
      (registry : ProtocolRegistry Any) (invalid : ℕ) (y : Provider Any)
      → 0 < y.queue.counter
      → IsServed y
      → IsServed (consume registry invalid y)
  unfolding consume consumed waiting_of
  consume-IsServed registry invalid y some_wait (distinct, v) =
      subst (λ r. IsServed (consumed r y))
        (sym (consume_tasks-transfer (execute registry invalid) y.queue y.container some_wait))
        (tt, run_tasks-IsSound registry invalid y.queue.tasks y.container distinct v)

  handle-IsServed :
      (b : Ballotin) (registry : ProtocolRegistry Any) (invalid : ℕ) (environment : Environment)
      (d : ℕ) (events : EpollEvents) (y : Provider Any) (c : SocketContainer Any)
      → y.container.socket_identifier_sequencer + length environment.accept < u64_mod
      → handle_socket_events b registry invalid environment d events y.container ≡ some c
      → IsServed y
      → IsServed (record y { container = c })
  handle-IsServed b registry invalid environment d events y c bound e (distinct, v) =
      let (n, le, m) =
        handle_socket_events-Moves b registry invalid environment d events y.container c v.0 e in
      (
        distinct,
        (
          Moves-IsWellFormed invalid y.container n c m v.0,
          (Moves-IsReported invalid (waiting_of y.queue.tasks) y.container n c m (omega arith)
              v.1).0,
        ),
      )

  module _ (b : Ballotin) (registry : ProtocolRegistry Any) (invalid : ℕ) where
    Step-IsServed : {y z : Provider Any} → Step b registry invalid y z → IsServed y → IsServed z
    unfolding Calls.listen Calls.connect insert_task waiting_of
    Step-IsServed (listens {y = y} written a ip_address port bound) v =
        open_by_task-IsServed written a (λ i. listen_task i ip_address port) y bound (λ i. refl) v
    Step-IsServed (connects {y = y} written a ip_address port bound) v =
        open_by_task-IsServed written a (λ i. connect_task i ip_address port) y bound (λ i. refl) v
    Step-IsServed (inserts {y = y} written a task opens) v =
        insert-IsServed written (some (task, a)) y opens v
    Step-IsServed (stops {y = y}) v = insert-IsServed true none y refl v
    Step-IsServed (consumes {y = y} goes_on some_wait) v =
        consume-IsServed registry invalid y some_wait v
    Step-IsServed (handles {y = y} {c = c} environment d events goes_on bound e) v =
        handle-IsServed b registry invalid environment d events y c bound e v

    at_start-IsServed : IsServed (at_start {Any = Any} invalid)
    unfolding waiting_of find contains elem closed_count
    at_start-IsServed = (
      tt,
      (
        record {
          by_identifier = λ i s h. absurd (none-ne-some h);
          by_descriptor = λ d i h. absurd (none-ne-some h);
          subscribed = λ d. refl;
        },
        record {
          waiting_unused = λ i h. (refl, refl);
          waiting_below = λ i h. absurd (ground arith);
          next_unused = λ i h. (refl, refl);
          still_open = λ i s h. refl;
          at_most_once = λ i. omega arith;
        },
      ),
    )

    Reach-IsServed : (y : Provider Any) → Reach b registry invalid (at_start invalid) y → IsServed y
    Reach-IsServed _ begins = at_start-IsServed
    Reach-IsServed z (goes {y = y} r step) = Step-IsServed step (Reach-IsServed y r)

    -- Whatever the threads of a program call, whatever the system calls, the callbacks and the
    -- consumers answer, and in whatever order: the three maps of the container agree; no socket is
    -- reported closed more than once, and none that is still there; and an identifier that waits in a
    -- task or was not handed out belongs to no socket and was not reported closed.
    pub Reach-IsSound :
        (y : Provider Any)
        → Reach b registry invalid (at_start invalid) y
        → IsSound (waiting_of y.queue.tasks) y.container
    Reach-IsSound y r = (Reach-IsServed y r).1
