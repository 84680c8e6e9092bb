-- ===== src/Provider/Execution.antt =====
-- The tasks of internal/linux/*_task.cpp on a sound container.
use farseer.Base.{
  ==_iff, ℕ, ◌≡◌, refl, sym, ap, subst, ◌∙◌, Bool, true, false, Option, none, some, List, [], ◌∷◌,
  ◌==◌, arith, Bool-cases, inl, inr,
}
use farseer.Base.Outcome.{Outcome, ok, err}
use farseer.Registry.{ProtocolRegistry}
use farseer.Sockets.{LinuxSocket}
use farseer.Reader.{
  register_inbound_message_consumer, register_inbound_request_consumer,
  register_inbound_one_shot_response_consumer,
}
use farseer.Tasks.{run_tasks}
use farseer.Containers.{
  Socket, SocketContainer, SocketEvent, server_open, EpollEvents, insert_socket, erase_socket,
}
use farseer.Containers.Lookup.{IsWellFormed, erase_socket-IsWellFormed}
use farseer.Containers.Insert.{insert_socket-IsWellFormed}
use farseer.Containers.Moves.{Keeps}
use farseer.Containers.Invariant.{Keeps-IsWellFormed}
use farseer.Containers.Keeping.{
  then_kept, call_back-Keeps, register_consumer_kept, send_bytes_to_kept,
}
use farseer.Containers.Operations
use farseer.Containers.Operations.{
  send_bytes_to, register_consumer, Handled, new_socket, readable, writable, done, call_back,
}
use farseer.Containers.Refines.{done-container}
use farseer.Containers.Closing.{elem, IsReported, Keeps-IsReported, erase_socket-IsReported}
use farseer.Containers.Opened.{insert_socket-IsReported}
use farseer.Provider.{
  Consumer, SendResult, listen_task, connect_task, send_bytes_task, send_request_task,
  register_message_consumer_task, register_request_callback_task, close_task, Scheduled, execute,
}

-- The identifiers of the sockets that tasks will open.
unfoldable pub waiting_of : {Any : Type 0} → List (Option (Scheduled Any)) → List ℕ
waiting_of [] = []
waiting_of (none ∷ tasks) = waiting_of tasks
waiting_of (some (listen_task i ip_address port, a) ∷ tasks) = i ∷ waiting_of tasks
waiting_of (some (connect_task i ip_address port, a) ∷ tasks) = i ∷ waiting_of tasks
waiting_of (some (send_bytes_task i bytes, a) ∷ tasks) = waiting_of tasks
waiting_of (some (send_request_task i n bytes consumer, a) ∷ tasks) = waiting_of tasks
waiting_of (some (register_message_consumer_task i p consumer, a) ∷ tasks) = waiting_of tasks
waiting_of (some (register_request_callback_task i p consumer, a) ∷ tasks) = waiting_of tasks
waiting_of (some (close_task i, a) ∷ tasks) = waiting_of tasks

abbrev pub IsDistinct : List ℕ → Type 0
IsDistinct [] = Unit
IsDistinct (i ∷ is) = (elem i is ≡ false) × IsDistinct is

elem_tail : (i j : ℕ) (is : List ℕ) → elem i is ≡ true → elem i (j ∷ is) ≡ true
unfolding elem
elem_tail i j is h = ground arith

elem_none : (i : ℕ) (is : List ℕ) → elem i [] ≡ true → elem i is ≡ true
unfolding elem
elem_none i is h = absurd (ground arith)

elem_here : (i : ℕ) (is : List ℕ) → elem i (i ∷ is) ≡ true
unfolding elem
elem_here i is = ground arith

elem_other : (i j : ℕ) (is : List ℕ) → elem j is ≡ false → elem i is ≡ true → (j == i) ≡ false
elem_other i j is h g = elim (Bool-cases (j == i)) [
  | inl e ↦
      let same : elem j is ≡ true = ap (λ k. elem k is) ((==_iff j i).0 e) ∙ g in
      absurd (ground arith)
  | inr e ↦ e
]

module _ {Any : Type 0} where
  abbrev pub IsSound : List ℕ → SocketContainer Any → Type 0
  IsSound waiting c = IsWellFormed c × IsReported waiting c

  pub Keeps-IsSound :
      (waiting : List ℕ) (c c' : SocketContainer Any)
      → IsSound waiting c
      → Keeps c c'
      → IsSound waiting c'
  Keeps-IsSound waiting c c' (v, w) k =
      (Keeps-IsWellFormed c c' k v, Keeps-IsReported waiting c c' k w)

  pub erase_socket-IsSound :
      (invalid i : ℕ) (waiting : List ℕ) (c : SocketContainer Any)
      → IsSound waiting c
      → IsSound waiting (erase_socket invalid i c)
  erase_socket-IsSound invalid i waiting c (v, w) =
      (erase_socket-IsWellFormed invalid i c v, erase_socket-IsReported invalid i waiting c w)

  pub fewer-IsSound :
      (waiting waiting' : List ℕ) (c : SocketContainer Any)
      → ((i : ℕ) → elem i waiting' ≡ true → elem i waiting ≡ true)
      → IsSound waiting c
      → IsSound waiting' c
  fewer-IsSound waiting waiting' c fewer (v, w) = (
    v,
    record {
      waiting_unused = λ i h. w.waiting_unused i (fewer i h);
      waiting_below = λ i h. w.waiting_below i (fewer i h);
      next_unused = w.next_unused;
      still_open = w.still_open;
      at_most_once = w.at_most_once;
    },
  )

  -- The socket of a task, under an identifier that waits.
  insert_socket-IsSound :
      (subscribes : Bool) (events : EpollEvents) (s : Socket Any) (waiting : List ℕ)
      (c : SocketContainer Any)
      → elem s.socket_identifier waiting ≡ false
      → IsSound (s.socket_identifier ∷ waiting) c
      → IsSound waiting (done (insert_socket subscribes events s c)).1
  insert_socket-IsSound subscribes events s waiting c new (v, w) =
      let here = elem_here s.socket_identifier waiting in
      subst (IsSound waiting) (sym (done-container (insert_socket subscribes events s c))) (
        insert_socket-IsWellFormed subscribes events s c v,
        insert_socket-IsReported subscribes events s (s.socket_identifier ∷ waiting) waiting
            c.socket_identifier_sequencer c w (w.waiting_unused s.socket_identifier here)
            (w.waiting_below s.socket_identifier here) (omega arith)
            (λ i h. (
              elem_tail i s.socket_identifier waiting h,
              elem_other i s.socket_identifier waiting new h,
            )),
      )

  module _ (registry : ProtocolRegistry Any) (invalid : ℕ) where
    listen-IsSound :
        (opened : Outcome LinuxSocket) (subscribes : Bool)
        (callback : ℕ → SocketEvent → ℕ → Outcome (Unit {0})) (i : ℕ) (waiting : List ℕ)
        (c : SocketContainer Any)
        → elem i waiting ≡ false
        → IsSound (i ∷ waiting) c
        → IsSound waiting (Operations.listen invalid opened subscribes callback i c).1
    unfolding Operations.listen
    listen-IsSound (err e) subscribes callback i waiting c new v =
        fewer-IsSound (i ∷ waiting) waiting c (λ j. elem_tail j i waiting) v
    listen-IsSound (ok socket) subscribes callback i waiting c new v =
        let s = new_socket {Any = Any} i invalid socket in
        then_kept (IsSound waiting) (done (insert_socket subscribes readable s c))
          (call_back callback i server_open i)
          (insert_socket-IsSound subscribes readable s waiting c new v)
          (λ d w. Keeps-IsSound waiting d _ w (call_back-Keeps callback i server_open i d refl))

    connect-IsSound :
        (opened : Outcome LinuxSocket) (subscribes : Bool) (i : ℕ) (waiting : List ℕ)
        (c : SocketContainer Any)
        → elem i waiting ≡ false
        → IsSound (i ∷ waiting) c
        → IsSound waiting (Operations.connect invalid opened subscribes i c).1
    unfolding Operations.connect
    connect-IsSound (err e) subscribes i waiting c new v =
        fewer-IsSound (i ∷ waiting) waiting c (λ j. elem_tail j i waiting) v
    connect-IsSound (ok socket) subscribes i waiting c new v =
        insert_socket-IsSound subscribes writable (new_socket i invalid socket) waiting c new v

    send_request-IsSound :
        (send : List ℕ → SendResult) (modifies : Bool) (n : ℕ) (bytes : List ℕ)
        (consumer : Consumer Any) (i : ℕ) (waiting : List ℕ) (c : SocketContainer Any)
        → IsSound waiting c
        → IsSound waiting (Operations.send_request send modifies n bytes consumer i c).1
    unfolding Operations.send_request
    send_request-IsSound send modifies n bytes consumer i waiting c v =
        let registration = register_inbound_one_shot_response_consumer n consumer in
        then_kept (IsSound waiting) (register_consumer registration i c)
          (send_bytes_to send modifies bytes i)
          (register_consumer_kept (IsSound waiting) (Keeps-IsSound waiting) registration i c v)
          (λ d w.
            send_bytes_to_kept (IsSound waiting) (Keeps-IsSound waiting) send modifies bytes i d w)

    -- A batch of tasks, up to a null pointer.
    pub run_tasks-IsSound :
        (tasks : List (Option (Scheduled Any))) (c : SocketContainer Any)
        → IsDistinct (waiting_of tasks)
        → IsSound (waiting_of tasks) c
        → IsSound [] (run_tasks (execute registry invalid) tasks c).1
    unfolding run_tasks waiting_of execute Operations.register_message_consumer
        Operations.register_request_callback
    run_tasks-IsSound [] c distinct v = v
    run_tasks-IsSound (none ∷ tasks) c distinct v =
        fewer-IsSound (waiting_of tasks) [] c (λ i h. elem_none i (waiting_of tasks) h) v
    run_tasks-IsSound (some (listen_task i ip_address port, a) ∷ tasks) c (new, distinct) v =
        run_tasks-IsSound tasks _ distinct (listen-IsSound _ a.subscribes a.callback i _ c new v)
    run_tasks-IsSound (some (connect_task i ip_address port, a) ∷ tasks) c (new, distinct) v =
        run_tasks-IsSound tasks _ distinct (connect-IsSound _ a.subscribes i _ c new v)
    run_tasks-IsSound (some (send_bytes_task i bytes, a) ∷ tasks) c distinct v =
        run_tasks-IsSound tasks _ distinct (
          send_bytes_to_kept (IsSound (waiting_of tasks)) (Keeps-IsSound (waiting_of tasks)) a.send
            a.modifies bytes i c v)
    run_tasks-IsSound (some (send_request_task i n bytes consumer, a) ∷ tasks) c distinct v =
        run_tasks-IsSound tasks _ distinct
          (send_request-IsSound a.send a.modifies n bytes consumer i (waiting_of tasks) c v)
    run_tasks-IsSound (some (register_message_consumer_task i p consumer, a) ∷ tasks) c distinct v =
        run_tasks-IsSound tasks _ distinct (
          register_consumer_kept (IsSound (waiting_of tasks)) (Keeps-IsSound (waiting_of tasks))
            (register_inbound_message_consumer registry p consumer) i c v)
    run_tasks-IsSound (some (register_request_callback_task i p consumer, a) ∷ tasks) c distinct v =
        run_tasks-IsSound tasks _ distinct (
          register_consumer_kept (IsSound (waiting_of tasks)) (Keeps-IsSound (waiting_of tasks))
            (register_inbound_request_consumer registry p consumer) i c v)
    run_tasks-IsSound (some (close_task i, a) ∷ tasks) c distinct v =
        run_tasks-IsSound tasks _ distinct (erase_socket-IsSound invalid i (waiting_of tasks) c v)
