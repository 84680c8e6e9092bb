-- ===== src/Provider/System.antt =====
-- The threads of a program that uses a socket provider, and the event thread, of
-- internal/linux/linux_socket_provider_implementation.cpp. A step of a thread is a call of the
-- provider, a step of the event thread the tasks of one event or the events of one file descriptor.
use farseer.Base.{ℕ, ◌+◌, ◌%◌, ◌<◌, ◌≡◌, Bool, true, false, none, some, [], ◌∷◌, length}
use farseer.Base.Chars.{Chars}
use farseer.Base.Outcome.{Outcome, ok, err}
use farseer.Wire.Ballotin.{Ballotin}
use farseer.Registry.{ProtocolRegistry}
use farseer.Sequencer.{u64_mod}
use farseer.Tasks.{TaskQueue, insert, consume_tasks}
use farseer.Containers.{SocketContainer, EpollEvents}
use farseer.Containers.Operations.{Environment}
use farseer.Containers.Handlers.{handle_socket_events}
use farseer.Provider as Calls
use farseer.Provider.{
  Task, listen_task, connect_task, send_bytes_task, send_request_task,
  register_message_consumer_task, register_request_callback_task, close_task, TaskAnswers,
  Scheduled, execute, Provider, insert_task, open_by_task,
}
use farseer.Provider.Execution.{waiting_of}

module _ {Any : Type 0} where
  unfoldable pub consumed :
      Outcome Bool × TaskQueue (Scheduled Any) × SocketContainer Any → Provider Any → Provider Any
  consumed (ok abort, queue, container) provider = record provider {
    queue = queue;
    container = container;
    ended = abort;
  }
  consumed (err e, queue, container) provider = record provider {
    queue = queue;
    container = container;
    ended = true;
  }

  unfoldable pub consume : ProtocolRegistry Any → ℕ → Provider Any → Provider Any
  unfolding consume_tasks consumed
  consume registry invalid provider =
      consumed (consume_tasks (execute registry invalid) provider.queue provider.container) provider

  -- The first identifier follows the invalid one.
  abbrev pub at_start : ℕ → Provider Any
  at_start invalid = record {
    protocol_sequencer = 0;
    queue = record { tasks = []; counter = 0 };
    container = record {
      sockets = [];
      file_descriptors_to_sockets = [];
      subscriptions = [];
      calls = [];
      events = [];
      socket_identifier_sequencer = (invalid + 1) % u64_mod;
    };
    ended = false;
  }

module _ {Any : Type 0} (b : Ballotin) (registry : ProtocolRegistry Any) (invalid : ℕ) where
  abbrev next_identifier : Provider Any → ℕ
  next_identifier y = y.container.socket_identifier_sequencer

  -- There are 2^64 identifiers.
  pub data Step : Provider Any → Provider Any → Type 0 where
    listens :
        {y : Provider Any} (written : Bool) (a : TaskAnswers) (ip_address : Chars) (port : ℕ)
        → next_identifier y + 1 < u64_mod
        → Step y (Calls.listen written a ip_address port y).1
    connects :
        {y : Provider Any} (written : Bool) (a : TaskAnswers) (ip_address : Chars) (port : ℕ)
        → next_identifier y + 1 < u64_mod
        → Step y (Calls.connect written a ip_address port y).1
    -- sendMessage, sendRequest, the registrations and close
    inserts :
        {y : Provider Any} (written : Bool) (a : TaskAnswers) (task : Task Any)
        → waiting_of (some (task, a) ∷ []) ≡ []
        → Step y (insert_task written a task y).1
    stops : {y : Provider Any} → Step y (record y { queue = (insert true none y.queue).1 })
    consumes :
        {y : Provider Any}
        → y.ended ≡ false
        → 0 < y.queue.counter
        → Step y (consume registry invalid y)
    handles :
        {y : Provider Any} {c : SocketContainer Any} (environment : Environment)
        (file_descriptor : ℕ) (events : EpollEvents)
        → y.ended ≡ false
        → next_identifier y + length environment.accept < u64_mod
        → handle_socket_events b registry invalid environment file_descriptor events y.container
          ≡ some c
        → Step y (record y { container = c })

  pub data Reach (start : Provider Any) : Provider Any → Type 0 where
    begins : Reach start start
    goes : {y z : Provider Any} → Reach start y → Step y z → Reach start z
