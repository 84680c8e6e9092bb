-- ===== src/Provider.antt =====
-- internal/linux/linux_socket_provider_implementation.cpp with the tasks of internal/linux/*_task.cpp,
-- and the functions of socket_provider.hpp and socket_provider.cpp, which leave a task in the queue.
-- The event thread is in Tasks.
pub mod Execution
pub mod System
pub mod Sound
use farseer.Base.{
  ℕ, Bool, true, false, if◌then◌else◌, ◌==◌, Option, none, some, List, [], ◌∷◌, ◌++◌,
}
use farseer.Base.Chars.{Chars}
use farseer.Base.Outcome.{Outcome, ok, err, logic_error}
use farseer.Registry.{ProtocolRegistry}
use farseer.Reader.{Consumer}
use farseer.Sequencer.{generate}
use farseer.Sockets.{SendResult}
use farseer.Sockets.Opening
use farseer.Sockets.Opening.{PtonResult, ConnectResult}
use farseer.Tasks.{TaskQueue, insert}
use farseer.Containers.{SocketContainer, SocketEvent, erase_socket}
use farseer.Containers.Operations
use farseer.Containers.Operations.{Handled, send_bytes_to, register_consumer}

pub data Task (Any : Type 0) : Type 0 where
  listen_task : ℕ → Chars → ℕ → Task Any
  connect_task : ℕ → Chars → ℕ → Task Any
  send_bytes_task : ℕ → List ℕ → Task Any
  send_request_task : ℕ → ℕ → List ℕ → Consumer Any → Task Any
  register_message_consumer_task : ℕ → ℕ → Consumer Any → Task Any
  register_request_callback_task : ℕ → ℕ → (Any → Any) → Task Any
  close_task : ℕ → Task Any

-- What the system calls and the connection callback will answer when the task is executed.
pub record TaskAnswers : Type 0 where
  pub created : Option ℕ
  pub pton : PtonResult
  pub bound : Bool
  pub listens : Bool
  pub connects : ConnectResult
  pub subscribes : Bool
  pub send : List ℕ → SendResult
  pub modifies : Bool
  pub callback : ℕ → SocketEvent → ℕ → Outcome (Unit {0})

abbrev pub Scheduled : Type 0 → Type 0
Scheduled Any = Task Any × TaskAnswers

-- What the tasks do to the container.
module _ {Any : Type 0} where
  unfoldable pub execute_listen :
      ℕ → TaskAnswers → ℕ → Chars → ℕ → SocketContainer Any → Handled Any
  execute_listen invalid a identifier ip_address port =
      Operations.listen invalid
        (Opening.listen a.created a.pton a.bound a.listens ip_address port).0 a.subscribes
        a.callback identifier

  unfoldable pub execute_connect :
      ℕ → TaskAnswers → ℕ → Chars → ℕ → SocketContainer Any → Handled Any
  execute_connect invalid a identifier ip_address port =
      Operations.connect invalid (Opening.connect a.created a.pton a.connects ip_address port).0
        a.subscribes identifier

  unfoldable pub execute_send_bytes : TaskAnswers → ℕ → List ℕ → SocketContainer Any → Handled Any
  execute_send_bytes a identifier bytes = send_bytes_to a.send a.modifies bytes identifier

  unfoldable pub execute_send_request :
      TaskAnswers → ℕ → ℕ → List ℕ → Consumer Any → SocketContainer Any → Handled Any
  execute_send_request a identifier sequence_number bytes consumer =
      Operations.send_request a.send a.modifies sequence_number bytes consumer identifier

  unfoldable pub execute_register_message_consumer :
      ProtocolRegistry Any → ℕ → ℕ → Consumer Any → SocketContainer Any → Handled Any
  execute_register_message_consumer registry identifier protocol consumer =
      Operations.register_message_consumer registry identifier protocol consumer

  unfoldable pub execute_register_request_callback :
      ProtocolRegistry Any → ℕ → ℕ → (Any → Any) → SocketContainer Any → Handled Any
  execute_register_request_callback registry identifier protocol consumer =
      Operations.register_request_callback registry identifier protocol consumer

  unfoldable pub execute_close : ℕ → ℕ → SocketContainer Any → Handled Any
  execute_close invalid identifier container = (ok tt, erase_socket invalid identifier container)

-- ITask::execute.
unfoldable pub execute :
    {Any : Type 0} → ProtocolRegistry Any → ℕ → Scheduled Any → SocketContainer Any → Handled Any
unfolding execute_listen execute_connect execute_send_bytes execute_send_request
    execute_register_message_consumer execute_register_request_callback execute_close
execute registry invalid (listen_task i ip_address port, a) =
    execute_listen invalid a i ip_address port
execute registry invalid (connect_task i ip_address port, a) =
    execute_connect invalid a i ip_address port
execute registry invalid (send_bytes_task i bytes, a) = execute_send_bytes a i bytes
execute registry invalid (send_request_task i sequence_number bytes consumer, a) =
    execute_send_request a i sequence_number bytes consumer
execute registry invalid (register_message_consumer_task i protocol consumer, a) =
    execute_register_message_consumer registry i protocol consumer
execute registry invalid (register_request_callback_task i protocol consumer, a) =
    execute_register_request_callback registry i protocol consumer
execute registry invalid (close_task i, a) = execute_close invalid i

-- The identifier sequencer is that of the container.
pub record Provider (Any : Type 0) : Type 0 where
  pub protocol_sequencer : ℕ
  pub queue : TaskQueue (Scheduled Any)
  pub container : SocketContainer Any
  pub ended : Bool

module _ {Any : Type 0} where
  -- `written` is the answer of ::write in TaskQueue::insert.
  unfoldable pub insert_task :
      Bool → TaskAnswers → Task Any → Provider Any → Outcome (Unit {0}) × Provider Any
  unfolding insert
  insert_task written answers task provider =
      let (outcome, queue) = insert written (some (task, answers)) provider.queue in
      (outcome, record provider { queue = queue })

  -- The next identifier, for the task that opens its socket.
  unfoldable pub open_by_task :
      Bool → TaskAnswers → (ℕ → Task Any) → Provider Any → Outcome ℕ × Provider Any
  unfolding insert_task
  open_by_task written answers task provider =
      let (identifier, next) = generate provider.container.socket_identifier_sequencer in
      let (outcome, provider') = insert_task written answers (task identifier) (record provider {
        container = record provider.container { socket_identifier_sequencer = next };
      }) in
      (elim outcome [ ok _ ↦ ok identifier | err e ↦ err e ], provider')

  unfoldable pub listen : Bool → TaskAnswers → Chars → ℕ → Provider Any → Outcome ℕ × Provider Any
  unfolding open_by_task
  listen written answers ip_address port =
      open_by_task written answers (λ identifier. listen_task identifier ip_address port)

  unfoldable pub connect : Bool → TaskAnswers → Chars → ℕ → Provider Any → Outcome ℕ × Provider Any
  unfolding open_by_task
  connect written answers ip_address port =
      open_by_task written answers (λ identifier. connect_task identifier ip_address port)

  unfoldable pub generate_sequence_number : Provider Any → ℕ × Provider Any
  generate_sequence_number provider =
      let (sequence_number, next) = generate provider.protocol_sequencer in
      (sequence_number, record provider { protocol_sequencer = next })

-- The functions of SocketProvider. `bytes` is what serializeWithHeader gives; a consumer or a callback
-- is the one that was given with its casts.
module _ {Any : Type 0} (invalid_socket_identifier : ℕ) where
  unfoldable pub send_message :
      Bool → TaskAnswers → ℕ → Outcome (List ℕ) → Provider Any → Outcome (Unit {0}) × Provider Any
  unfolding insert_task
  send_message written answers identifier bytes provider =
      if identifier == invalid_socket_identifier then (err logic_error, provider) else elim bytes [
        | err e ↦ (err e, provider)
        | ok bytes' ↦ insert_task written answers (send_bytes_task identifier bytes') provider
      ]

  unfoldable pub send_request :
      Bool
      → TaskAnswers
      → ℕ
      → (ℕ → Outcome (List ℕ))
      → Consumer Any
      → Provider Any
      → Outcome (Unit {0}) × Provider Any
  unfolding insert_task generate_sequence_number
  send_request written answers identifier bytes consumer provider =
      if identifier == invalid_socket_identifier
      then (err logic_error, provider)
      else (let (sequence_number, provider') = generate_sequence_number provider in
          elim (bytes sequence_number) [
            | err e ↦ (err e, provider')
            | ok bytes' ↦
                insert_task written answers
                  (send_request_task identifier sequence_number bytes' consumer) provider'
          ])

  unfoldable pub register_message_consumer :
      Bool → TaskAnswers → ℕ → ℕ → Consumer Any → Provider Any → Outcome (Unit {0}) × Provider Any
  unfolding insert_task
  register_message_consumer written answers identifier protocol consumer provider =
      if identifier == invalid_socket_identifier
      then (err logic_error, provider)
      else insert_task written answers (register_message_consumer_task identifier protocol consumer)
          provider

  unfoldable pub register_request_callback :
      Bool → TaskAnswers → ℕ → ℕ → (Any → Any) → Provider Any → Outcome (Unit {0}) × Provider Any
  unfolding insert_task
  register_request_callback written answers identifier protocol callback provider =
      if identifier == invalid_socket_identifier
      then (err logic_error, provider)
      else insert_task written answers (register_request_callback_task identifier protocol callback)
          provider

  unfoldable pub close : Bool → TaskAnswers → ℕ → Provider Any → Outcome (Unit {0}) × Provider Any
  unfolding insert_task
  close written answers identifier provider =
      if identifier == invalid_socket_identifier
      then (ok tt, provider)
      else insert_task written answers (close_task identifier) provider
