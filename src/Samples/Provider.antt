-- ===== src/Samples/Provider.antt =====
-- A provider that listens, and whose socket accepts a connection.
use farseer.Base.{none, ℕ, ◌≤◌, ◌<◌, ◌≡◌, refl, true, false, some, [], ◌∷◌, ◌++◌, length, arith}
use farseer.Base.Outcome.{ok}
use farseer.Base.Assoc.{find, contains, insert}
use farseer.Wire.Ballotin.{list_ballotin}
use farseer.Sequencer.{generate}
use farseer.Sockets.{LinuxSocket, sent, receive_would_block, received, listening, accepted}
use farseer.Sockets.Opening.{
  connection, accept_would_block, accept_failed, pton_done, connect_in_progress, listen, connect,
  accept, is_listening, held, held_by_accepted, descriptors, accepted_descriptors, descriptors_kept,
}
use farseer.Tasks
use farseer.Tasks.{consume_tasks, transfer, run_transferred, run_tasks}
use farseer.Containers.{SocketContainer, EpollEvents, erase_socket, insert_socket}
use farseer.Containers.Operations.{Environment, readable}
use farseer.Containers.Handlers.{handle_socket_events, read_socket}
use farseer.Containers.Moves.{Moves}
use farseer.Containers.Refines.{handle_socket_events-Moves}
use farseer.Containers.Accepting.{accept_failed_erases}
use farseer.Containers.Reading.{read_by, IsReadByListening, read_socket_accepted}
use farseer.Containers.Ending.{handle_socket_events_ends}
use farseer.Provider
use farseer.Provider.{Provider, TaskAnswers, open_by_task, insert_task, execute}
use farseer.Provider.Execution.{waiting_of, IsSound}
use farseer.Provider.System.{begins, goes, listens, consumes, handles, at_start, consume, consumed}
use farseer.Provider.Sound.{Reach-IsSound}
use farseer.Samples.Protocol.{Held}
use farseer.Samples.Service.{registry}
use farseer.Samples.Containers.{socket_of, both, both-IsWellFormed}

abbrev answers : TaskAnswers
answers = record {
  created = some 5;
  pton = pton_done;
  bound = true;
  listens = true;
  connects = connect_in_progress;
  subscribes = true;
  send = λ bytes. sent (length bytes);
  modifies = true;
  callback = λ i event about. ok tt;
}

-- One connection, and three bytes.
abbrev environment : Environment
environment = record {
  send = λ second bytes. sent (length bytes);
  modifies = λ second. true;
  receive = received (0 ∷ 0 ∷ 0 ∷ []) ∷ receive_would_block ∷ [];
  accept = (connection 6 true (some []) 4000, true) ∷ (accept_would_block, true) ∷ [];
  callback = λ i event about. ok tt;
}

abbrev listened : Provider Held
listened = (Provider.listen true answers [] 80 (at_start 0)).1

abbrev served : Provider Held
served = consume registry 0 listened

abbrev handled : SocketContainer Held
handled =
    (handle_socket_events_ends list_ballotin registry 0 environment tt tt 5 readable
      served.container).0

listened_counter : 0 < listened.queue.counter
unfolding Provider.listen open_by_task insert_task Tasks.insert
listened_counter = omega arith

listened_ended : listened.ended ≡ false
unfolding Provider.listen open_by_task insert_task
listened_ended = refl

served_ended : served.ended ≡ false
unfolding consume consumed consume_tasks transfer run_transferred run_tasks execute Provider.listen
    open_by_task insert_task Tasks.insert
served_ended = refl

served_next : served.container.socket_identifier_sequencer ≡ 2
unfolding consume consumed consume_tasks transfer run_transferred run_tasks execute Provider.listen
    open_by_task insert_task Tasks.insert generate farseer.Containers.Operations.listen listen
    insert_socket contains farseer.Containers.Operations.call_back
served_next = refl

Reach-IsSound_example : IsSound (waiting_of served.queue.tasks) handled
Reach-IsSound_example =
    Reach-IsSound list_ballotin registry 0 (record served { container = handled })
      (goes
        (goes (goes begins (listens true answers [] 80 (omega arith)))
          (consumes listened_ended listened_counter))
        (handles environment 5 readable served_ended (omega (arith, served_next))
          (handle_socket_events_ends list_ballotin registry 0 environment tt tt 5 readable
            served.container).1))

both_descriptor : find 5 both.file_descriptors_to_sockets ≡ some 1
unfolding insert_socket insert find contains
both_descriptor = refl

both_listening : find 1 both.sockets ≡ some (socket_of 1 0 5 listening)
unfolding insert_socket insert find contains
both_listening = refl

both_accepted : find 2 both.sockets ≡ some (socket_of 2 1 6 accepted)
unfolding insert_socket insert find contains
both_accepted = refl

abbrev listening_socket : LinuxSocket
listening_socket = (socket_of 1 0 5 listening).socket

listening_socket_listens : is_listening listening_socket.socket_type ≡ true
unfolding is_listening
listening_socket_listens = refl

abbrev received_container : SocketContainer Held
received_container =
    (handle_socket_events_ends list_ballotin registry 0 environment tt tt 6 readable both).0

handle_socket_events-Moves_example :
    (n : ℕ) × (n ≤ length environment.accept) × Moves 0 both n received_container
handle_socket_events-Moves_example =
    handle_socket_events-Moves list_ballotin registry 0 environment 6 readable both
      received_container both-IsWellFormed
      (handle_socket_events_ends list_ballotin registry 0 environment tt tt 6 readable both).1

handle_socket_events_ends_example :
    (c : SocketContainer Held) × (handle_socket_events list_ballotin registry 0 environment 5
        readable both
      ≡ some c)
handle_socket_events_ends_example =
    handle_socket_events_ends list_ballotin registry 0 environment tt tt 5 readable both

descriptors_kept_example :
    (held (listen (some 5) pton_done true false [] 80).0
        ++ (listen (some 5) pton_done true false [] 80).1
      ≡ descriptors (some 5))
    × (held (connect (some 5) pton_done connect_in_progress [] 80).0
          ++ (connect (some 5) pton_done connect_in_progress [] 80).1
        ≡ descriptors (some 5))
    × (held_by_accepted (accept (connection 6 false (some []) 4000) listening_socket).0
          ++ (accept (connection 6 false (some []) 4000) listening_socket).1
        ≡ accepted_descriptors (connection 6 false (some []) 4000))
descriptors_kept_example =
    descriptors_kept (some 5) pton_done true false connect_in_progress
      (connection 6 false (some []) 4000) listening_socket [] 80 listening_socket_listens

-- A connection, and another one that was reset.
accept_failed_erases_example :
    (c : SocketContainer Held) × (handle_socket_events list_ballotin registry 0
        (record environment {
          accept = (connection 6 true (some []) 4000, true) ∷ (accept_failed, true) ∷ [];
        })
        5
        readable
        both
      ≡ some c)
    × (find 1 c.sockets ≡ none)
accept_failed_erases_example =
    accept_failed_erases list_ballotin registry 0
      (record environment {
        accept = (connection 6 true (some []) 4000, true) ∷ (accept_failed, true) ∷ [];
      })
      ((connection 6 true (some []) 4000, true) ∷ []) [] true 5 1 readable
      (socket_of 1 0 5 listening) both (refl, tt) refl both_descriptor both_listening refl

read_socket_accepted_example :
    IsReadByListening list_ballotin registry 0 2
      (socket_of 2 1 6 accepted)
      (socket_of 1 0 5 listening)
      both
      (read_by list_ballotin registry 0 (socket_of 2 1 6 accepted) (socket_of 1 0 5 listening) both)
      (read_socket list_ballotin registry 0 2 both)
read_socket_accepted_example =
    read_socket_accepted list_ballotin registry 0 2 (socket_of 2 1 6 accepted)
      (socket_of 1 0 5 listening) both both_accepted both_listening refl refl
