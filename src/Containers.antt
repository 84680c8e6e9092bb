-- ===== src/Containers.antt =====
-- internal/linux/socket_container.hpp and socket_container.cpp: the state of SocketContainer, with
-- insertSocket, getSocketOrThrow and eraseSocket. The pointers of fileDescriptorsToSockets_ into the map
-- of sockets are the identifiers of the sockets; whether the event poll accepts a subscription is an argument.
pub mod Lookup
pub mod Insert
pub mod Operations
pub mod Handlers
pub mod Moves
pub mod Keeping
pub mod Kept
pub mod Refines
pub mod Invariant
pub mod Closing
pub mod Opened
pub mod Reading
pub mod Accepting
pub mod Ending
use farseer.Base.{
  ℕ, Bool, true, false, if◌then◌else◌, ◌==◌, Option, none, some, List, [], ◌∷◌, ◌++◌,
}
use farseer.Base.Outcome.{Outcome, ok, err, logic_error, internal_socket_error}
use farseer.Base.Assoc.{Assoc, find, contains, insert, erase}
use farseer.Reader.{ProtocolReader, Event}
use farseer.Sockets.{LinuxSocket}

pub data SocketEvent : Type 0 where
  server_open server_closed server_aborted client_open client_bytes_received : SocketEvent
  client_bytes_sent client_closed client_aborted : SocketEvent

-- A mask of epoll events.
pub record EpollEvents : Type 0 where
  pub epoll_in : Bool
  pub epoll_out : Bool
  pub epoll_rdhup : Bool
  pub epoll_err : Bool
  pub epoll_et : Bool

-- The calls of the connection callback are kept in the container.
pub record Socket (Any : Type 0) : Type 0 where
  pub socket_identifier : ℕ
  pub listening_socket_identifier : ℕ
  pub socket : LinuxSocket
  pub protocol_reader : ProtocolReader Any
  pub inbound_bytes : List ℕ
  pub outbound_bytes : List ℕ

-- `calls` are those of connectionCallback: the socket whose callback it is, and the arguments; `events`
-- are those of the readers.
pub record SocketContainer (Any : Type 0) : Type 0 where
  pub sockets : Assoc (Socket Any)
  pub file_descriptors_to_sockets : Assoc ℕ
  pub subscriptions : Assoc EpollEvents
  pub calls : List (ℕ × SocketEvent × ℕ)
  pub events : List (Event Any)
  -- The next identifier of a sequencer that is shared with the socket provider.
  pub socket_identifier_sequencer : ℕ

module _ {Any : Type 0} where
  abbrev pub descriptor : Socket Any → ℕ
  descriptor socket = socket.socket.socket

  -- What an exception leaves is taken back by SCOPE_FAILURE, the latest first.
  unfoldable pub insert_socket :
      Bool
      → EpollEvents
      → Socket Any
      → SocketContainer Any
      → Outcome (Socket Any) × SocketContainer Any
  insert_socket subscribes events socket container =
      let identifier = socket.socket_identifier in
      let sockets = insert identifier socket container.sockets in
      let descriptors =
        insert (descriptor socket) identifier container.file_descriptors_to_sockets in
      if contains identifier container.sockets
      then (err logic_error, container)
      else (if contains (descriptor socket) container.file_descriptors_to_sockets
          then (err logic_error, record container { sockets = erase identifier sockets })
          else (if subscribes
              then (
                ok socket,
                record container {
                  sockets = sockets;
                  file_descriptors_to_sockets = descriptors;
                  subscriptions = (descriptor socket, events) ∷ container.subscriptions;
                },
              )
              else (
                err internal_socket_error,
                record container {
                  sockets = erase identifier sockets;
                  file_descriptors_to_sockets = erase (descriptor socket) descriptors;
                },
              )))

  unfoldable pub get_socket_or_throw : ℕ → SocketContainer Any → Outcome (Socket Any)
  get_socket_or_throw identifier container = elim (find identifier container.sockets) [
    | none ↦ err internal_socket_error
    | some socket ↦ ok socket
  ]

-- The identifier that ballotin's TypePrototype has by default.
module _ {Any : Type 0} (invalid_socket_identifier : ℕ) where
  -- An accepted socket is reported to the callback of the socket that listens, if that is still open.
  unfoldable pub close_calls : ℕ → Socket Any → SocketContainer Any → List (ℕ × SocketEvent × ℕ)
  close_calls identifier socket container =
      let listening = socket.listening_socket_identifier in
      if listening == invalid_socket_identifier
      then (identifier, server_closed, identifier) ∷ []
      else (if contains listening container.sockets
          then (listening, client_closed, identifier) ∷ []
          else [])

  unfoldable pub without : ℕ → Socket Any → SocketContainer Any → SocketContainer Any
  without identifier socket container = record container {
    sockets = erase identifier container.sockets;
    file_descriptors_to_sockets = erase (descriptor socket) container.file_descriptors_to_sockets;
    subscriptions = erase (descriptor socket) container.subscriptions;
    calls = container.calls ++ close_calls identifier socket container;
  }

  -- The exceptions of a callback are logged and go no further.
  unfoldable pub erase_socket : ℕ → SocketContainer Any → SocketContainer Any
  erase_socket identifier container = elim (find identifier container.sockets) [
    | none ↦ container
    | some socket ↦ without identifier socket container
  ]
