-- ===== src/Containers/Handlers.antt =====
-- The handlers of events of internal/linux/socket_container.cpp.
use farseer.Base.{
  ℕ, Bool, true, false, if◌then◌else◌, ◌==◌, Option, none, some, List, [], ◌∷◌, ◌++◌,
}
use farseer.Base.Outcome.{Outcome, ok, err, internal_socket_error}
use farseer.Base.Assoc.{find, erase}
use farseer.Wire.Ballotin.{Ballotin}
use farseer.Registry.{ProtocolRegistry}
use farseer.Reader.{ReadState, read_inbound_bytes}
use farseer.Sequencer.{generate}
use farseer.Sockets.{
  LinuxSocket, SocketType, unbound, listening, accepted, connecting, connected, receive_bytes,
  set_connected, is_empty,
}
use farseer.Sockets.Opening.{AcceptResult, accept}
use farseer.Containers.{
  Socket, SocketContainer, client_open, EpollEvents, descriptor, insert_socket, get_socket_or_throw,
  erase_socket,
}
use farseer.Containers.Operations.{
  on_socket, Environment, Handled, readable, ◌>>>◌, modify, set_events, call_back, new_socket, done,
  send_bytes_to,
}

module _ {Any : Type 0} where
  -- Writes through the references that readInboundBytes was given.
  unfoldable pub store_read :
      ℕ → ℕ → Outcome (Unit {0}) × List ℕ × ReadState Any → SocketContainer Any → Handled Any
  unfolding modify
  store_read identifier reading (outcome, inbound_bytes, state) container = (
    outcome,
    modify identifier
        (λ s. record s { inbound_bytes = inbound_bytes; outbound_bytes = state.outbound_bytes })
        (modify reading (λ s. record s { protocol_reader = state.reader })
          (record container { events = state.events })),
  )

  unfoldable pub send_outbound : Environment → ℕ → SocketContainer Any → Handled Any
  unfolding on_socket send_bytes_to modify
  send_outbound environment identifier container = on_socket identifier container λ socket.
      if is_empty socket.outbound_bytes
      then (ok tt, container)
      else (send_bytes_to (environment.send false) (environment.modifies false)
            socket.outbound_bytes identifier container
          >>> λ c. (ok tt, modify identifier (λ s. record s { outbound_bytes = [] }) c))

  unfoldable pub handle_writable : Environment → EpollEvents → ℕ → SocketContainer Any → Handled Any
  unfolding send_bytes_to
  handle_writable environment events identifier container =
      if events.epoll_out
      then send_bytes_to (environment.send true) (environment.modifies true) [] identifier container
      else (ok tt, container)

  unfoldable pub accept_socket :
      Environment → Bool → LinuxSocket → ℕ → SocketContainer Any → Handled Any
  unfolding call_back
  accept_socket environment subscribes socket identifier container =
      let (accepted_identifier, next) = generate container.socket_identifier_sequencer in
      done (
        insert_socket subscribes readable (new_socket accepted_identifier identifier socket)
          (record container { socket_identifier_sequencer = next }))
      >>> call_back environment.callback identifier client_open accepted_identifier

  -- getSocketOrThrow in a handler that may wait for more answers.
  unfoldable pub on_found_socket :
      ℕ → SocketContainer Any → (Socket Any → Option (Handled Any)) → Option (Handled Any)
  on_found_socket identifier container next = elim (get_socket_or_throw identifier container) [
    | err e ↦ some (err e, container)
    | ok socket ↦ next socket
  ]

  unfoldable pub after_accept :
      Outcome (Option LinuxSocket)
      → SocketContainer Any
      → (LinuxSocket → Option (Handled Any))
      → Option (Handled Any)
  after_accept (err e) container next = some (err e, container)
  after_accept (ok none) container next = some (ok tt, container)
  after_accept (ok (some socket)) container next = next socket

  unfoldable pub continue :
      Handled Any → (SocketContainer Any → Option (Handled Any)) → Option (Handled Any)
  continue (err e, container) rest = some (err e, container)
  continue (ok _, container) rest = rest container

  -- `none` is a loop that goes on behind the answers.
  unfoldable pub accept_loop :
      Environment → List (AcceptResult × Bool) → ℕ → SocketContainer Any → Option (Handled Any)
  unfolding on_found_socket after_accept continue accept_socket
  accept_loop environment [] identifier container = none
  accept_loop environment ((answer, subscribes) ∷ answers) identifier container =
      let rest = accept_loop environment answers identifier in
      on_found_socket identifier container λ socket.
        after_accept (accept answer socket.socket).0 container λ accepted_socket.
          continue (accept_socket environment subscribes accepted_socket identifier container) rest

module _ {Any : Type 0} (b : Ballotin) (registry : ProtocolRegistry Any)
    (invalid_socket_identifier : ℕ) where
  -- The socket whose reader reads: for an accepted socket it is the one that listens.
  unfoldable pub reading_identifier : Socket Any → ℕ → ℕ
  reading_identifier socket identifier =
      if socket.listening_socket_identifier == invalid_socket_identifier
      then identifier
      else socket.listening_socket_identifier

  unfoldable pub read_socket : ℕ → SocketContainer Any → Handled Any
  unfolding on_socket reading_identifier store_read
  read_socket identifier container = on_socket identifier container λ socket.
      let reading = reading_identifier socket identifier in
      on_socket reading container λ reading_socket.
        store_read identifier reading
          (read_inbound_bytes b registry socket.inbound_bytes (record {
            reader = reading_socket.protocol_reader;
            outbound_bytes = socket.outbound_bytes;
            events = container.events;
          }))
          container

  -- Behind receiveBytes, with the bytes and whether the other end closed the connection.
  unfoldable pub handle_received :
      Environment → EpollEvents → List ℕ → Bool → ℕ → SocketContainer Any → Handled Any
  unfolding read_socket send_outbound handle_writable modify erase_socket
  handle_received environment events bytes closed identifier container =
      read_socket identifier
        (modify identifier (λ s. record s { inbound_bytes = s.inbound_bytes ++ bytes }) container)
      >>> send_outbound environment identifier
      >>> λ c.
          if closed
          then (ok tt, erase_socket invalid_socket_identifier identifier c)
          else handle_writable environment events identifier c

  unfoldable pub after_receive :
      Environment
      → EpollEvents
      → ℕ
      → SocketContainer Any
      → Option (Outcome (List ℕ × Bool))
      → Option (Handled Any)
  unfolding handle_received
  after_receive environment events identifier container none = none
  after_receive environment events identifier container (some (err e)) = some (err e, container)
  after_receive environment events identifier container (some (ok (bytes, closed))) =
      some (handle_received environment events bytes closed identifier container)

  -- `none` is a loop of receiveBytes that goes on behind the answers.
  unfoldable pub handle_connected_socket_events :
      Environment → EpollEvents → ℕ → SocketContainer Any → Option (Handled Any)
  unfolding on_found_socket after_receive handle_writable
  handle_connected_socket_events environment events identifier container =
      if events.epoll_in
      then (on_found_socket identifier container λ socket.
          after_receive environment events identifier container
            (receive_bytes environment.receive socket.socket))
      else some (handle_writable environment events identifier container)

  unfoldable pub handle_connecting_socket_events :
      Environment → ℕ → SocketContainer Any → Handled Any
  unfolding on_socket set_events modify call_back
  handle_connecting_socket_events environment identifier container =
      on_socket identifier container λ socket.
        set_events (environment.modifies false) (descriptor socket) readable container >>> λ c.
        call_back environment.callback identifier client_open invalid_socket_identifier
          (modify identifier (λ s. record s { socket = set_connected s.socket }) c)

  unfoldable pub handle_by_type :
      SocketType → Environment → EpollEvents → ℕ → SocketContainer Any → Option (Handled Any)
  unfolding handle_connected_socket_events accept_loop handle_connecting_socket_events
  handle_by_type accepted environment events = handle_connected_socket_events environment events
  handle_by_type connected environment events = handle_connected_socket_events environment events
  handle_by_type listening environment events = accept_loop environment environment.accept
  handle_by_type connecting environment events = λ identifier container.
      some (handle_connecting_socket_events environment identifier container)
  handle_by_type unbound environment events =
      λ identifier container. some (err internal_socket_error, container)

  unfoldable pub handle_socket_events_work :
      Environment → EpollEvents → ℕ → SocketContainer Any → Option (Handled Any)
  unfolding on_found_socket handle_by_type erase_socket
  handle_socket_events_work environment events identifier container =
      if events.epoll_rdhup
      then some (ok tt, erase_socket invalid_socket_identifier identifier container)
      else (if events.epoll_err
          then some (ok tt, erase_socket invalid_socket_identifier identifier container)
          else on_found_socket identifier container λ socket.
            handle_by_type socket.socket.socket_type environment events identifier container)

  -- An exception is logged and erases the socket.
  unfoldable pub end_events : ℕ → Handled Any → SocketContainer Any
  unfolding erase_socket
  end_events identifier (ok _, container) = container
  end_events identifier (err e, container) =
      erase_socket invalid_socket_identifier identifier container

  unfoldable pub handle_socket_events :
      Environment → ℕ → EpollEvents → SocketContainer Any → Option (SocketContainer Any)
  unfolding handle_socket_events_work end_events
  handle_socket_events environment file_descriptor events container =
      elim (find file_descriptor container.file_descriptors_to_sockets) [
        | none ↦
            some
              (record container { subscriptions = erase file_descriptor container.subscriptions })
        | some identifier ↦
            elim (handle_socket_events_work environment events identifier container) [
              | none ↦ none
              | some handled ↦ some (end_events identifier handled)
            ]
      ]
