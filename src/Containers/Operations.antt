-- ===== src/Containers/Operations.antt =====
-- The operations of internal/linux/socket_container.cpp that tasks call. A reference to a socket is its
-- identifier, so a write through it is `modify`; the answers of the system calls and of
-- the connection callbacks that one event leads to are an Environment.
use farseer.Base.{ℕ, Bool, true, false, if◌then◌else◌, none, some, List, [], ◌∷◌, ◌++◌}
use farseer.Base.Outcome.{Outcome, ok, err, internal_socket_error}
use farseer.Base.Assoc.{find, assign}
use farseer.Registry.{ProtocolRegistry}
use farseer.Reader.{
  ProtocolReader, Consumer, register_inbound_message_consumer, register_inbound_request_consumer,
  register_inbound_one_shot_response_consumer,
}
use farseer.Sockets.{LinuxSocket, SendResult, ReceiveResult, send_bytes}
use farseer.Sockets.Opening.{AcceptResult}
use farseer.Containers.{
  Socket, SocketContainer, SocketEvent, server_open, EpollEvents, descriptor, insert_socket,
  get_socket_or_throw,
}

-- `send` and `modifies` answer the first and the second call of ::send and of epoll_ctl(EPOLL_CTL_MOD);
-- an answer of `accept` stands beside the answer of epoll_ctl(EPOLL_CTL_ADD).
pub record Environment : Type 0 where
  pub send : Bool → List ℕ → SendResult
  pub modifies : Bool → Bool
  pub receive : List ReceiveResult
  pub accept : List (AcceptResult × Bool)
  pub callback : ℕ → SocketEvent → ℕ → Outcome (Unit {0})

abbrev pub Handled : Type 0 → Type 0
Handled Any = Outcome (Unit {0}) × SocketContainer Any

abbrev pub readable : EpollEvents
readable = record {
  epoll_in = true;
  epoll_out = false;
  epoll_rdhup = false;
  epoll_err = false;
  epoll_et = true;
}

abbrev pub writable : EpollEvents
writable = record {
  epoll_in = false;
  epoll_out = true;
  epoll_rdhup = false;
  epoll_err = false;
  epoll_et = true;
}

abbrev pub readable_and_writable : EpollEvents
readable_and_writable = record {
  epoll_in = true;
  epoll_out = true;
  epoll_rdhup = false;
  epoll_err = false;
  epoll_et = true;
}

infixl 5 ◌>>>◌
-- The next step, unless an exception was thrown.
abbrev pub ◌>>>◌ : {Any : Type 0} → Handled Any → (SocketContainer Any → Handled Any) → Handled Any
(ok _, container) >>> next = next container
(err e, container) >>> next = (err e, container)

module _ {Any : Type 0} where
  unfoldable pub modify : ℕ → (Socket Any → Socket Any) → SocketContainer Any → SocketContainer Any
  modify identifier f container = elim (find identifier container.sockets) [
    | none ↦ container
    | some socket ↦ record container { sockets = assign identifier (f socket) container.sockets }
  ]

  -- EventPoll::setEvents
  unfoldable pub set_events : Bool → ℕ → EpollEvents → SocketContainer Any → Handled Any
  set_events modifies file_descriptor events container =
      if modifies
      then (
        ok tt,
        record container { subscriptions = assign file_descriptor events container.subscriptions },
      )
      else (err internal_socket_error, container)

  unfoldable pub call_back :
      (ℕ → SocketEvent → ℕ → Outcome (Unit {0}))
      → ℕ
      → SocketEvent
      → ℕ
      → SocketContainer Any
      → Handled Any
  call_back callback identifier event about container = (
    callback identifier event about,
    record container { calls = container.calls ++ (identifier, event, about) ∷ [] },
  )

  abbrev pub new_socket : ℕ → ℕ → LinuxSocket → Socket Any
  new_socket identifier listening_identifier socket = record {
    socket_identifier = identifier;
    listening_socket_identifier = listening_identifier;
    socket = socket;
    protocol_reader = record {
      inbound_message_consumers = [];
      inbound_request_consumers = [];
      inbound_one_shot_response_consumers = [];
    };
    inbound_bytes = [];
    outbound_bytes = [];
  }

  abbrev pub done : Outcome (Socket Any) × SocketContainer Any → Handled Any
  done (ok _, container) = (ok tt, container)
  done (err e, container) = (err e, container)

module _ {Any : Type 0} (invalid_socket_identifier : ℕ) where
  -- `opened` is what LinuxSocket::listen gives.
  unfoldable pub listen :
      Outcome LinuxSocket
      → Bool
      → (ℕ → SocketEvent → ℕ → Outcome (Unit {0}))
      → ℕ
      → SocketContainer Any
      → Handled Any
  listen (err e) subscribes callback identifier container = (err e, container)
  listen (ok socket) subscribes callback identifier container =
      done (
        insert_socket subscribes readable (new_socket identifier invalid_socket_identifier socket)
          container)
      >>> call_back callback identifier server_open identifier

  unfoldable pub connect : Outcome LinuxSocket → Bool → ℕ → SocketContainer Any → Handled Any
  connect (err e) subscribes identifier container = (err e, container)
  connect (ok socket) subscribes identifier container = done (
      insert_socket subscribes writable (new_socket identifier invalid_socket_identifier socket)
        container)

module _ {Any : Type 0} where
  -- getSocketOrThrow and what is done with the socket.
  unfoldable pub on_socket : ℕ → SocketContainer Any → (Socket Any → Handled Any) → Handled Any
  on_socket identifier container next = elim (get_socket_or_throw identifier container) [
    | err e ↦ (err e, container)
    | ok socket ↦ next socket
  ]

  unfoldable pub store_reader : ℕ → SocketContainer Any → Outcome (ProtocolReader Any) → Handled Any
  unfolding modify
  store_reader identifier container (err e) = (err e, container)
  store_reader identifier container (ok reader) =
      (ok tt, modify identifier (λ s. record s { protocol_reader = reader }) container)

  -- A registration with the reader of a socket.
  unfoldable pub register_consumer :
      (ProtocolReader Any → Outcome (ProtocolReader Any)) → ℕ → SocketContainer Any → Handled Any
  unfolding on_socket store_reader
  register_consumer registration identifier container =
      on_socket identifier container
        λ socket. store_reader identifier container (registration socket.protocol_reader)

  unfoldable pub register_message_consumer :
      ProtocolRegistry Any → ℕ → ℕ → Consumer Any → SocketContainer Any → Handled Any
  unfolding register_consumer
  register_message_consumer registry identifier protocol_identifier consumer =
      register_consumer (register_inbound_message_consumer registry protocol_identifier consumer)
        identifier

  unfoldable pub register_request_callback :
      ProtocolRegistry Any → ℕ → ℕ → (Any → Any) → SocketContainer Any → Handled Any
  unfolding register_consumer
  register_request_callback registry identifier protocol_identifier consumer =
      register_consumer (register_inbound_request_consumer registry protocol_identifier consumer)
        identifier

  -- Behind LinuxSocket::sendBytes, which says whether the bytes are exhausted.
  unfoldable pub after_send : Bool → ℕ → Outcome Bool → SocketContainer Any → Handled Any
  unfolding set_events
  after_send modifies file_descriptor (err e) container = (err e, container)
  after_send modifies file_descriptor (ok exhausted) container =
      set_events modifies file_descriptor (if exhausted then readable else readable_and_writable)
        container

  -- Both overloads of sendBytes.
  unfoldable pub send_bytes_to :
      (List ℕ → SendResult) → Bool → List ℕ → ℕ → SocketContainer Any → Handled Any
  unfolding on_socket modify after_send
  send_bytes_to send modifies bytes identifier container = on_socket identifier container λ socket.
      let (sent, linux_socket) = send_bytes send bytes socket.socket in
      after_send modifies (descriptor socket) sent
        (modify identifier (λ s. record s { socket = linux_socket }) container)

  unfoldable pub send_request :
      (List ℕ → SendResult)
      → Bool
      → ℕ
      → List ℕ
      → Consumer Any
      → ℕ
      → SocketContainer Any
      → Handled Any
  unfolding register_consumer send_bytes_to
  send_request send modifies sequence_number bytes consumer identifier container =
      register_consumer (register_inbound_one_shot_response_consumer sequence_number consumer)
        identifier container
      >>> send_bytes_to send modifies bytes identifier
