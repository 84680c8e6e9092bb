-- ===== src/Containers/Ending.antt =====
-- That the handlers of internal/linux/socket_container.cpp end.
use farseer.Base.{
  none-ne-some, ◌⊎◌, ℕ, ◌≡◌, refl, Bool, true, false, Option, none, some, List, [], ◌∷◌, ◌++◌,
  if◌then◌else◌, arith, Option-cases, Bool-cases, inl, inr,
}
use farseer.Base.Outcome.{Outcome, ok, err, internal_socket_error}
use farseer.Base.Assoc.{find}
use farseer.Wire.Ballotin.{Ballotin}
use farseer.Registry.{ProtocolRegistry}
use farseer.Sockets.{
  can_transfer, LinuxSocket, SocketType, unbound, listening, accepted, connecting, connected,
  ReceiveResult, received, receive_closed, receive_would_block, receive_failed, receive_loop,
  receive_bytes,
}
use farseer.Sockets.Opening.{
  AcceptResult, connection, accept_would_block, accept_failed, accept, accept_connection,
}
use farseer.Containers.{Socket, SocketContainer, EpollEvents, get_socket_or_throw}
use farseer.Containers.Operations.{Environment, Handled}
use farseer.Containers.Handlers.{
  on_found_socket, after_accept, continue, after_receive, accept_socket, accept_loop,
  handle_connected_socket_events, handle_by_type, handle_socket_events_work, handle_socket_events,
}
use farseer.Containers.Accepting.{accept-failed}
use farseer.Containers.Reading.{}

-- The kernel says at some time that there are no more bytes, or that the connection is gone.
abbrev pub ReceiveEnds : List ReceiveResult → Type 0
ReceiveEnds [] = ⊥
ReceiveEnds (received bytes ∷ answers) = ReceiveEnds answers
ReceiveEnds (receive_closed ∷ answers) = Unit
ReceiveEnds (receive_would_block ∷ answers) = Unit
ReceiveEnds (receive_failed ∷ answers) = Unit

-- It says at some time that there are no more connections.
abbrev pub AcceptEnds : List (AcceptResult × Bool) → Type 0
AcceptEnds [] = ⊥
AcceptEnds ((connection socket fits ip_address port, subscribes) ∷ answers) = AcceptEnds answers
AcceptEnds ((accept_would_block, subscribes) ∷ answers) = Unit
AcceptEnds ((accept_failed, subscribes) ∷ answers) = Unit

abbrev Returns : {A : Type 0} → Option A → Type 0
Returns {A} o = (a : A) × (o ≡ some a)

receive_loop_ends :
    (answers : List ReceiveResult) (result : List ℕ)
    → ReceiveEnds answers
    → Returns (receive_loop answers result)
unfolding receive_loop
receive_loop_ends [] result h = elim h [ ]
receive_loop_ends (received bytes ∷ answers) result h =
    receive_loop_ends answers (result ++ bytes) h
receive_loop_ends (receive_closed ∷ answers) result h = (_, refl)
receive_loop_ends (receive_would_block ∷ answers) result h = (_, refl)
receive_loop_ends (receive_failed ∷ answers) result h = (_, refl)

receive_bytes_ends :
    (answers : List ReceiveResult) (s : LinuxSocket)
    → ReceiveEnds answers
    → Returns (receive_bytes answers s)
unfolding receive_bytes
receive_bytes_ends answers s h = elim (Bool-cases (can_transfer s.socket_type)) [
  | inl e ↦ rw e (receive_loop_ends answers [] h)
  | inr e ↦ rw e (_, refl)
]

accept_would_block_ends :
    (s : LinuxSocket)
    → ((accept accept_would_block s).0 ≡ ok none)
      ⊎ ((accept accept_would_block s).0 ≡ err internal_socket_error)
unfolding accept accept_connection
accept_would_block_ends s = ground arith

module _ {Any : Type 0} where
  if_ends :
      (test : Bool) (x y : Option (Handled Any))
      → Returns x
      → Returns y
      → Returns (if test then x else y)
  if_ends true x y p q = p
  if_ends false x y p q = q

  on_found_socket_ends :
      (i : ℕ) (c : SocketContainer Any) (next : Socket Any → Option (Handled Any))
      → ((s : Socket Any) → Returns (next s))
      → Returns (on_found_socket i c next)
  unfolding on_found_socket get_socket_or_throw
  on_found_socket_ends i c next ends = elim (Option-cases (find i c.sockets)) [
    | inl e ↦ rw (e, get_socket_or_throw, on_found_socket) (_, refl)
    | inr (s, e) ↦ rw (e, get_socket_or_throw, on_found_socket) (ends s)
  ]

  after_accept_ends :
      (r : Outcome (Option LinuxSocket)) (c : SocketContainer Any)
      (next : LinuxSocket → Option (Handled Any))
      → ((s : LinuxSocket) → Returns (next s))
      → Returns (after_accept r c next)
  unfolding after_accept
  after_accept_ends (err e) c next ends = (_, refl)
  after_accept_ends (ok none) c next ends = (_, refl)
  after_accept_ends (ok (some s)) c next ends = ends s

  continue_ends :
      (h : Handled Any) (rest : SocketContainer Any → Option (Handled Any))
      → ((c : SocketContainer Any) → Returns (rest c))
      → Returns (continue h rest)
  unfolding continue
  continue_ends (err e, c) rest ends = (_, refl)
  continue_ends (ok _, c) rest ends = ends c

  accept_loop_ends :
      (environment : Environment) (answers : List (AcceptResult × Bool)) (i : ℕ)
      → AcceptEnds answers
      → (c : SocketContainer Any) → Returns (accept_loop environment answers i c)
  unfolding accept_loop after_accept
  accept_loop_ends environment [] i h c = elim h [ ]
  accept_loop_ends environment ((connection socket fits ip_address port, subscribes) ∷ answers) i h
        c =
      on_found_socket_ends i c _ λ s.
        after_accept_ends (accept (connection socket fits ip_address port) s.socket).0 c _ λ l.
          continue_ends (accept_socket environment subscribes l i c)
            (accept_loop environment answers i) (accept_loop_ends environment answers i h)
  accept_loop_ends environment ((accept_would_block, subscribes) ∷ answers) i h c =
      on_found_socket_ends i c _ λ s. elim (accept_would_block_ends s.socket) [
        | inl e ↦ rw e (_, refl)
        | inr e ↦ rw e (_, refl)
      ]
  accept_loop_ends environment ((accept_failed, subscribes) ∷ answers) i h c =
      on_found_socket_ends i c _ λ s. rw (accept-failed s.socket) (_, refl)

  module _ (b : Ballotin) (registry : ProtocolRegistry Any) (invalid : ℕ) where
    after_receive_ends :
        (environment : Environment) (events : EpollEvents) (i : ℕ) (c : SocketContainer Any)
        (o : Option (Outcome (List ℕ × Bool)))
        → Returns o
        → Returns (after_receive b registry invalid environment events i c o)
    unfolding after_receive
    after_receive_ends environment events i c none (r, e) = absurd (none-ne-some e)
    after_receive_ends environment events i c (some (err x)) r = (_, refl)
    after_receive_ends environment events i c (some (ok (bytes, closed))) r = (_, refl)

    module _ (environment : Environment) (receive_ends : ReceiveEnds environment.receive)
        (accept_ends : AcceptEnds environment.accept) where
      handle_connected_ends :
          (events : EpollEvents) (i : ℕ) (c : SocketContainer Any)
          → Returns (handle_connected_socket_events b registry invalid environment events i c)
      unfolding handle_connected_socket_events
      handle_connected_ends events i c = elim (Bool-cases events.epoll_in) [
        | inl e ↦ rw e (
            on_found_socket_ends i c _ λ s.
              after_receive_ends environment events i c (receive_bytes environment.receive s.socket)
                (receive_bytes_ends environment.receive s.socket receive_ends))
        | inr e ↦ rw e (_, refl)
      ]

      handle_by_type_ends :
          (type : SocketType) (events : EpollEvents) (i : ℕ) (c : SocketContainer Any)
          → Returns (handle_by_type b registry invalid type environment events i c)
      unfolding handle_by_type
      handle_by_type_ends accepted events i c = handle_connected_ends events i c
      handle_by_type_ends connected events i c = handle_connected_ends events i c
      handle_by_type_ends listening events i c =
          accept_loop_ends environment environment.accept i accept_ends c
      handle_by_type_ends connecting events i c = (_, refl)
      handle_by_type_ends unbound events i c = (_, refl)

      work_ends :
          (events : EpollEvents) (i : ℕ) (c : SocketContainer Any)
          → Returns (handle_socket_events_work b registry invalid environment events i c)
      unfolding handle_socket_events_work
      work_ends events i c =
          if_ends events.epoll_rdhup _ _ (_, refl)
            (if_ends events.epoll_err _ _ (_, refl)
              (on_found_socket_ends i c _ λ s. handle_by_type_ends s.socket.socket_type events i c))

      -- Events of any file descriptor are handled to the end, in any container, where ::recv and
      -- ::accept4 answer at some time that there is no more.
      pub handle_socket_events_ends :
          (d : ℕ) (events : EpollEvents) (c : SocketContainer Any)
          → (c' : SocketContainer Any) × (handle_socket_events b registry invalid environment d
                events c
              ≡ some c')
      unfolding handle_socket_events
      handle_socket_events_ends d events c =
          elim (Option-cases (find d c.file_descriptors_to_sockets)) [
            | inl e ↦ rw (e, handle_socket_events) (_, refl)
            | inr (i, e) ↦
                let (h, f) = work_ends events i c in rw (e, f, handle_socket_events) (_, refl)
          ]
