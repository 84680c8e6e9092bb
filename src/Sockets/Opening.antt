-- ===== src/Sockets/Opening.antt =====
-- listen, connect and accept of internal/linux/linux_socket.cpp. The answers of the system calls are
-- arguments; beside the socket stand the file descriptors that were closed behind an exception
-- (SCOPE_FAILURE).
use farseer.Base.{
  ℕ, ◌≡◌, refl, Bool, true, false, Option, none, some, List, [], ◌∷◌, ◌++◌, if◌then◌else◌,
}
use farseer.Base.Chars.{Chars}
use farseer.Base.Outcome.{Outcome, ok, err, internal_socket_error}
use farseer.Sockets.{LinuxSocket, SocketType, unbound, listening, accepted, connecting, connected}

-- What ::inet_pton answers.
pub data PtonResult : Type 0 where
  pton_done pton_invalid pton_failed : PtonResult

-- What ::connect answers: EINPROGRESS is no failure.
pub data ConnectResult : Type 0 where
  connect_done connect_in_progress connect_failed : ConnectResult

-- What ::accept4 answers: a file descriptor, whether the size of the address is that of the buffer,
-- its text if ::inet_ntop gives one, and the port; or EAGAIN or EWOULDBLOCK, or another error.
pub data AcceptResult : Type 0 where
  connection : ℕ → Bool → Option Chars → ℕ → AcceptResult
  accept_would_block accept_failed : AcceptResult

abbrev pub Opened : Type 0 → Type 0
Opened A = Outcome A × List ℕ

abbrev open_socket : Chars → ℕ → ℕ → SocketType → LinuxSocket
open_socket ip_address port socket socket_type = record {
  outgoing_buffer = [];
  ip_address = ip_address;
  port = port;
  socket = socket;
  socket_type = socket_type;
}

abbrev close_and_throw : {A : Type 0} → ℕ → Opened A
close_and_throw socket = (err internal_socket_error, socket ∷ [])

-- `created` is the answer of ::socket.
unfoldable pub listen : Option ℕ → PtonResult → Bool → Bool → Chars → ℕ → Opened LinuxSocket
listen none pton bound listens ip_address port = (err internal_socket_error, [])
listen (some socket) pton_invalid bound listens ip_address port = close_and_throw socket
listen (some socket) pton_failed bound listens ip_address port = close_and_throw socket
listen (some socket) pton_done bound listens ip_address port =
    if bound
    then (if listens
        then (ok (open_socket ip_address port socket listening), [])
        else close_and_throw socket)
    else close_and_throw socket

unfoldable pub connect : Option ℕ → PtonResult → ConnectResult → Chars → ℕ → Opened LinuxSocket
connect none pton connects ip_address port = (err internal_socket_error, [])
connect (some socket) pton_invalid connects ip_address port = close_and_throw socket
connect (some socket) pton_failed connects ip_address port = close_and_throw socket
connect (some socket) pton_done connect_failed ip_address port = close_and_throw socket
connect (some socket) pton_done connect_done ip_address port =
    (ok (open_socket ip_address port socket connecting), [])
connect (some socket) pton_done connect_in_progress ip_address port =
    (ok (open_socket ip_address port socket connecting), [])

unfoldable pub accept_connection : AcceptResult → Opened (Option LinuxSocket)
accept_connection accept_would_block = (ok none, [])
accept_connection accept_failed = (err internal_socket_error, [])
accept_connection (connection socket fits none port) = close_and_throw socket
accept_connection (connection socket fits (some ip_address) port) =
    if fits
    then (ok (some (open_socket ip_address port socket accepted)), [])
    else close_and_throw socket

unfoldable pub is_listening : SocketType → Bool
is_listening listening = true
is_listening unbound = false
is_listening accepted = false
is_listening connecting = false
is_listening connected = false

-- ::accept4 is not called where the socket does not listen.
unfoldable pub accept : AcceptResult → LinuxSocket → Opened (Option LinuxSocket)
unfolding accept_connection is_listening
accept answer s =
    if is_listening s.socket_type then accept_connection answer else (err internal_socket_error, [])

-- The file descriptors that a system call opened.
abbrev pub descriptors : Option ℕ → List ℕ
descriptors none = []
descriptors (some socket) = socket ∷ []

abbrev pub accepted_descriptors : AcceptResult → List ℕ
accepted_descriptors (connection socket fits ip_address port) = socket ∷ []
accepted_descriptors accept_would_block = []
accepted_descriptors accept_failed = []

-- The file descriptors that a socket, if there is one, will close in its destructor.
abbrev pub held : Outcome LinuxSocket → List ℕ
held (ok s) = s.socket ∷ []
held (err e) = []

abbrev pub held_by_accepted : Outcome (Option LinuxSocket) → List ℕ
held_by_accepted (ok (some s)) = s.socket ∷ []
held_by_accepted (ok none) = []
held_by_accepted (err e) = []

listen_kept :
    (created : Option ℕ) (pton : PtonResult) (bound listens : Bool) (ip_address : Chars) (port : ℕ)
    → held (listen created pton bound listens ip_address port).0
        ++ (listen created pton bound listens ip_address port).1
      ≡ descriptors created
unfolding listen
listen_kept none pton bound listens ip_address port = refl
listen_kept (some socket) pton_invalid bound listens ip_address port = refl
listen_kept (some socket) pton_failed bound listens ip_address port = refl
listen_kept (some socket) pton_done false listens ip_address port = refl
listen_kept (some socket) pton_done true false ip_address port = refl
listen_kept (some socket) pton_done true true ip_address port = refl

connect_kept :
    (created : Option ℕ) (pton : PtonResult) (connects : ConnectResult) (ip_address : Chars)
    (port : ℕ)
    → held (connect created pton connects ip_address port).0
        ++ (connect created pton connects ip_address port).1
      ≡ descriptors created
unfolding connect
connect_kept none pton connects ip_address port = refl
connect_kept (some socket) pton_invalid connects ip_address port = refl
connect_kept (some socket) pton_failed connects ip_address port = refl
connect_kept (some socket) pton_done connect_failed ip_address port = refl
connect_kept (some socket) pton_done connect_done ip_address port = refl
connect_kept (some socket) pton_done connect_in_progress ip_address port = refl

accept_connection_kept :
    (answer : AcceptResult)
    → held_by_accepted (accept_connection answer).0 ++ (accept_connection answer).1
      ≡ accepted_descriptors answer
unfolding accept_connection
accept_connection_kept accept_would_block = refl
accept_connection_kept accept_failed = refl
accept_connection_kept (connection socket fits none port) = refl
accept_connection_kept (connection socket true (some ip_address) port) = refl
accept_connection_kept (connection socket false (some ip_address) port) = refl

accept_kept :
    (answer : AcceptResult) (s : LinuxSocket)
    → is_listening s.socket_type ≡ true
    → held_by_accepted (accept answer s).0 ++ (accept answer s).1 ≡ accepted_descriptors answer
unfolding accept
accept_kept answer s h = rw h (accept_connection_kept answer)

-- Whatever the system calls answer, each file descriptor that ::socket opened for listen or connect is
-- held by the socket that is returned, or was closed, and not both; so is one that ::accept4 opened
-- for a socket that listens.
pub descriptors_kept :
    (created : Option ℕ) (pton : PtonResult) (bound listens : Bool) (connects : ConnectResult)
    (answer : AcceptResult) (s : LinuxSocket) (ip_address : Chars) (port : ℕ)
    → is_listening s.socket_type ≡ true
    → (held (listen created pton bound listens ip_address port).0
          ++ (listen created pton bound listens ip_address port).1
        ≡ descriptors created)
      × (held (connect created pton connects ip_address port).0
            ++ (connect created pton connects ip_address port).1
          ≡ descriptors created)
      × (held_by_accepted (accept answer s).0 ++ (accept answer s).1 ≡ accepted_descriptors answer)
descriptors_kept created pton bound listens connects answer s ip_address port h = (
  listen_kept created pton bound listens ip_address port,
  connect_kept created pton connects ip_address port,
  accept_kept answer s h,
)
