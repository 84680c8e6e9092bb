-- ===== src/Sockets.antt =====
-- internal/linux/linux_socket.hpp and internal/linux/linux_socket.cpp: the buffers of a socket. The
-- answers of the system calls are arguments.
pub mod Opening
pub mod Sending
pub mod Receiving
pub mod Transport
use farseer.Base.{
  ℕ, Bool, true, false, if◌then◌else◌, ◌==◌, Option, none, some, List, [], ◌∷◌, ◌++◌, length, drop,
}
use farseer.Base.Outcome.{Outcome, ok, err, internal_socket_error}
use farseer.Base.Chars.{Chars}

pub data SocketType : Type 0 where
  unbound listening accepted connecting connected : SocketType

pub record LinuxSocket : Type 0 where
  pub outgoing_buffer : List ℕ
  pub ip_address : Chars
  pub port : ℕ
  pub socket : ℕ
  pub socket_type : SocketType

-- What ::send answers: a number of bytes, EAGAIN or EWOULDBLOCK, or another error.
pub data SendResult : Type 0 where
  sent : ℕ → SendResult
  send_would_block send_failed : SendResult

-- What ::recv answers: bytes, zero bytes where the other end closed, EAGAIN or EWOULDBLOCK, or
-- another error.
pub data ReceiveResult : Type 0 where
  received : List ℕ → ReceiveResult
  receive_closed receive_would_block receive_failed : ReceiveResult

unfoldable pub can_transfer : SocketType → Bool
can_transfer accepted = true
can_transfer connected = true
can_transfer unbound = false
can_transfer listening = false
can_transfer connecting = false

unfoldable pub is_empty : List ℕ → Bool
is_empty [] = true
is_empty (b ∷ bs) = false

unfoldable pub set_connected : LinuxSocket → LinuxSocket
set_connected s = record s { socket_type = connected }

module _ (send : List ℕ → SendResult) where
  -- Behind the insertion into the buffer, where the buffer is not empty.
  unfoldable pub send_buffer : LinuxSocket → Outcome Bool × LinuxSocket
  send_buffer s = elim (send s.outgoing_buffer) [
    | send_would_block ↦ (ok false, s)
    | send_failed ↦ (err internal_socket_error, s)
    | sent n ↦ (
      ok (n == length s.outgoing_buffer),
      record s { outgoing_buffer = drop n s.outgoing_buffer },
    )
  ]

  -- `true` says that the buffer is exhausted.
  unfoldable pub send_bytes : List ℕ → LinuxSocket → Outcome Bool × LinuxSocket
  unfolding can_transfer is_empty send_buffer
  send_bytes bytes s =
      if can_transfer s.socket_type
      then (let s' = record s { outgoing_buffer = s.outgoing_buffer ++ bytes } in
          if is_empty s'.outgoing_buffer then (ok true, s') else send_buffer s')
      else (err internal_socket_error, s)

-- The loop over the answers of ::recv; `none` is a loop that goes on behind them.
unfoldable pub receive_loop : List ReceiveResult → List ℕ → Option (Outcome (List ℕ × Bool))
receive_loop [] result = none
receive_loop (received bytes ∷ answers) result = receive_loop answers (result ++ bytes)
receive_loop (receive_closed ∷ answers) result = some (ok (result, true))
receive_loop (receive_would_block ∷ answers) result = some (ok (result, false))
receive_loop (receive_failed ∷ answers) result = some (err internal_socket_error)

-- The bytes, and whether the other end closed the connection.
unfoldable pub receive_bytes : List ReceiveResult → LinuxSocket → Option (Outcome (List ℕ × Bool))
unfolding can_transfer receive_loop
receive_bytes answers s =
    if can_transfer s.socket_type then receive_loop answers [] else some (err internal_socket_error)
