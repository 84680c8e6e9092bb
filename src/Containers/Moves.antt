-- ===== src/Containers/Moves.antt =====
-- What a container of internal/linux/socket_container.cpp goes through, in four kinds of moves.
use farseer.Base.{ℕ, suc, zero, ◌≡◌, Bool, true, false, Option, none, some, List, [], ◌∷◌, ◌++◌}
use farseer.Base.Assoc.{find, contains}
use farseer.Sequencer.{generate}
use farseer.Sockets.{LinuxSocket}
use farseer.Containers.{
  Socket, SocketContainer, SocketEvent, server_closed, client_closed, server_open, server_aborted,
  client_open, client_bytes_received, client_bytes_sent, client_aborted, descriptor, insert_socket,
  erase_socket,
}
use farseer.Containers.Operations.{new_socket, readable}

abbrev pub is_closing : SocketEvent → Bool
is_closing server_closed = true
is_closing client_closed = true
is_closing server_open = false
is_closing server_aborted = false
is_closing client_open = false
is_closing client_bytes_received = false
is_closing client_bytes_sent = false
is_closing client_aborted = false

abbrev pub AllOpen : List (ℕ × SocketEvent × ℕ) → Type 0
AllOpen [] = Unit
AllOpen ((i, event, about) ∷ calls) = (is_closing event ≡ false) × AllOpen calls

module _ {Any : Type 0} where
  abbrev pub identity : Option (Socket Any) → Option (ℕ × ℕ × ℕ)
  identity none = none
  identity (some s) = some (s.socket_identifier, s.listening_socket_identifier, descriptor s)

  -- The sockets, their identifiers and their file descriptors stay, and no call reports a close.
  pub record Keeps (c c' : SocketContainer Any) : Type 0 where
    pub sockets_kept : (i : ℕ) → identity (find i c'.sockets) ≡ identity (find i c.sockets)
    pub descriptors_kept : c'.file_descriptors_to_sockets ≡ c.file_descriptors_to_sockets
    pub subscriptions_kept : (d : ℕ) → contains d c'.subscriptions ≡ contains d c.subscriptions
    pub new_calls : List (ℕ × SocketEvent × ℕ)
    pub calls_kept : c'.calls ≡ c.calls ++ new_calls
    pub closes : AllOpen new_calls
    pub sequencer_kept : c'.socket_identifier_sequencer ≡ c.socket_identifier_sequencer

  abbrev pub accepted_container : Bool → LinuxSocket → ℕ → SocketContainer Any → SocketContainer Any
  accepted_container subscribes socket listening c =
      (insert_socket subscribes readable
        (new_socket (generate c.socket_identifier_sequencer).0 listening socket)
        (record c { socket_identifier_sequencer = (generate c.socket_identifier_sequencer).1 })).1

  -- `Moves c n c'`: from `c` to `c'`, with `n` identifiers taken for sockets that were accepted.
  pub data Moves (invalid : ℕ) (c : SocketContainer Any) : ℕ → SocketContainer Any → Type 0 where
    stays : Moves invalid c zero c
    keeps :
        {n : ℕ} {d e : SocketContainer Any} → Moves invalid c n d → Keeps d e → Moves invalid c n e
    accepts :
        {n : ℕ} {d : SocketContainer Any} (subscribes : Bool) (socket : LinuxSocket) (listening : ℕ)
        → Moves invalid c n d
        → Moves invalid c (suc n) (accepted_container subscribes socket listening d)
    erases :
        {n : ℕ} {d : SocketContainer Any} (identifier : ℕ)
        → Moves invalid c n d
        → Moves invalid c n (erase_socket invalid identifier d)
