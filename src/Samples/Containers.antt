-- ===== src/Samples/Containers.antt =====
-- A server with a socket that listens and one that it accepted.
use farseer.Base.{false, ◌≡◌, refl, true, some, none-ne-some, [], ◌∷◌, ℕ, ◌⊎◌, if◌then◌else◌, ◌==◌}
use farseer.Base.Outcome.{Error, ok, err}
use farseer.Base.Assoc.{find, contains, insert, erase}
use farseer.Reader.{ProtocolReader}
use farseer.Samples.Protocol.{Held}
use farseer.Sockets.{SocketType, listening, accepted}
use farseer.Containers.{
  EpollEvents, Socket, SocketContainer, insert_socket, erase_socket, without, close_calls,
  client_closed, descriptor,
}
use farseer.Containers.Lookup.{IsWellFormed, insert_socket_atomic}
use farseer.Containers.Insert.{insert_socket-IsWellFormed}

abbrev nobody : ProtocolReader Held
nobody = record {
  inbound_message_consumers = [];
  inbound_request_consumers = [];
  inbound_one_shot_response_consumers = [];
}

abbrev readable : EpollEvents
readable = record {
  epoll_in = true;
  epoll_out = false;
  epoll_rdhup = false;
  epoll_err = false;
  epoll_et = true;
}

abbrev pub socket_of : ℕ → ℕ → ℕ → SocketType → Socket Held
socket_of identifier listens descriptor socket_type = record {
  socket_identifier = identifier;
  listening_socket_identifier = listens;
  socket = record {
    outgoing_buffer = [];
    ip_address = [];
    port = 80;
    socket = descriptor;
    socket_type = socket_type;
  };
  protocol_reader = nobody;
  inbound_bytes = [];
  outbound_bytes = [];
}

abbrev nothing : SocketContainer Held
nothing = record {
  sockets = [];
  file_descriptors_to_sockets = [];
  subscriptions = [];
  calls = [];
  events = [];
  socket_identifier_sequencer = 1;
}

nothing-IsWellFormed : IsWellFormed nothing
unfolding find contains
nothing-IsWellFormed = record {
  by_identifier = λ i s h. absurd (none-ne-some h);
  by_descriptor = λ d i h. absurd (none-ne-some h);
  subscribed = λ d. refl;
}

abbrev server : SocketContainer Held
server = (insert_socket true readable (socket_of 1 0 5 listening) nothing).1

abbrev pub both : SocketContainer Held
both = (insert_socket true readable (socket_of 2 1 6 accepted) server).1

server-IsWellFormed : IsWellFormed server
server-IsWellFormed =
    insert_socket-IsWellFormed true readable (socket_of 1 0 5 listening) nothing
      nothing-IsWellFormed

pub both-IsWellFormed : IsWellFormed both
both-IsWellFormed =
    insert_socket-IsWellFormed true readable (socket_of 2 1 6 accepted) server server-IsWellFormed

erase_calls : (erase_socket 0 2 both).calls ≡ (1, client_closed, 2) ∷ []
unfolding erase_socket without close_calls insert_socket find contains insert erase
erase_calls = refl

insert_socket_atomic_example :
    let s = socket_of 3 1 5 accepted in
    let r = insert_socket true readable s both in
    ((r.0 ≡ ok s)
      × (find 3 r.1.sockets ≡ (if s.socket_identifier == 3 then some s else find 3 both.sockets))
      × (find 5 r.1.file_descriptors_to_sockets ≡ (
          if descriptor s == 5
          then some s.socket_identifier
          else find 5 both.file_descriptors_to_sockets))
      × (find 5 r.1.subscriptions
          ≡ (if descriptor s == 5 then some readable else find 5 both.subscriptions)))
    ⊎ ((e : Error) × (r.0 ≡ err e)
        × (find 3 r.1.sockets ≡ find 3 both.sockets)
        × (find 5 r.1.file_descriptors_to_sockets ≡ find 5 both.file_descriptors_to_sockets)
        × (find 5 r.1.subscriptions ≡ find 5 both.subscriptions))
insert_socket_atomic_example =
    insert_socket_atomic true readable (socket_of 3 1 5 accepted) both 3 5
