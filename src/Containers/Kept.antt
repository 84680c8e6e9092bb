-- ===== src/Containers/Kept.antt =====
-- The handlers of events of internal/linux/socket_container.cpp, and what leaves the maps alone.
use farseer.Base.{◌++◌, ℕ, refl, Bool, true, false, List, [], if◌then◌else◌, Bool-cases, inl, inr}
use farseer.Base.Outcome.{Outcome, ok}
use farseer.Wire.Ballotin.{Ballotin}
use farseer.Registry.{ProtocolRegistry}
use farseer.Reader.{read_inbound_bytes, ReadState}
use farseer.Sockets.{set_connected, is_empty}
use farseer.Containers.{client_open, SocketContainer, EpollEvents, descriptor, erase_socket}
use farseer.Containers.Operations.{
  readable, set_events, Environment, Handled, ◌>>>◌, modify, call_back, send_bytes_to,
}
use farseer.Containers.Handlers.{
  reading_identifier, store_read, read_socket, send_outbound, handle_writable, handle_received,
  handle_connecting_socket_events,
}
use farseer.Containers.Moves.{Keeps}
use farseer.Containers.Keeping.{
  then_kept, on_socket_kept, send_bytes_to_kept, modify-Keeps, set_events-Keeps, call_back-Keeps,
  events-Keeps,
}

-- `P` is kept by what leaves the maps alone.
module _ {Any : Type 0} (P : SocketContainer Any → Type 0)
    (keep : (c c' : SocketContainer Any) → P c → Keeps c c' → P c') where
  store_read_kept :
      (i j : ℕ) (r : Outcome (Unit {0}) × List ℕ × ReadState Any) (c : SocketContainer Any)
      → P c
      → P (store_read i j r c).1
  unfolding store_read
  store_read_kept i j (outcome, bytes, state) c p =
      keep _ _
        (keep _ _ (keep c _ p (events-Keeps c state.events)) (modify-Keeps j _ _ (λ s e. refl)))
        (modify-Keeps i _ _ (λ s e. refl))

  send_outbound_kept :
      (environment : Environment) (i : ℕ) (c : SocketContainer Any)
      → P c
      → P (send_outbound environment i c).1
  unfolding send_outbound
  send_outbound_kept environment i c p = on_socket_kept P i c _ p λ s e.
      let sent =
        send_bytes_to_kept P keep (environment.send false) (environment.modifies false)
          s.outbound_bytes i c p in
      let clear = λ (d : SocketContainer Any).
        modify {Any = Any} i (λ s. record s { outbound_bytes = [] }) d in
      elim (Bool-cases (is_empty s.outbound_bytes)) [
        | inl h ↦ rw h p
        | inr h ↦ rw h (
            then_kept P
              (send_bytes_to (environment.send false) (environment.modifies false) s.outbound_bytes
                i c)
              (λ d. (ok tt, clear d)) sent
              (λ d q. keep d (clear d) q (modify-Keeps i _ d (λ s e. refl))))
      ]

  pub handle_writable_kept :
      (environment : Environment) (events : EpollEvents) (i : ℕ) (c : SocketContainer Any)
      → P c
      → P (handle_writable environment events i c).1
  unfolding handle_writable
  handle_writable_kept environment events i c p = elim (Bool-cases events.epoll_out) [
    | inl h ↦
        rw h
          (send_bytes_to_kept P keep (environment.send true) (environment.modifies true) [] i c p)
    | inr h ↦ rw h p
  ]

  module _ (b : Ballotin) (registry : ProtocolRegistry Any) (invalid : ℕ) where
    read_socket_kept :
        (i : ℕ) (c : SocketContainer Any) → P c → P (read_socket b registry invalid i c).1
    unfolding read_socket
    read_socket_kept i c p = on_socket_kept P i c _ p λ s e.
        on_socket_kept P (reading_identifier b registry invalid s i) c _ p λ t f.
          store_read_kept i (reading_identifier b registry invalid s i)
            (read_inbound_bytes b registry s.inbound_bytes (record {
              reader = t.protocol_reader;
              outbound_bytes = s.outbound_bytes;
              events = c.events;
            }))
            c p

    pub handle_connecting_kept :
        (environment : Environment) (i : ℕ) (c : SocketContainer Any)
        → P c
        → P (handle_connecting_socket_events b registry invalid environment i c).1
    unfolding handle_connecting_socket_events set_connected
    handle_connecting_kept environment i c p = on_socket_kept P i c _ p λ s e.
        let connect = λ (d : SocketContainer Any).
          modify {Any = Any} i (λ s. record s { socket = set_connected s.socket }) d in
        then_kept P (set_events (environment.modifies false) (descriptor s) readable c)
          (λ d. call_back environment.callback i client_open invalid (connect d))
          (keep c _ p (set_events-Keeps (environment.modifies false) (descriptor s) readable c))
          λ d q.
            keep (connect d) _ (keep d (connect d) q (modify-Keeps i _ d (λ s e. refl)))
              (call_back-Keeps environment.callback i client_open invalid (connect d) refl)

    -- `P` is kept by eraseSocket too.
    module _ (erased : (i : ℕ) (c : SocketContainer Any) → P c → P (erase_socket invalid i c)) where
      pub handle_received_kept :
          (environment : Environment) (events : EpollEvents) (bytes : List ℕ) (closed : Bool)
          (i : ℕ) (c : SocketContainer Any)
          → P c
          → P (handle_received b registry invalid environment events bytes closed i c).1
      unfolding handle_received
      handle_received_kept environment events bytes closed i c p =
          let c' : SocketContainer Any =
            modify i (λ s. record s { inbound_bytes = s.inbound_bytes ++ bytes }) c in
          let next = λ (d : SocketContainer Any).
            if closed
            then (let h : Handled Any = (ok tt, erase_socket invalid i d) in h)
            else handle_writable environment events i d in
          then_kept P (read_socket b registry invalid i c' >>> send_outbound environment i) next
            (then_kept P (read_socket b registry invalid i c') (send_outbound environment i)
              (read_socket_kept i c' (keep c c' p (modify-Keeps i _ c (λ s e. refl))))
              (λ d q. send_outbound_kept environment i d q))
            (λ d q. elim (Bool-cases closed) [
              | inl h ↦ rw h (erased i d q)
              | inr h ↦ rw h (handle_writable_kept environment events i d q)
            ])
