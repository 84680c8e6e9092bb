-- ===== src/Containers/Reading.antt =====
-- Which reader of a container reads, of internal/linux/socket_container.cpp.
use farseer.Base.{
  subst, ℕ, ◌≡◌, refl, sym, ap, ◌∙◌, false, Option, some, List, ◌==◌, if◌then◌else◌, arith, ==_refl,
}
use farseer.Base.Outcome.{Outcome}
use farseer.Base.Assoc.{find, assign, find-assign}
use farseer.Wire.Ballotin.{Ballotin}
use farseer.Registry.{ProtocolRegistry}
use farseer.Reader.{ReadState, read_inbound_bytes}
use farseer.Containers.{Socket, SocketContainer, get_socket_or_throw}
use farseer.Containers.Operations.{Handled, modify, on_socket}
use farseer.Containers.Handlers.{reading_identifier, store_read, read_socket, on_found_socket}

module _ {Any : Type 0} where
  pub on_socket_found :
      (i : ℕ) (c : SocketContainer Any) (next : Socket Any → Handled Any) (s : Socket Any)
      → find i c.sockets ≡ some s
      → on_socket i c next ≡ next s
  unfolding on_socket get_socket_or_throw
  on_socket_found i c next s e = rw (e, get_socket_or_throw, on_socket) refl

  pub on_found_socket_found :
      (i : ℕ) (c : SocketContainer Any) (next : Socket Any → Option (Handled Any)) (s : Socket Any)
      → find i c.sockets ≡ some s
      → on_found_socket i c next ≡ next s
  unfolding on_found_socket get_socket_or_throw
  on_found_socket_found i c next s e = rw (e, get_socket_or_throw, on_found_socket) refl

  modify_stored :
      (i : ℕ) (f : Socket Any → Socket Any) (c : SocketContainer Any) (s : Socket Any)
      → find i c.sockets ≡ some s
      → modify i f c ≡ record c { sockets = assign i (f s) c.sockets }
  unfolding modify
  modify_stored i f c s e = rw (e, modify) refl

  modify_found :
      (i : ℕ) (f : Socket Any → Socket Any) (c : SocketContainer Any) (s : Socket Any)
      → find i c.sockets ≡ some s
      → find i (modify i f c).sockets ≡ some (f s)
  modify_found i f c s e =
      ap (λ (c : SocketContainer Any). find i c.sockets) (modify_stored i f c s e)
      ∙ find-assign i i (f s) s c.sockets e
      ∙ ap (λ b. if b then some (f s) else find i c.sockets) (==_refl i)

  modify_other :
      (i j : ℕ) (f : Socket Any → Socket Any) (c : SocketContainer Any) (s : Socket Any)
      → find i c.sockets ≡ some s
      → (i == j) ≡ false
      → find j (modify i f c).sockets ≡ find j c.sockets
  modify_other i j f c s e other =
      ap (λ (c : SocketContainer Any). find j c.sockets) (modify_stored i f c s e)
      ∙ find-assign i j (f s) s c.sockets e
      ∙ ap (λ b. if b then some (f s) else find j c.sockets) other

  modify-events :
      (i : ℕ) (f : Socket Any → Socket Any) (c : SocketContainer Any) (s : Socket Any)
      → find i c.sockets ≡ some s
      → (modify i f c).events ≡ c.events
  modify-events i f c s e = ap (λ (c : SocketContainer Any). c.events) (modify_stored i f c s e)

module _ {Any : Type 0} (b : Ballotin) (registry : ProtocolRegistry Any) (invalid : ℕ) where
  -- What is behind a read of an accepted socket.
  pub record IsReadByListening (i : ℕ) (s t : Socket Any) (c : SocketContainer Any)
      (read : Outcome (Unit {0}) × List ℕ × ReadState Any) (h : Handled Any) : Type 0 where
    pub outcome_read : h.0 ≡ read.0
    pub socket_read :
        find i h.1.sockets
        ≡ some (record s { inbound_bytes = read.1; outbound_bytes = read.2.outbound_bytes })
    pub listening_read :
        find s.listening_socket_identifier h.1.sockets
        ≡ some (record t { protocol_reader = read.2.reader })
    pub events_read : h.1.events ≡ read.2.events

  abbrev pub read_by :
      Socket Any → Socket Any → SocketContainer Any → Outcome (Unit {0}) × List ℕ × ReadState Any
  read_by s t c =
      read_inbound_bytes b registry s.inbound_bytes (record {
        reader = t.protocol_reader;
        outbound_bytes = s.outbound_bytes;
        events = c.events;
      })

  module _ (i : ℕ) (s t : Socket Any) (c : SocketContainer Any) (found : find i c.sockets ≡ some s)
      (found_listening : find s.listening_socket_identifier c.sockets ≡ some t)
      (accepted_socket : (s.listening_socket_identifier == invalid) ≡ false)
      (other : (s.listening_socket_identifier == i) ≡ false) where
    store_read-IsReadByListening :
        (read : Outcome (Unit {0}) × List ℕ × ReadState Any)
        → IsReadByListening i s t c read (store_read i s.listening_socket_identifier read c)
    unfolding store_read
    store_read-IsReadByListening read =
        let l = s.listening_socket_identifier in
        let read_listening = λ (s : Socket Any).
          let r : Socket Any = record s { protocol_reader = read.2.reader } in r in
        let read_here = λ (s : Socket Any).
          let r : Socket Any = record s {
            inbound_bytes = read.1;
            outbound_bytes = read.2.outbound_bytes;
          } in
          r in
        let logged : SocketContainer Any = record c { events = read.2.events } in
        let behind = modify l read_listening logged in
        let still = modify_other l i read_listening logged t found_listening other ∙ found in
        record {
          outcome_read = refl;
          socket_read = modify_found i read_here behind s still;
          listening_read =
              modify_other i l read_here behind s still (ground arith)
              ∙ modify_found l read_listening logged t found_listening;
          events_read =
              modify-events i read_here behind s still
              ∙ modify-events l read_listening logged t found_listening;
        }

    reading_listening : reading_identifier b registry invalid s i ≡ s.listening_socket_identifier
    unfolding reading_identifier
    reading_listening = rw accepted_socket refl

    read_socket_stored :
        read_socket b registry invalid i c
        ≡ store_read i s.listening_socket_identifier (read_by s t c) c
    unfolding read_socket
    read_socket_stored =
        on_socket_found i c _ s found
        ∙ ap (λ k. on_socket k c (λ t. store_read i k (read_by s t c) c)) reading_listening
        ∙ on_socket_found s.listening_socket_identifier c _ t found_listening

    -- The bytes of an accepted socket are read by the reader of the socket that listens, on the bytes
    -- of the accepted socket; the accepted socket keeps its own reader, and what was registered with it.
    pub read_socket_accepted :
        IsReadByListening i s t c (read_by s t c) (read_socket b registry invalid i c)
    read_socket_accepted =
        subst (IsReadByListening i s t c (read_by s t c)) (sym read_socket_stored)
          (store_read-IsReadByListening (read_by s t c))
