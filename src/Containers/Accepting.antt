-- ===== src/Containers/Accepting.antt =====
-- Errors of ::accept4 in internal/linux/socket_container.cpp.
use farseer.Base.{
  ℕ, ◌≡◌, refl, sym, ap, ◌∙◌, Bool, true, false, Option, none, some, List, [], ◌∷◌, ◌++◌,
  if◌then◌else◌, arith, ==_refl, All, subst, Option-cases, inl, inr,
}
use farseer.Base.Outcome.{Outcome, Error, ok, err, internal_socket_error}
use farseer.Base.Assoc.{find, find-erase}
use farseer.Wire.Ballotin.{Ballotin}
use farseer.Registry.{ProtocolRegistry}
use farseer.Sockets.{LinuxSocket, listening}
use farseer.Sockets.Opening.{
  AcceptResult, connection, accept_would_block, accept_failed, accept, accept_connection,
}
use farseer.Containers.{
  Socket, SocketContainer, EpollEvents, get_socket_or_throw, erase_socket, without,
}
use farseer.Containers.Operations.{Environment, Handled}
use farseer.Containers.Handlers.{
  accept_socket, continue, on_found_socket, after_accept, accept_loop, handle_by_type,
  handle_socket_events_work, end_events, handle_socket_events,
}
use farseer.Containers.Reading.{on_found_socket_found}

abbrev pub is_would_block : AcceptResult → Bool
is_would_block accept_would_block = true
is_would_block accept_failed = false
is_would_block (connection socket fits ip_address port) = false

abbrev is_none : Outcome (Option LinuxSocket) → Bool
is_none (ok none) = true
is_none (ok (some s)) = false
is_none (err e) = false

accept_goes_on :
    (answer : AcceptResult) (s : LinuxSocket)
    → is_would_block answer ≡ false
    → is_none (accept answer s).0 ≡ false
unfolding accept accept_connection
accept_goes_on accept_would_block s h = absurd (ground arith)
accept_goes_on accept_failed s h = ground arith
accept_goes_on (connection socket fits none port) s h = ground arith
accept_goes_on (connection socket fits (some ip_address) port) s h = ground arith

pub accept-failed : (l : LinuxSocket) → (accept accept_failed l).0 ≡ err internal_socket_error
unfolding accept accept_connection
accept-failed l = ground arith

module _ {Any : Type 0} where
  -- It comes to an exception.
  abbrev Throws : Option (Handled Any) → Type 0
  Throws o = (e : Error) × (c : SocketContainer Any) × (o ≡ some (err e, c))

  on_found_socket-Throws :
      (i : ℕ) (c : SocketContainer Any) (next : Socket Any → Option (Handled Any))
      → ((s : Socket Any) → Throws (next s))
      → Throws (on_found_socket i c next)
  unfolding on_found_socket get_socket_or_throw
  on_found_socket-Throws i c next h = elim (Option-cases (find i c.sockets)) [
    | inl e ↦ rw (e, get_socket_or_throw, on_found_socket) (_, c, refl)
    | inr (s, e) ↦ subst Throws (sym (on_found_socket_found i c next s e)) (h s)
  ]

  after_accept-Throws :
      (r : Outcome (Option LinuxSocket)) (c : SocketContainer Any)
      (next : LinuxSocket → Option (Handled Any))
      → is_none r ≡ false
      → ((l : LinuxSocket) → Throws (next l))
      → Throws (after_accept r c next)
  unfolding after_accept
  after_accept-Throws (err e) c next g h = (e, c, refl)
  after_accept-Throws (ok none) c next g h = absurd (ground arith)
  after_accept-Throws (ok (some l)) c next g h = h l

  after_accept-failed :
      (r : Outcome (Option LinuxSocket)) (c : SocketContainer Any)
      (next : LinuxSocket → Option (Handled Any))
      → ((e : Error) × (r ≡ err e))
      → Throws (after_accept r c next)
  unfolding after_accept
  after_accept-failed r c next (e, h) = rw h (e, c, refl)

  continue-Throws :
      (handled : Handled Any) (rest : SocketContainer Any → Option (Handled Any))
      → ((c : SocketContainer Any) → Throws (rest c))
      → Throws (continue handled rest)
  unfolding continue
  continue-Throws (err e, c) rest h = (e, c, refl)
  continue-Throws (ok _, c) rest h = h c

  accept_loop-Throws :
      (environment : Environment) (before after : List (AcceptResult × Bool)) (subscribes : Bool)
      (i : ℕ) (c : SocketContainer Any)
      → All (λ (a : AcceptResult × Bool). is_would_block a.0 ≡ false) before
      → Throws (accept_loop environment (before ++ (accept_failed, subscribes) ∷ after) i c)
  unfolding accept_loop
  accept_loop-Throws environment [] after subscribes i c h = on_found_socket-Throws i c _ (λ s.
      after_accept-failed (accept accept_failed s.socket).0 c _
        (internal_socket_error, accept-failed s.socket))
  accept_loop-Throws environment ((answer, subscribes') ∷ before) after subscribes i c (h, hs) =
      on_found_socket-Throws i c _ (λ s.
        after_accept-Throws (accept answer s.socket).0 c _ (accept_goes_on answer s.socket h) (λ l.
          continue-Throws (accept_socket environment subscribes' l i c) _
            (λ d. accept_loop-Throws environment before after subscribes i d hs)))

module _ {Any : Type 0} (b : Ballotin) (registry : ProtocolRegistry Any) (invalid : ℕ) where
  erase_socket_gone :
      (i : ℕ) (c : SocketContainer Any) → find i (erase_socket invalid i c).sockets ≡ none
  unfolding erase_socket without
  erase_socket_gone i c = elim (Option-cases (find i c.sockets)) [
    | inl e ↦ rw (e, erase_socket) e
    | inr (s, e) ↦
        rw (e, erase_socket)
          (find-erase i i c.sockets ∙ ap (λ t. if t then none else find i c.sockets) (==_refl i))
  ]

  -- The events of a socket come to an end without it.
  abbrev IsGone : ℕ → Option (Handled Any) → Type 0
  IsGone i o =
      (h : Handled Any) × (o ≡ some h) × (find i (end_events b registry invalid i h).sockets ≡ none)

  Throws-IsGone : (i : ℕ) (o : Option (Handled Any)) → Throws o → IsGone i o
  unfolding end_events
  Throws-IsGone i o (e, c, h) = ((err e, c), h, erase_socket_gone i c)

  if-IsGone :
      (test : Bool) (i : ℕ) (c : SocketContainer Any) (o : Option (Handled Any))
      → IsGone i o
      → IsGone i (if test then some (ok tt, erase_socket invalid i c) else o)
  unfolding end_events
  if-IsGone true i c o h = ((ok tt, erase_socket invalid i c), refl, erase_socket_gone i c)
  if-IsGone false i c o h = h

  handle_socket_events_work-IsGone :
      (environment : Environment) (events : EpollEvents) (before after : List (AcceptResult × Bool))
      (subscribes : Bool) (i : ℕ) (s : Socket Any) (c : SocketContainer Any)
      → All (λ (a : AcceptResult × Bool). is_would_block a.0 ≡ false) before
      → environment.accept ≡ before ++ (accept_failed, subscribes) ∷ after
      → find i c.sockets ≡ some s
      → s.socket.socket_type ≡ listening
      → IsGone i (handle_socket_events_work b registry invalid environment events i c)
  unfolding handle_socket_events_work handle_by_type
  handle_socket_events_work-IsGone environment events before after subscribes i s c goes answers
        found listens =
      let fails : Throws (accept_loop environment environment.accept i c) =
        subst (λ answers. Throws (accept_loop environment answers i c)) (sym answers)
          (accept_loop-Throws environment before after subscribes i c goes) in
      if-IsGone events.epoll_rdhup i c _ (
        if-IsGone events.epoll_err i c _ (
          subst (IsGone i)
            (sym (
              on_found_socket_found i c _ s found
              ∙ ap (λ t. handle_by_type b registry invalid t environment events i c) listens))
            (Throws-IsGone i _ fails)))

  -- An error of ::accept4, such as that of a connection that was reset before it was accepted, erases
  -- the socket that listens: behind any answers that are connections or errors, whatever callbacks,
  -- subscriptions and other events there are, the events of its file descriptor are handled to an end,
  -- and its identifier has no socket then.
  pub accept_failed_erases :
      (environment : Environment) (before after : List (AcceptResult × Bool)) (subscribes : Bool)
      (d i : ℕ) (events : EpollEvents) (s : Socket Any) (c : SocketContainer Any)
      → All (λ (a : AcceptResult × Bool). is_would_block a.0 ≡ false) before
      → environment.accept ≡ before ++ (accept_failed, subscribes) ∷ after
      → find d c.file_descriptors_to_sockets ≡ some i
      → find i c.sockets ≡ some s
      → s.socket.socket_type ≡ listening
      → (c' : SocketContainer Any) × (handle_socket_events b registry invalid environment d events c
          ≡ some c')
        × (find i c'.sockets ≡ none)
  unfolding handle_socket_events
  accept_failed_erases environment before after subscribes d i events s c goes answers at_descriptor
        found listens =
      let (h, ends, gone) =
        handle_socket_events_work-IsGone environment events before after subscribes i s c goes
          answers found listens in
      (end_events b registry invalid i h, rw (at_descriptor, handle_socket_events, ends) refl, gone)
