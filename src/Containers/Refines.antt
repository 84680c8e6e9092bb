-- ===== src/Containers/Refines.antt =====
-- The handlers of events of internal/linux/socket_container.cpp as sequences of moves.
use farseer.Base.{
  ℕ, suc, zero, ◌+◌, ◌≤◌, ◌≡◌, refl, sym, subst, Bool, true, false, Option, none, some, some_inj,
  none-ne-some, List, [], ◌∷◌, length, arith, if◌then◌else◌, Option-cases, inl, inr,
}
use farseer.Base.Outcome.{Outcome, ok, err, Error, internal_socket_error}
use farseer.Base.Assoc.{find}
use farseer.Wire.Ballotin.{Ballotin}
use farseer.Registry.{ProtocolRegistry}
use farseer.Sequencer.{generate}
use farseer.Sockets.{LinuxSocket, SocketType, unbound, listening, accepted, connecting, connected}
use farseer.Sockets.Opening.{AcceptResult, accept}
use farseer.Containers.{
  client_open, Socket, SocketContainer, EpollEvents, get_socket_or_throw, insert_socket,
  erase_socket,
}
use farseer.Containers.Lookup.{IsWellFormed}
use farseer.Containers.Operations.{new_socket, readable, Environment, Handled, call_back, done}
use farseer.Containers.Handlers.{
  on_found_socket, after_accept, continue, after_receive, handle_connected_socket_events,
  accept_socket, accept_loop, handle_by_type, handle_socket_events_work, end_events,
  handle_socket_events,
}
use farseer.Containers.Moves.{Moves, keeps, accepts, erases, stays}
use farseer.Containers.Keeping.{unsubscribe-Keeps, then_kept, call_back-Keeps}
use farseer.Containers.Kept.{handle_received_kept, handle_writable_kept, handle_connecting_kept}

module _ {Any : Type 0} (R : Handled Any → Type 0) where
  if_kept :
      (test : Bool) (x y : Option (Handled Any))
      → ((h : Handled Any) → x ≡ some h → R h)
      → ((h : Handled Any) → y ≡ some h → R h)
      → (h : Handled Any) → (if test then x else y) ≡ some h
      → R h
  if_kept true x y p q h e = p h e
  if_kept false x y p q h e = q h e

  on_found_socket_kept :
      (i : ℕ) (c : SocketContainer Any) (next : Socket Any → Option (Handled Any))
      → ((e : Error) → R (err e, c))
      → ((s : Socket Any) (h : Handled Any) → next s ≡ some h → R h)
      → (h : Handled Any) → on_found_socket i c next ≡ some h
      → R h
  unfolding on_found_socket get_socket_or_throw
  on_found_socket_kept i c next failed found h e = elim (Option-cases (find i c.sockets)) [
    | inl f ↦
        subst R (some_inj (rw (f, get_socket_or_throw, on_found_socket) at e))
          (failed internal_socket_error)
    | inr (s, f) ↦ found s h (rw (f, get_socket_or_throw, on_found_socket) at e)
  ]

  after_accept_kept :
      (r : Outcome (Option LinuxSocket)) (c : SocketContainer Any)
      (next : LinuxSocket → Option (Handled Any))
      → ((o : Outcome (Unit {0})) → R (o, c))
      → ((s : LinuxSocket) (h : Handled Any) → next s ≡ some h → R h)
      → (h : Handled Any) → after_accept r c next ≡ some h
      → R h
  unfolding after_accept
  after_accept_kept (err x) c next ended found h e = subst R (some_inj e) (ended (err x))
  after_accept_kept (ok none) c next ended found h e = subst R (some_inj e) (ended (ok tt))
  after_accept_kept (ok (some s)) c next ended found h e = found s h e

  continue_kept :
      (g : Handled Any) (rest : SocketContainer Any → Option (Handled Any))
      → ((o : Outcome (Unit {0})) → R (o, g.1))
      → ((h : Handled Any) → rest g.1 ≡ some h → R h)
      → (h : Handled Any) → continue g rest ≡ some h
      → R h
  unfolding continue
  continue_kept (err x, c) rest ended goes_on h e = subst R (some_inj e) (ended (err x))
  continue_kept (ok x, c) rest ended goes_on h e = goes_on h e

pub done-container :
    {Any : Type 0} (r : Outcome (Socket Any) × SocketContainer Any) → (done r).1 ≡ r.1
done-container (ok s, c) = refl
done-container (err e, c) = refl

module _ {Any : Type 0} (invalid : ℕ) (c₀ : SocketContainer Any) where
  -- At most `k` sockets were accepted.
  abbrev Reached : ℕ → Handled Any → Type 0
  Reached k h = (n : ℕ) × (n ≤ k) × Moves invalid c₀ n h.1

  Reached-suc : (n k : ℕ) (h : Handled Any) → Reached (suc n + k) h → Reached (n + suc k) h
  Reached-suc n k h (m, le, moves) = (m, omega arith, moves)

  accept_socket-Moves :
      (environment : Environment) (subscribes : Bool) (socket : LinuxSocket) (i n : ℕ)
      (c : SocketContainer Any)
      → Moves invalid c₀ n c
      → Moves invalid c₀ (suc n) (accept_socket environment subscribes socket i c).1
  unfolding accept_socket
  accept_socket-Moves environment subscribes socket i n c m =
      let (accepted_identifier, next) = generate c.socket_identifier_sequencer in
      let inserted =
        insert_socket subscribes readable (new_socket {Any = Any} accepted_identifier i socket)
          (record c { socket_identifier_sequencer = next }) in
      then_kept (Moves invalid c₀ (suc n)) (done inserted)
        (call_back environment.callback i client_open accepted_identifier)
        (subst (Moves invalid c₀ (suc n)) (sym (done-container inserted))
          (accepts subscribes socket i m))
        (λ d q.
          keeps q (call_back-Keeps environment.callback i client_open accepted_identifier d refl))

  accept_loop-Moves :
      (environment : Environment) (answers : List (AcceptResult × Bool)) (i n : ℕ)
      (c : SocketContainer Any)
      → Moves invalid c₀ n c
      → (h : Handled Any) → accept_loop environment answers i c ≡ some h
      → Reached (n + length answers) h
  unfolding accept_loop
  accept_loop-Moves environment [] i n c m h e = absurd (none-ne-some e)
  accept_loop-Moves environment ((answer, subscribes) ∷ answers) i n c m h e =
      let R = Reached (n + suc (length answers)) in
      let rest : SocketContainer Any → Option (Handled Any) = accept_loop environment answers i in
      let here = λ (o : Outcome (Unit {0})). let r : R (o, c) = (n, omega arith, m) in r in
      on_found_socket_kept R i c _ (λ x. here (err x))
        (λ s h e.
          after_accept_kept R (accept answer s.socket).0 c _ here
            (λ l h e.
              let m' = accept_socket-Moves environment subscribes l i n c m in
              let g = accept_socket environment subscribes l i c in
              continue_kept R g rest (λ o. (suc n, omega arith, m'))
                (λ h e.
                  Reached-suc n (length answers) h
                    (accept_loop-Moves environment answers i (suc n) g.1 m' h e))
                h e)
            h e)
        h e

  module _ (b : Ballotin) (registry : ProtocolRegistry Any) where
    after_receive-Moves :
        (environment : Environment) (events : EpollEvents) (i n : ℕ) (c : SocketContainer Any)
        (r : Option (Outcome (List ℕ × Bool)))
        → Moves invalid c₀ n c
        → (h : Handled Any) → after_receive b registry invalid environment events i c r ≡ some h
        → Moves invalid c₀ n h.1
    unfolding after_receive
    after_receive-Moves environment events i n c none m h e = absurd (none-ne-some e)
    after_receive-Moves environment events i n c (some (err x)) m h e =
        subst (λ (h : Handled Any). Moves invalid c₀ n h.1) (some_inj e) m
    after_receive-Moves environment events i n c (some (ok (bytes, closed))) m h e =
        subst (λ (h : Handled Any). Moves invalid c₀ n h.1) (some_inj e)
          (handle_received_kept (Moves invalid c₀ n) (λ c d m k. keeps m k) b registry invalid
            (λ j d m. erases j m) environment events bytes closed i c m)

    handle_connected-Moves :
        (environment : Environment) (events : EpollEvents) (i n : ℕ) (c : SocketContainer Any)
        → Moves invalid c₀ n c
        → (h : Handled Any)
        → handle_connected_socket_events b registry invalid environment events i c ≡ some h
        → Moves invalid c₀ n h.1
    unfolding handle_connected_socket_events
    handle_connected-Moves environment events i n c m h e =
        let R = λ (h : Handled Any). Moves invalid c₀ n h.1 in
        if_kept R events.epoll_in _ _
          (on_found_socket_kept R i c _ (λ x. m)
            (λ s h e. after_receive-Moves environment events i n c _ m h e))
          (λ h e. subst R (some_inj e) (
            handle_writable_kept (Moves invalid c₀ n) (λ c d m k. keeps m k) environment events i c
              m))
          h e

    handle_by_type-Moves :
        (type : SocketType) (environment : Environment) (events : EpollEvents) (i : ℕ)
        (c : SocketContainer Any)
        → Moves invalid c₀ zero c
        → (h : Handled Any) → handle_by_type b registry invalid type environment events i c ≡ some h
        → Reached (length environment.accept) h
    unfolding handle_by_type
    handle_by_type-Moves accepted environment events i c m h e =
        (0, omega arith, handle_connected-Moves environment events i 0 c m h e)
    handle_by_type-Moves connected environment events i c m h e =
        (0, omega arith, handle_connected-Moves environment events i 0 c m h e)
    handle_by_type-Moves listening environment events i c m h e =
        let (n, le, moves) = accept_loop-Moves environment environment.accept i 0 c m h e in
        (n, omega arith, moves)
    handle_by_type-Moves connecting environment events i c m h e = (
      0,
      omega arith,
      subst (λ (h : Handled Any). Moves invalid c₀ zero h.1) (some_inj e)
          (handle_connecting_kept (Moves invalid c₀ zero) (λ c d m k. keeps m k) b registry invalid
            environment i c m),
    )
    handle_by_type-Moves unbound environment events i c m h e =
        (0, omega arith, subst (λ (h : Handled Any). Moves invalid c₀ zero h.1) (some_inj e) m)

    work-Moves :
        (environment : Environment) (events : EpollEvents) (i : ℕ) (c : SocketContainer Any)
        → Moves invalid c₀ zero c
        → (h : Handled Any)
        → handle_socket_events_work b registry invalid environment events i c ≡ some h
        → Reached (length environment.accept) h
    unfolding handle_socket_events_work
    work-Moves environment events i c m h e =
        let R = Reached (length environment.accept) in
        let erased_container : Handled Any = (ok tt, erase_socket invalid i c) in
        let erased = λ (h : Handled Any) (e : some erased_container ≡ some h).
          let r : R erased_container = (0, omega arith, erases i m) in subst R (some_inj e) r in
        if_kept R events.epoll_rdhup _ _ erased
          (if_kept R events.epoll_err _ _ erased (
            on_found_socket_kept R i c _ (λ x. (0, omega arith, m))
              (λ s h e. handle_by_type-Moves s.socket.socket_type environment events i c m h e)))
          h e

    end_events-Moves :
        (i k : ℕ) (h : Handled Any)
        → Reached k h
        → (n : ℕ) × (n ≤ k) × Moves invalid c₀ n (end_events b registry invalid i h)
    unfolding end_events
    end_events-Moves i k (ok _, c) r = r
    end_events-Moves i k (err e, c) (n, le, m) = (n, le, erases i m)

-- Whatever the socket is and whatever the system calls, the callbacks and the consumers do, handling
-- the events of a file descriptor of a well-formed container is a sequence of moves, in which no more
-- sockets are accepted than ::accept4 gave.
pub handle_socket_events-Moves :
    {Any : Type 0} (b : Ballotin) (registry : ProtocolRegistry Any) (invalid : ℕ)
    (environment : Environment) (d : ℕ) (events : EpollEvents) (c c' : SocketContainer Any)
    → IsWellFormed c
    → handle_socket_events b registry invalid environment d events c ≡ some c'
    → (n : ℕ) × (n ≤ length environment.accept) × Moves invalid c n c'
unfolding handle_socket_events
handle_socket_events-Moves b registry invalid environment d events c c' v e =
    elim (Option-cases (find d c.file_descriptors_to_sockets)) [
      | inl f ↦
          subst (λ c'. (n : ℕ) × (n ≤ length environment.accept) × Moves invalid c n c')
            (some_inj (rw (f, handle_socket_events) at e))
            (0, omega arith, keeps stays (unsubscribe-Keeps d c v f))
      | inr (i, f) ↦
          elim (Option-cases
            (handle_socket_events_work b registry invalid environment events i c)) [
              | inl g ↦ absurd (none-ne-some (rw (f, g, handle_socket_events) at e))
              | inr (h, g) ↦
                  subst (λ c'. (n : ℕ) × (n ≤ length environment.accept) × Moves invalid c n c')
                    (some_inj (rw (f, g, handle_socket_events) at e))
                    (end_events-Moves invalid c b registry i (length environment.accept) h
                      (work-Moves invalid c b registry environment events i c stays h g))
            ]
    ]
