-- ===== src/Containers/Keeping.antt =====
-- Operations of internal/linux/socket_container.cpp that leave the maps of a container as they are.
use farseer.Base.{
  none, some_inj, ℕ, ◌≡◌, refl, sym, ap, ◌∙◌, Bool, true, false, some, List, [], ◌∷◌, append-nil,
  ◌==◌, if◌then◌else◌, arith, Option-cases, Bool-cases, ==_iff, inl, inr,
}
use farseer.Base.Outcome.{Outcome, ok, err}
use farseer.Base.Assoc.{Assoc, find, contains, assign, erase, find-assign}
use farseer.Sockets.{LinuxSocket, SendResult, send_bytes, send_buffer}
use farseer.Containers.{
  ProtocolReader, Event, Socket, SocketContainer, SocketEvent, EpollEvents, descriptor,
  get_socket_or_throw,
}
use farseer.Containers.Lookup.{IsWellFormed, contains-erase}
use farseer.Containers.Operations.{
  Handled, ◌>>>◌, modify, set_events, call_back, on_socket, store_reader, register_consumer,
  after_send, send_bytes_to,
}
use farseer.Containers.Moves.{identity, Keeps, is_closing}

contains-assign :
    {V : Type 0} (k j : ℕ) (v : V) (m : Assoc V) → contains j (assign k v m) ≡ contains j m
unfolding contains find assign
contains-assign k j v [] = refl
contains-assign k j v ((i, w) ∷ m) = ground (arith, contains-assign k j v m)

send_bytes-socket :
    (send : List ℕ → SendResult) (bytes : List ℕ) (s : LinuxSocket)
    → (send_bytes send bytes s).1.socket ≡ s.socket
unfolding send_bytes send_buffer
send_bytes-socket send bytes s = ground arith

module _ {Any : Type 0} where
  found_kept :
      (i : ℕ) (f : Socket Any → Socket Any) (s : Socket Any) (c : SocketContainer Any)
      → identity (some (f s)) ≡ identity (some s)
      → find i c.sockets ≡ some s
      → (j : ℕ) → identity (find j (assign i (f s) c.sockets)) ≡ identity (find j c.sockets)
  found_kept i f s c same e j =
      let assigned = λ (b : Bool) (h : (i == j) ≡ b).
        find-assign i j (f s) s c.sockets e
        ∙ ap (λ b. if b then some (f s) else find j c.sockets) h in
      elim (Bool-cases (i == j)) [
        | inl h ↦
            ap identity (assigned true h)
            ∙ same
            ∙ sym (ap identity (ap (λ k. find k c.sockets) (sym ((==_iff i j).0 h)) ∙ e))
        | inr h ↦ ap identity (assigned false h)
      ]

  -- All but the sockets and the subscriptions stay.
  abbrev keeping :
      (c c' : SocketContainer Any)
      → ((i : ℕ) → identity (find i c'.sockets) ≡ identity (find i c.sockets))
      → c'.file_descriptors_to_sockets ≡ c.file_descriptors_to_sockets
      → ((d : ℕ) → contains d c'.subscriptions ≡ contains d c.subscriptions)
      → c'.calls ≡ c.calls
      → c'.socket_identifier_sequencer ≡ c.socket_identifier_sequencer
      → Keeps c c'
  keeping c c' sockets descriptors subscriptions calls sequencer = record {
    sockets_kept = sockets;
    descriptors_kept = descriptors;
    subscriptions_kept = subscriptions;
    new_calls = [];
    calls_kept = calls ∙ sym (append-nil c.calls);
    closes = tt;
    sequencer_kept = sequencer;
  }

  pub events-Keeps :
      (c : SocketContainer Any) (events : List (Event Any)) → Keeps c (record c { events = events })
  events-Keeps c events =
      keeping c (record c { events = events }) (λ i. refl) refl (λ d. refl) refl refl

  pub modify-Keeps :
      (i : ℕ) (f : Socket Any → Socket Any) (c : SocketContainer Any)
      → ((s : Socket Any) → find i c.sockets ≡ some s → identity (some (f s)) ≡ identity (some s))
      → Keeps c (modify i f c)
  unfolding modify
  modify-Keeps i f c same = elim (Option-cases (find i c.sockets)) [
    | inl e ↦ rw (e, modify) (keeping c c (λ j. refl) refl (λ d. refl) refl refl)
    | inr (s, e) ↦
        rw (e, modify)
          (keeping c (record c { sockets = assign i (f s) c.sockets })
            (found_kept i f s c (same s e) e) refl (λ d. refl) refl refl)
  ]

  pub set_events-Keeps :
      (modifies : Bool) (d : ℕ) (events : EpollEvents) (c : SocketContainer Any)
      → Keeps c (set_events modifies d events c).1
  unfolding set_events
  set_events-Keeps true d events c =
      keeping c (record c { subscriptions = assign d events c.subscriptions }) (λ i. refl) refl
        (λ j. contains-assign d j events c.subscriptions) refl refl
  set_events-Keeps false d events c = keeping c c (λ j. refl) refl (λ d. refl) refl refl

  -- An event of a file descriptor that is not used.
  pub unsubscribe-Keeps :
      (d : ℕ) (c : SocketContainer Any)
      → IsWellFormed c
      → find d c.file_descriptors_to_sockets ≡ none
      → Keeps c (record c { subscriptions = erase d c.subscriptions })
  unfolding contains
  unsubscribe-Keeps d c v unused =
      keeping c (record c { subscriptions = erase d c.subscriptions }) (λ i. refl) refl
        (λ e. ground (arith, contains-erase d e c.subscriptions, v.subscribed d)) refl refl

  pub call_back-Keeps :
      (callback : ℕ → SocketEvent → ℕ → Outcome (Unit {0})) (i : ℕ) (event : SocketEvent)
      (about : ℕ) (c : SocketContainer Any)
      → is_closing event ≡ false
      → Keeps c (call_back callback i event about c).1
  unfolding call_back
  call_back-Keeps callback i event about c open_event = record {
    sockets_kept = λ j. refl;
    descriptors_kept = refl;
    subscriptions_kept = λ d. refl;
    new_calls = (i, event, about) ∷ [];
    calls_kept = refl;
    closes = (open_event, tt);
    sequencer_kept = refl;
  }

-- `P` holds of the container behind each part, and so of the one behind the whole.
module _ {Any : Type 0} (P : SocketContainer Any → Type 0) where
  pub then_kept :
      (h : Handled Any) (next : SocketContainer Any → Handled Any)
      → P h.1
      → ((c : SocketContainer Any) → P c → P (next c).1)
      → P (h >>> next).1
  then_kept (ok _, c) next p q = q c p
  then_kept (err e, c) next p q = p

  pub on_socket_kept :
      (i : ℕ) (c : SocketContainer Any) (next : Socket Any → Handled Any)
      → P c
      → ((s : Socket Any) → find i c.sockets ≡ some s → P (next s).1)
      → P (on_socket i c next).1
  unfolding on_socket get_socket_or_throw
  on_socket_kept i c next p q = elim (Option-cases (find i c.sockets)) [
    | inl e ↦ rw (e, get_socket_or_throw, on_socket) p
    | inr (s, e) ↦ rw (e, get_socket_or_throw, on_socket) (q s e)
  ]

  module _ (keep : (c c' : SocketContainer Any) → P c → Keeps c c' → P c') where
    store_reader_kept :
        (i : ℕ) (c : SocketContainer Any) (r : Outcome (ProtocolReader Any))
        → P c
        → P (store_reader i c r).1
    unfolding store_reader
    store_reader_kept i c (err e) p = p
    store_reader_kept i c (ok reader) p = keep c _ p (modify-Keeps i _ c (λ s e. refl))

    pub register_consumer_kept :
        (registration : ProtocolReader Any → Outcome (ProtocolReader Any)) (i : ℕ)
        (c : SocketContainer Any)
        → P c
        → P (register_consumer registration i c).1
    unfolding register_consumer
    register_consumer_kept registration i c p =
        on_socket_kept i c _ p λ s e. store_reader_kept i c (registration s.protocol_reader) p

    after_send_kept :
        (modifies : Bool) (d : ℕ) (sent : Outcome Bool) (c : SocketContainer Any)
        → P c
        → P (after_send modifies d sent c).1
    unfolding after_send
    after_send_kept modifies d (err e) c p = p
    after_send_kept modifies d (ok exhausted) c p = keep c _ p (set_events-Keeps modifies d _ c)

    pub send_bytes_to_kept :
        (send : List ℕ → SendResult) (modifies : Bool) (bytes : List ℕ) (i : ℕ)
        (c : SocketContainer Any)
        → P c
        → P (send_bytes_to send modifies bytes i c).1
    unfolding send_bytes_to
    send_bytes_to_kept send modifies bytes i c p = on_socket_kept i c _ p λ s e.
        after_send_kept modifies (descriptor s) _ _ (
          keep c _ p (
            modify-Keeps i _ c (λ s' e'.
              ap (λ d. some (s'.socket_identifier, s'.listening_socket_identifier, d))
                (send_bytes-socket send bytes s.socket ∙ ap descriptor (some_inj (sym e ∙ e'))))))
