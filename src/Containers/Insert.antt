-- ===== src/Containers/Insert.antt =====
-- insertSocket of internal/linux/socket_container.cpp on the three maps of a container.
use farseer.Base.{
  ℕ, ◌≡◌, Bool, true, false, Option, none, some, ◌∷◌, ◌==◌, arith, if◌then◌else◌, refl, ap, sym,
  ◌∙◌, some_inj, Bool-cases, ==_iff, ==_refl, ◌⊎◌, inl, inr, subst,
}
use farseer.Base.Assoc.{Assoc, find, contains, insert, find-insert, find-contains}
use farseer.Containers.{EpollEvents, Socket, SocketContainer, descriptor, insert_socket}
use farseer.Containers.Lookup.{IsWellFormed, insert_taken_back}

module _ {V : Type 0} where
  find-insert_found :
      (k j : ℕ) (w v : V) (m : Assoc V)
      → contains k m ≡ false
      → find j (insert k w m) ≡ some v
      → ((k ≡ j) × (w ≡ v)) ⊎ (find j m ≡ some v)
  find-insert_found k j w v m new h =
      let e = sym (find-insert k j w m new) ∙ h in
      elim (Bool-cases (k == j)) [
        | inl same ↦ inl (
          (==_iff k j).0 same,
          some_inj (ap (λ b. if b then some w else find j m) (sym same) ∙ e),
        )
        | inr other ↦ inr (ap (λ b. if b then some w else find j m) (sym other) ∙ e)
      ]

  find-insert_new :
      (k : ℕ) (w : V) (m : Assoc V) → contains k m ≡ false → find k (insert k w m) ≡ some w
  find-insert_new k w m new =
      find-insert k k w m new ∙ ap (λ b. if b then some w else find k m) (==_refl k)

  find-insert_other :
      (k j : ℕ) (w v : V) (m : Assoc V)
      → contains k m ≡ false
      → find j m ≡ some v
      → find j (insert k w m) ≡ some v
  unfolding insert find contains
  find-insert_other k j w v m new found = elim (Bool-cases (k == j)) [
    | inl same ↦
        let e : contains k m ≡ true =
          ap (λ i. contains i m) ((==_iff k j).0 same) ∙ find-contains j m v found in
        absurd (ground arith)
    | inr other ↦ find-insert k j w m new ∙ ap (λ b. if b then some w else find j m) other ∙ found
  ]

  contains-same : (k : ℕ) (m n : Assoc V) → find k m ≡ find k n → contains k m ≡ contains k n
  unfolding contains
  contains-same k m n e = ap (λ (o : Option V). elim o [ none ↦ false | some _ ↦ true ]) e

module _ {Any : Type 0} where
  pub same-IsWellFormed :
      (c c' : SocketContainer Any)
      → ((i : ℕ) → find i c'.sockets ≡ find i c.sockets)
      → ((d : ℕ) → find d c'.file_descriptors_to_sockets ≡ find d c.file_descriptors_to_sockets)
      → c'.subscriptions ≡ c.subscriptions
      → IsWellFormed c
      → IsWellFormed c'
  same-IsWellFormed c c' p q r v = record {
    by_identifier =
        λ i s h. let w = v.by_identifier i s (sym (p i) ∙ h) in (w.0, q (descriptor s) ∙ w.1);
    by_descriptor = λ d i h.
        let (s, found, same) = v.by_descriptor d i (sym (q d) ∙ h) in (s, p i ∙ found, same);
    subscribed = λ d.
        ap (contains d) r
        ∙ v.subscribed d
        ∙ sym (contains-same d c'.file_descriptors_to_sockets c.file_descriptors_to_sockets (q d));
  }

  abbrev with_socket : EpollEvents → Socket Any → SocketContainer Any → SocketContainer Any
  with_socket events s c = record c {
    sockets = insert s.socket_identifier s c.sockets;
    file_descriptors_to_sockets =
        insert (descriptor s) s.socket_identifier c.file_descriptors_to_sockets;
    subscriptions = (descriptor s, events) ∷ c.subscriptions;
  }

  module _ (events : EpollEvents) (s : Socket Any) (c : SocketContainer Any) (v : IsWellFormed c)
      (new : contains s.socket_identifier c.sockets ≡ false)
      (new' : contains (descriptor s) c.file_descriptors_to_sockets ≡ false) where
    with_by_identifier :
        (i : ℕ) (t : Socket Any)
        → find i (with_socket events s c).sockets ≡ some t
        → (t.socket_identifier ≡ i)
          × (find (descriptor t) (with_socket events s c).file_descriptors_to_sockets ≡ some i)
    with_by_identifier i t h = elim (find-insert_found s.socket_identifier i s t c.sockets new h) [
      | inl (e, same) ↦
          subst
            (λ (t : Socket Any).
              (t.socket_identifier ≡ i)
              × (find (descriptor t) (with_socket events s c).file_descriptors_to_sockets ≡ some i))
            same
            (
              e,
              find-insert_new (descriptor s) s.socket_identifier c.file_descriptors_to_sockets new'
                  ∙ ap some e,
            )
      | inr found ↦
          let w = v.by_identifier i t found in
          (
            w.0,
            find-insert_other (descriptor s) (descriptor t) s.socket_identifier i
                c.file_descriptors_to_sockets new' w.1,
          )
    ]

    with_by_descriptor :
        (d i : ℕ)
        → find d (with_socket events s c).file_descriptors_to_sockets ≡ some i
        → (t : Socket Any) × (find i (with_socket events s c).sockets ≡ some t) × (descriptor t ≡ d)
    with_by_descriptor d i h =
        elim (find-insert_found (descriptor s) d s.socket_identifier i c.file_descriptors_to_sockets
          new' h) [
            | inl (same, e) ↦ (
              s,
              subst (λ i. find i (with_socket events s c).sockets ≡ some s) e
                  (find-insert_new s.socket_identifier s c.sockets new),
              same,
            )
            | inr h ↦
                let (t, found, same) = v.by_descriptor d i h in
                (t, find-insert_other s.socket_identifier i s t c.sockets new found, same)
          ]

    with_subscribed :
        (d : ℕ)
        → contains d (with_socket events s c).subscriptions
          ≡ contains d (with_socket events s c).file_descriptors_to_sockets
    unfolding contains find insert
    with_subscribed d = ground (arith, v.subscribed d)

    with_socket-IsWellFormed : IsWellFormed (with_socket events s c)
    with_socket-IsWellFormed = record {
      by_identifier = with_by_identifier;
      by_descriptor = with_by_descriptor;
      subscribed = with_subscribed;
    }

  -- insertSocket, with whatever outcome, keeps the three maps well-formed.
  pub insert_socket-IsWellFormed :
      (subscribes : Bool) (events : EpollEvents) (s : Socket Any) (c : SocketContainer Any)
      → IsWellFormed c
      → IsWellFormed (insert_socket subscribes events s c).1
  unfolding insert_socket
  insert_socket-IsWellFormed subscribes events s c v =
      elim (Bool-cases (contains s.socket_identifier c.sockets)) [
        | inl e ↦ rw e v
        | inr e ↦ elim (Bool-cases (contains (descriptor s) c.file_descriptors_to_sockets)) [
          | inl f ↦
              rw (e, f)
                (same-IsWellFormed c _ (λ i. insert_taken_back s.socket_identifier i s c.sockets e)
                  (λ d. refl) refl v)
          | inr f ↦ elim (Bool-cases subscribes) [
            | inl g ↦ rw (e, f, g) (with_socket-IsWellFormed events s c v e f)
            | inr g ↦
                rw (e, f, g)
                  (same-IsWellFormed c _
                    (λ i. insert_taken_back s.socket_identifier i s c.sockets e)
                    (λ d.
                      insert_taken_back (descriptor s) d s.socket_identifier
                        c.file_descriptors_to_sockets f)
                    refl v)
          ]
        ]
      ]
