-- ===== src/Containers/Lookup.antt =====
-- Lookups in the three maps of internal/linux/socket_container.cpp, behind insertSocket and eraseSocket.
use farseer.Base.{
  ℕ, ◌≡◌, Bool, false, some, ◌==◌, arith, if◌then◌else◌, refl, ap, sym, ◌∙◌, some_inj, Option-cases,
  Bool-cases, ==_iff, ◌⊎◌, inl, inr,
}
use farseer.Base.Outcome.{Error, ok, err}
use farseer.Base.Assoc.{
  Assoc, find, contains, insert, erase, find-erase, find-insert, contains-find,
}
use farseer.Containers.{
  EpollEvents, Socket, SocketContainer, descriptor, insert_socket, erase_socket, without,
}

module _ {Any : Type 0} where
  -- A socket is found by its identifier exactly if it is found by its file descriptor, which is then
  -- subscribed, and no other file descriptor is.
  pub record IsWellFormed (c : SocketContainer Any) : Type 0 where
    pub by_identifier :
        (i : ℕ) (s : Socket Any)
        → find i c.sockets ≡ some s
        → (s.socket_identifier ≡ i) × (find (descriptor s) c.file_descriptors_to_sockets ≡ some i)
    pub by_descriptor :
        (d i : ℕ)
        → find d c.file_descriptors_to_sockets ≡ some i
        → (s : Socket Any) × (find i c.sockets ≡ some s) × (descriptor s ≡ d)
    pub subscribed : (d : ℕ) → contains d c.subscriptions ≡ contains d c.file_descriptors_to_sockets

module _ {V : Type 0} where
  pub find-erase_found :
      (k j : ℕ) (m : Assoc V) (v : V)
      → find j (erase k m) ≡ some v
      → ((k == j) ≡ false) × (find j m ≡ some v)
  find-erase_found k j m v h = ground (arith, find-erase k j m)

  find-erase_other :
      (k j : ℕ) (m : Assoc V) (v : V)
      → (k == j) ≡ false
      → find j m ≡ some v
      → find j (erase k m) ≡ some v
  find-erase_other k j m v e h = ground (arith, find-erase k j m)

  pub contains-erase :
      (k j : ℕ) (m : Assoc V) → contains j (erase k m) ≡ (if k == j then false else contains j m)
  unfolding contains
  contains-erase k j m = ground (arith, find-erase k j m)

  distinct_keys :
      (f : V → ℕ) (j k : ℕ) (m : Assoc V) (v w : V)
      → find j m ≡ some v
      → find k m ≡ some w
      → (f v == f w) ≡ false
      → (j == k) ≡ false
  distinct_keys f j k m v w found also differ = elim (Bool-cases (j == k)) [
    | inl e ↦
        let same : f v ≡ f w =
          ap f (some_inj (sym found ∙ ap (λ i. find i m) ((==_iff j k).0 e) ∙ also)) in
        absurd (ground arith)
    | inr e ↦ e
  ]

  pub insert_taken_back :
      (k j : ℕ) (v : V) (m : Assoc V)
      → contains k m ≡ false
      → find j (erase k (insert k v m)) ≡ find j m
  insert_taken_back k j v m h =
      ground (arith, find-erase k j (insert k v m), find-insert k j v m h, contains-find k m h)

module _ {Any : Type 0} (invalid : ℕ) where
  erased_identifier :
      (i j : ℕ) (s t : Socket Any) (c : SocketContainer Any)
      → IsWellFormed c
      → find i c.sockets ≡ some s
      → find j (erase i c.sockets) ≡ some t
      → find (descriptor t) (erase (descriptor s) c.file_descriptors_to_sockets) ≡ some j
  erased_identifier i j s t c v e h =
      let kept = find-erase_found i j c.sockets t h in
      let of_s = (v.by_identifier i s e).1 in
      let of_t = (v.by_identifier j t kept.1).1 in
      find-erase_other (descriptor s) (descriptor t) c.file_descriptors_to_sockets j
        (distinct_keys (λ n. n) (descriptor s) (descriptor t) c.file_descriptors_to_sockets i j of_s
          of_t kept.0)
        of_t

  erased_descriptor :
      (i j d : ℕ) (s : Socket Any) (c : SocketContainer Any)
      → IsWellFormed c
      → find i c.sockets ≡ some s
      → find d (erase (descriptor s) c.file_descriptors_to_sockets) ≡ some j
      → (t : Socket Any) × (find j (erase i c.sockets) ≡ some t) × (descriptor t ≡ d)
  erased_descriptor i j d s c v e h =
      let kept = find-erase_found (descriptor s) d c.file_descriptors_to_sockets j h in
      let (t, found, same) = v.by_descriptor d j kept.1 in
      (
        t,
        find-erase_other i j c.sockets t
            (distinct_keys descriptor i j c.sockets s t e found (rw same kept.0)) found,
        same,
      )

  without-IsWellFormed :
      (i : ℕ) (s : Socket Any) (c : SocketContainer Any)
      → IsWellFormed c
      → find i c.sockets ≡ some s
      → IsWellFormed (without invalid i s c)
  unfolding without
  without-IsWellFormed i s c v e = record {
    by_identifier = λ j t h. (
      (v.by_identifier j t (find-erase_found i j c.sockets t h).1).0,
      erased_identifier i j s t c v e h,
    );
    by_descriptor = λ d j h. erased_descriptor i j d s c v e h;
    subscribed = λ d.
        contains-erase (descriptor s) d c.subscriptions
        ∙ ap (λ b. if descriptor s == d then false else b) (v.subscribed d)
        ∙ sym (contains-erase (descriptor s) d c.file_descriptors_to_sockets);
  }

  -- eraseSocket, of a socket that is there or not, keeps the three maps well-formed.
  pub erase_socket-IsWellFormed :
      (i : ℕ) (c : SocketContainer Any) → IsWellFormed c → IsWellFormed (erase_socket invalid i c)
  unfolding erase_socket
  erase_socket-IsWellFormed i c v = elim (Option-cases (find i c.sockets)) [
    | inl e ↦ rw (e, erase_socket) v
    | inr (s, e) ↦ rw (e, erase_socket) (without-IsWellFormed i s c v e)
  ]

module _ {Any : Type 0} where
  -- insertSocket inserts the socket under its identifier and its file descriptor, and subscribes it; or
  -- it throws, and all lookups are as before.
  pub insert_socket_atomic :
      (subscribes : Bool) (events : EpollEvents) (s : Socket Any) (c : SocketContainer Any)
      (i d : ℕ)
      → let r = insert_socket subscribes events s c in
        ((r.0 ≡ ok s)
          × (find i r.1.sockets ≡ (if s.socket_identifier == i then some s else find i c.sockets))
          × (find d r.1.file_descriptors_to_sockets ≡ (
              if descriptor s == d
              then some s.socket_identifier
              else find d c.file_descriptors_to_sockets))
          × (find d r.1.subscriptions
              ≡ (if descriptor s == d then some events else find d c.subscriptions)))
        ⊎ ((e : Error) × (r.0 ≡ err e)
            × (find i r.1.sockets ≡ find i c.sockets)
            × (find d r.1.file_descriptors_to_sockets ≡ find d c.file_descriptors_to_sockets)
            × (find d r.1.subscriptions ≡ find d c.subscriptions))
  unfolding insert_socket find
  insert_socket_atomic subscribes events s c i d =
      elim (Bool-cases (contains s.socket_identifier c.sockets)) [
        | inl e ↦ inr (rw e (_, refl, refl, refl, refl))
        | inr e ↦ elim (Bool-cases (contains (descriptor s) c.file_descriptors_to_sockets)) [
          | inl f ↦
              rw (e, f)
                (inr (_, refl, insert_taken_back s.socket_identifier i s c.sockets e, refl, refl))
          | inr f ↦ elim (Bool-cases subscribes) [
            | inl g ↦
                rw (e, f, g)
                  (inl (
                    refl,
                    find-insert s.socket_identifier i s c.sockets e,
                    find-insert (descriptor s) d s.socket_identifier c.file_descriptors_to_sockets
                        f,
                    refl,
                  ))
            | inr g ↦
                rw (e, f, g)
                  (inr (
                    _,
                    refl,
                    insert_taken_back s.socket_identifier i s c.sockets e,
                    insert_taken_back (descriptor s) d s.socket_identifier
                        c.file_descriptors_to_sockets f,
                    refl,
                  ))
          ]
        ]
      ]
