-- ===== src/Containers/Invariant.antt =====
-- Well-formed containers of internal/linux/socket_container.cpp, over all that happens to them.
use farseer.Base.{none-ne-some, ℕ, ◌≡◌, refl, sym, ap, ◌∙◌, Option, none, some, some_inj}
use farseer.Base.Assoc.{find, contains}
use farseer.Containers.{Socket, SocketContainer, descriptor}
use farseer.Containers.Lookup.{IsWellFormed, erase_socket-IsWellFormed}
use farseer.Containers.Insert.{insert_socket-IsWellFormed, same-IsWellFormed}
use farseer.Containers.Moves.{identity, Keeps, Moves, keeps, accepts, erases, stays}

module _ {Any : Type 0} where
  pub identity_found :
      (o o' : Option (Socket Any)) (t : Socket Any)
      → identity o' ≡ identity o
      → o' ≡ some t
      → (s : Socket Any) × (o ≡ some s)
        × (t.socket_identifier ≡ s.socket_identifier)
        × (t.listening_socket_identifier ≡ s.listening_socket_identifier)
        × (descriptor t ≡ descriptor s)
  identity_found none o' t same e = absurd (none-ne-some (sym same ∙ ap identity e))
  identity_found (some s) o' t same e =
      let p = some_inj (sym (ap identity e) ∙ same) in
      (s, refl, ap (λ x. x.0) p, ap (λ x. x.1) p, ap (λ x. x.2) p)

  pub Keeps-IsWellFormed :
      (c c' : SocketContainer Any) → Keeps c c' → IsWellFormed c → IsWellFormed c'
  Keeps-IsWellFormed c c' k v = record {
    by_identifier = λ i t h.
        let (s, found, same_identifier, same_listening, same_descriptor) =
          identity_found (find i c.sockets) (find i c'.sockets) t (k.sockets_kept i) h in
        let (w, x) = v.by_identifier i s found in
        (
          same_identifier ∙ w,
          ap (find (descriptor t)) k.descriptors_kept
              ∙ ap (λ d. find d c.file_descriptors_to_sockets) same_descriptor
              ∙ x,
        );
    by_descriptor = λ d i h.
        let (s, found, same) = v.by_descriptor d i (sym (ap (find d) k.descriptors_kept) ∙ h) in
        let (t, found', same_identifier, same_listening, same_descriptor) =
          identity_found (find i c'.sockets) (find i c.sockets) s (sym (k.sockets_kept i)) found in
        (t, found', sym same_descriptor ∙ same);
    subscribed =
        λ d. k.subscriptions_kept d ∙ v.subscribed d ∙ sym (ap (contains d) k.descriptors_kept);
  }

  pub Moves-IsWellFormed :
      (invalid : ℕ) (c : SocketContainer Any) (n : ℕ) (c' : SocketContainer Any)
      → Moves invalid c n c'
      → IsWellFormed c
      → IsWellFormed c'
  Moves-IsWellFormed invalid c _ _ stays v = v
  Moves-IsWellFormed invalid c n e (keeps {d = d} m k) v =
      Keeps-IsWellFormed d e k (Moves-IsWellFormed invalid c n d m v)
  Moves-IsWellFormed invalid c _ _ (accepts {n = n} {d = d} subscribes socket listening m) v =
      insert_socket-IsWellFormed subscribes _ _ _
        (same-IsWellFormed d _ (λ i. refl) (λ d. refl) refl (Moves-IsWellFormed invalid c n d m v))
  Moves-IsWellFormed invalid c n _ (erases {d = d} identifier m) v =
      erase_socket-IsWellFormed invalid identifier d (Moves-IsWellFormed invalid c n d m v)
