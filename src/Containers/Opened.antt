-- ===== src/Containers/Opened.antt =====
-- The reports of closed sockets by internal/linux/socket_container.cpp where sockets are inserted.
use farseer.Containers.Closing.{
  closed_count, elem, IsUnused, IsReported, Keeps-IsReported, erase_socket-IsReported,
}
use farseer.Base.{
  ◌⊎◌, ℕ, ◌+◌, ◌≤◌, ◌<◌, ◌≡◌, refl, sym, ap, ◌∙◌, Bool, true, false, none, some, List, ◌==◌,
  if◌then◌else◌, arith, Bool-cases, inl, inr, ==_iff,
}
use farseer.Base.Assoc.{find}
use farseer.Sequencer.{generate, u64_mod}
use farseer.Containers.{Socket, SocketContainer, EpollEvents, insert_socket, erase_socket, without}
use farseer.Containers.Lookup.{insert_socket_atomic}
use farseer.Containers.Operations.{new_socket, readable}
use farseer.Containers.Moves.{Moves, keeps, accepts, erases, stays}

pub generate_here : (n : ℕ) → (generate n).0 ≡ n
unfolding generate
generate_here n = refl

pub generate_next : (n : ℕ) → n + 1 < u64_mod → (generate n).1 ≡ n + 1
unfolding generate
generate_next n h = omega arith

below_other : (i j : ℕ) → i < j → (j == i) ≡ false
below_other i j h = ground arith

module _ {Any : Type 0} where
  insert_socket_kept :
      (subscribes : Bool) (events : EpollEvents) (s : Socket Any) (c : SocketContainer Any)
      → ((insert_socket subscribes events s c).1.calls ≡ c.calls)
        × ((insert_socket subscribes events s c).1.socket_identifier_sequencer
            ≡ c.socket_identifier_sequencer)
  unfolding insert_socket
  insert_socket_kept subscribes events s c = ground arith

  insert_socket_found :
      (subscribes : Bool) (events : EpollEvents) (s t : Socket Any) (c : SocketContainer Any)
      (i : ℕ)
      → find i (insert_socket subscribes events s c).1.sockets ≡ some t
      → (s.socket_identifier ≡ i) ⊎ (find i c.sockets ≡ some t)
  insert_socket_found subscribes events s t c i h =
      elim (insert_socket_atomic subscribes events s c i 0) [
        | inl (r, found, f, g) ↦ elim (Bool-cases (s.socket_identifier == i)) [
          | inl same ↦ inl ((==_iff s.socket_identifier i).0 same)
          | inr other ↦
              inr (sym (found ∙ ap (λ b. if b then some s else find i c.sockets) other) ∙ h)
        ]
        | inr (x, r, found, f, g) ↦ inr (sym found ∙ h)
      ]

  insert_socket_missing :
      (subscribes : Bool) (events : EpollEvents) (s : Socket Any) (c : SocketContainer Any) (i : ℕ)
      → (s.socket_identifier == i) ≡ false
      → find i c.sockets ≡ none
      → find i (insert_socket subscribes events s c).1.sockets ≡ none
  insert_socket_missing subscribes events s c i other h =
      elim (insert_socket_atomic subscribes events s c i 0) [
        | inl (r, found, f, g) ↦ found ∙ ap (λ b. if b then some s else find i c.sockets) other ∙ h
        | inr (x, r, found, f, g) ↦ found ∙ h
      ]

  -- A socket under an identifier that is unused, and is no longer handed out.
  pub insert_socket-IsReported :
      (subscribes : Bool) (events : EpollEvents) (s : Socket Any) (waiting waiting' : List ℕ)
      (next : ℕ) (c : SocketContainer Any)
      → IsReported waiting c
      → IsUnused s.socket_identifier c
      → s.socket_identifier < next
      → c.socket_identifier_sequencer ≤ next
      → ((i : ℕ)
          → elem i waiting' ≡ true
          → (elem i waiting ≡ true) × ((s.socket_identifier == i) ≡ false))
      → IsReported waiting'
          (insert_socket subscribes events s (record c { socket_identifier_sequencer = next })).1
  insert_socket-IsReported subscribes events s waiting waiting' next c v unused below grows fewer =
      let c' : SocketContainer Any = record c { socket_identifier_sequencer = next } in
      let (same_calls, same_next) = insert_socket_kept subscribes events s c' in
      let unused_kept = λ (i : ℕ) (other : (s.socket_identifier == i) ≡ false) (u : IsUnused i c).
        let r : IsUnused i (insert_socket subscribes events s c').1 = (
          insert_socket_missing subscribes events s c' i other u.0,
          ap (closed_count i) same_calls ∙ u.1,
        ) in
        r in
      record {
        waiting_unused =
            λ i h. let (w, other) = fewer i h in unused_kept i other (v.waiting_unused i w);
        waiting_below =
            λ i h. let (w, other) = fewer i h in omega (arith, v.waiting_below i w, same_next);
        next_unused = λ i h.
            let above : next ≤ i = omega (arith, same_next) in
            unused_kept i (ground arith) (v.next_unused i (omega arith));
        still_open = λ i t h. elim (insert_socket_found subscribes events s t c' i h) [
          | inl same ↦
              ap (closed_count i) same_calls
              ∙ ap (λ k. closed_count k c.calls) (sym same)
              ∙ unused.1
          | inr found ↦ ap (closed_count i) same_calls ∙ v.still_open i t found
        ];
        at_most_once = λ i. omega (arith, ap (closed_count i) same_calls, v.at_most_once i);
      }

  erase_socket_next :
      (invalid i : ℕ) (c : SocketContainer Any)
      → (erase_socket invalid i c).socket_identifier_sequencer ≡ c.socket_identifier_sequencer
  unfolding erase_socket without
  erase_socket_next invalid i c = ground arith

  -- No more than 2^64 identifiers are handed out.
  pub Moves-IsReported :
      (invalid : ℕ) (waiting : List ℕ) (c : SocketContainer Any) (n : ℕ) (c' : SocketContainer Any)
      → Moves invalid c n c'
      → c.socket_identifier_sequencer + n < u64_mod
      → IsReported waiting c
      → IsReported waiting c' × (c'.socket_identifier_sequencer ≡ c.socket_identifier_sequencer + n)
  Moves-IsReported invalid waiting c _ _ stays bound v = (v, omega arith)
  Moves-IsReported invalid waiting c n e (keeps {d = d} m k) bound v =
      let (w, at) = Moves-IsReported invalid waiting c n d m bound v in
      (Keeps-IsReported waiting d e k w, k.sequencer_kept ∙ at)
  Moves-IsReported invalid waiting c n _ (erases {d = d} identifier m) bound v =
      let (w, at) = Moves-IsReported invalid waiting c n d m bound v in
      (
        erase_socket-IsReported invalid identifier waiting d w,
        erase_socket_next invalid identifier d ∙ at,
      )
  Moves-IsReported invalid waiting c _ _ (accepts {n = n} {d = d} subscribes socket listening m)
        bound v =
      let (w, at) = Moves-IsReported invalid waiting c n d m (omega arith) v in
      let here = generate_here d.socket_identifier_sequencer in
      let next = generate_next d.socket_identifier_sequencer (omega arith) in
      let s = new_socket {Any = Any} (generate d.socket_identifier_sequencer).0 listening socket in
      (
        insert_socket-IsReported subscribes readable s waiting waiting
            (generate d.socket_identifier_sequencer).1 d w (w.next_unused _ (omega arith))
            (omega arith) (omega arith)
            (λ i h. (
              h,
              below_other i (generate d.socket_identifier_sequencer).0
                  (omega (arith, w.waiting_below i h)),
            )),
        omega (
          arith,
          (insert_socket_kept subscribes readable s (record d {
            socket_identifier_sequencer = (generate d.socket_identifier_sequencer).1;
          })).1,
        ),
      )
