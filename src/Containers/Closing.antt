-- ===== src/Containers/Closing.antt =====
-- The reports of closed sockets by internal/linux/socket_container.cpp.
use farseer.Base.{
  ℕ, ◌+◌, ◌≤◌, ◌<◌, ◌≡◌, refl, sym, ap, ◌∙◌, Bool, true, false, Option, none, some, none-ne-some,
  List, [], ◌∷◌, ◌++◌, ◌==◌, if◌then◌else◌, arith, Option-cases, Bool-cases, inl, inr, ==_iff,
}
use farseer.Base.Assoc.{find, find-erase}
use farseer.Containers.{Socket, SocketContainer, SocketEvent, erase_socket, without, close_calls}
use farseer.Containers.Lookup.{find-erase_found}
use farseer.Containers.Moves.{identity, is_closing, AllOpen, Keeps}
use farseer.Containers.Invariant.{identity_found}

-- How often a socket was reported closed.
unfoldable pub closed_count : ℕ → List (ℕ × SocketEvent × ℕ) → ℕ
closed_count i [] = 0
closed_count i ((to, event, about) ∷ calls) =
    (if is_closing event then (if about == i then 1 else 0) else 0) + closed_count i calls

unfoldable pub elem : ℕ → List ℕ → Bool
elem i [] = false
elem i (j ∷ js) = if j == i then true else elem i js

closed_count-append :
    (i : ℕ) (calls more : List (ℕ × SocketEvent × ℕ))
    → closed_count i (calls ++ more) ≡ closed_count i calls + closed_count i more
unfolding closed_count
closed_count-append i [] more = omega arith
closed_count-append i (call ∷ calls) more = omega (arith, closed_count-append i calls more)

closed_count_open :
    (i : ℕ) (calls : List (ℕ × SocketEvent × ℕ)) → AllOpen calls → closed_count i calls ≡ 0
unfolding closed_count
closed_count_open i [] h = refl
closed_count_open i ((to, event, about) ∷ calls) (h, hs) =
    rw h (omega (arith, closed_count_open i calls hs))

abbrev one_if : Bool → ℕ
one_if true = 1
one_if false = 0

module _ {Any : Type 0} where
  abbrev pub IsUnused : ℕ → SocketContainer Any → Type 0
  IsUnused i c = (find i c.sockets ≡ none) × (closed_count i c.calls ≡ 0)

  -- `waiting` are identifiers that were handed out for sockets that are not there yet.
  pub record IsReported (waiting : List ℕ) (c : SocketContainer Any) : Type 0 where
    pub waiting_unused : (i : ℕ) → elem i waiting ≡ true → IsUnused i c
    pub waiting_below : (i : ℕ) → elem i waiting ≡ true → i < c.socket_identifier_sequencer
    pub next_unused : (i : ℕ) → c.socket_identifier_sequencer ≤ i → IsUnused i c
    pub still_open :
        (i : ℕ) (s : Socket Any) → find i c.sockets ≡ some s → closed_count i c.calls ≡ 0
    pub at_most_once : (i : ℕ) → closed_count i c.calls ≤ 1

  identity_missing : (o o' : Option (Socket Any)) → identity o' ≡ identity o → o ≡ none → o' ≡ none
  identity_missing o none same e = refl
  identity_missing o (some t) same e = absurd (none-ne-some (sym (same ∙ ap identity e)))

  Keeps-closed_count :
      (c c' : SocketContainer Any) (i : ℕ)
      → Keeps c c'
      → closed_count i c'.calls ≡ closed_count i c.calls
  Keeps-closed_count c c' i k =
      ap (closed_count i) k.calls_kept
      ∙ omega (
        arith,
        closed_count-append i c.calls k.new_calls,
        closed_count_open i k.new_calls k.closes,
      )

  Keeps-IsUnused : (c c' : SocketContainer Any) (i : ℕ) → Keeps c c' → IsUnused i c → IsUnused i c'
  Keeps-IsUnused c c' i k (u, v) = (
    identity_missing (find i c.sockets) (find i c'.sockets) (k.sockets_kept i) u,
    Keeps-closed_count c c' i k ∙ v,
  )

  pub Keeps-IsReported :
      (waiting : List ℕ) (c c' : SocketContainer Any)
      → Keeps c c'
      → IsReported waiting c
      → IsReported waiting c'
  Keeps-IsReported waiting c c' k v = record {
    waiting_unused = λ i h. Keeps-IsUnused c c' i k (v.waiting_unused i h);
    waiting_below = λ i h. omega (arith, v.waiting_below i h, k.sequencer_kept);
    next_unused =
        λ i h. Keeps-IsUnused c c' i k (v.next_unused i (omega (arith, k.sequencer_kept)));
    still_open = λ i t h.
        let (s, found, same_identifier, same_listening, same_descriptor) =
          identity_found (find i c.sockets) (find i c'.sockets) t (k.sockets_kept i) h in
        Keeps-closed_count c c' i k ∙ v.still_open i s found;
    at_most_once = λ i. omega (arith, v.at_most_once i, Keeps-closed_count c c' i k);
  }

  close_calls-closed_count :
      (invalid i j : ℕ) (s : Socket Any) (c : SocketContainer Any)
      → closed_count i (close_calls invalid j s c) ≤ one_if (j == i)
  unfolding close_calls closed_count
  close_calls-closed_count invalid i j s c = ground arith

  module _ (invalid j : ℕ) (s : Socket Any) (c : SocketContainer Any)
      (e : find j c.sockets ≡ some s) where
    without-closed_count :
        (i : ℕ)
        → closed_count i (without invalid j s c).calls ≤ closed_count i c.calls + one_if (j == i)
    unfolding without
    without-closed_count i = omega (
      arith,
      closed_count-append i c.calls (close_calls invalid j s c),
      close_calls-closed_count invalid i j s c,
    )

    other : (i : ℕ) → find i c.sockets ≡ none → (j == i) ≡ false
    other i u = elim (Bool-cases (j == i)) [
      | inl h ↦
          absurd (none-ne-some (sym u ∙ ap (λ k. find k c.sockets) (sym ((==_iff j i).0 h)) ∙ e))
      | inr h ↦ h
    ]

    added_none : (i : ℕ) → (j == i) ≡ false → one_if (j == i) ≡ 0
    added_none i h = ap one_if h

    without-IsUnused : (i : ℕ) → IsUnused i c → IsUnused i (without invalid j s c)
    unfolding without
    without-IsUnused i (u, v) = (
      find-erase j i c.sockets ∙ ap (λ b. if b then none else find i c.sockets) (other i u) ∙ u,
      omega (arith, without-closed_count i, added_none i (other i u)),
    )

    without-IsReported :
        (waiting : List ℕ) → IsReported waiting c → IsReported waiting (without invalid j s c)
    unfolding without
    without-IsReported waiting v = record {
      waiting_unused = λ i h. without-IsUnused i (v.waiting_unused i h);
      waiting_below = v.waiting_below;
      next_unused = λ i h. without-IsUnused i (v.next_unused i h);
      still_open = λ i t h.
          let kept = find-erase_found j i c.sockets t h in
          omega (arith, without-closed_count i, added_none i kept.0, v.still_open i t kept.1);
      at_most_once = λ i. elim (Bool-cases (j == i)) [
        | inl h ↦
            let none_yet : closed_count i c.calls ≡ 0 =
              ap (λ k. closed_count k c.calls) (sym ((==_iff j i).0 h)) ∙ v.still_open j s e in
            omega (arith, without-closed_count i, ap one_if h)
        | inr h ↦ omega (arith, without-closed_count i, added_none i h, v.at_most_once i)
      ];
    }

  pub erase_socket-IsReported :
      (invalid j : ℕ) (waiting : List ℕ) (c : SocketContainer Any)
      → IsReported waiting c
      → IsReported waiting (erase_socket invalid j c)
  unfolding erase_socket
  erase_socket-IsReported invalid j waiting c v = elim (Option-cases (find j c.sockets)) [
    | inl e ↦ rw (e, erase_socket) v
    | inr (s, e) ↦ rw (e, erase_socket) (without-IsReported invalid j s c e waiting v)
  ]
