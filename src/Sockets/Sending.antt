-- ===== src/Sockets/Sending.antt =====
-- No byte is lost, repeated or moved on its way to the kernel.
use farseer.Base.{
  ◌∙◌, ap, append_assoc, arith, drop, ◌==◌, ◌∷◌, append-nil, sym, ==_iff, drop-length-append,
  Bool-cases, inr, inl, ℕ, ◌≤◌, ◌≡◌, ◌⊎◌, refl, true, if◌then◌else◌, List, [], ◌++◌, length, take,
  take-append-drop,
}
use farseer.Sockets.{
  ok, LinuxSocket, SendResult, sent, send_would_block, send_failed, can_transfer, is_empty,
  send_buffer, send_bytes,
}

-- ::send takes no more than it is given.
abbrev pub TakesAtMost : (List ℕ → SendResult) → Type 0
TakesAtMost send = (bytes : List ℕ) (n : ℕ) → send bytes ≡ sent n → n ≤ length bytes

-- What the kernel takes of a buffer that is not empty.
unfoldable pub taken_of : SendResult → List ℕ → List ℕ
taken_of (sent n) bytes = take n bytes
taken_of send_would_block bytes = []
taken_of send_failed bytes = []

unfoldable pub taken : (List ℕ → SendResult) → List ℕ → LinuxSocket → List ℕ
unfolding taken_of is_empty
taken send bytes s =
    let buffer = s.outgoing_buffer ++ bytes in
    if is_empty buffer then [] else taken_of (send buffer) buffer

SendResult-cases :
    (r : SendResult) → ((n : ℕ) × (r ≡ sent n)) ⊎ ((r ≡ send_would_block) ⊎ (r ≡ send_failed))
SendResult-cases (sent n) = inl (n, refl)
SendResult-cases send_would_block = inr (inl refl)
SendResult-cases send_failed = inr (inr refl)

send_buffer_kept :
    (send : List ℕ → SendResult) (s : LinuxSocket)
    → (taken_of (send s.outgoing_buffer) s.outgoing_buffer ++ (send_buffer send s).1.outgoing_buffer
        ≡ s.outgoing_buffer)
      × ((send_buffer send s).1.socket_type ≡ s.socket_type)
unfolding taken_of send_buffer
send_buffer_kept send s = elim (SendResult-cases (send s.outgoing_buffer)) [
  | inl (n, e) ↦
      (rw (e, send_buffer) (take-append-drop n s.outgoing_buffer), rw (e, send_buffer) refl)
  | inr (inl e) ↦ (rw (e, send_buffer) refl, rw (e, send_buffer) refl)
  | inr (inr e) ↦ (rw (e, send_buffer) refl, rw (e, send_buffer) refl)
]

-- What the kernel takes and what is left in the buffer are, in this order, what was in the buffer and
-- what is added; the socket is of the type that it was.
pub send_bytes_kept :
    (send : List ℕ → SendResult) (bytes : List ℕ) (s : LinuxSocket)
    → can_transfer s.socket_type ≡ true
    → (taken send bytes s ++ (send_bytes send bytes s).1.outgoing_buffer
        ≡ s.outgoing_buffer ++ bytes)
      × ((send_bytes send bytes s).1.socket_type ≡ s.socket_type)
unfolding taken send_bytes
send_bytes_kept send bytes s can =
    let s' = record s { outgoing_buffer = s.outgoing_buffer ++ bytes } in
    elim (Bool-cases (is_empty s'.outgoing_buffer)) [
      | inl e ↦ (rw (can, send_bytes, e, taken) refl, rw (can, send_bytes, e) refl)
      | inr e ↦
          let (order, same) = send_buffer_kept send s' in
          (rw (can, send_bytes, e, taken) order, rw (can, send_bytes, e) same)
    ]

drop_all : (n : ℕ) (xs : List ℕ) → (n == length xs) ≡ true → drop n xs ≡ []
drop_all n xs h =
    let same : length xs ≡ n = sym ((==_iff n (length xs)).0 h) in
    let whole : xs ++ [] ≡ xs = append-nil xs in
    ap (λ (k : ℕ). drop k xs) (sym same)
    ∙ ap (drop (length xs)) (sym whole)
    ∙ drop-length-append xs []

is_empty_nil : (xs : List ℕ) → is_empty xs ≡ true → xs ≡ []
unfolding is_empty
is_empty_nil [] h = refl
is_empty_nil (x ∷ xs) h = cc

send_buffer_exhausted :
    (send : List ℕ → SendResult) (s : LinuxSocket)
    → (send_buffer send s).0 ≡ ok true
    → (send_buffer send s).1.outgoing_buffer ≡ []
unfolding send_buffer
send_buffer_exhausted send s h = elim (SendResult-cases (send s.outgoing_buffer)) [
  | inl (n, e) ↦ rw (e, send_buffer) (drop_all n s.outgoing_buffer (ground arith))
  | inr (inl e) ↦ absurd (ground arith)
  | inr (inr e) ↦ absurd (ground arith)
]

-- `true` is returned only where the kernel has taken all of the bytes, so that nothing waits for the
-- socket to become writable.
pub send_bytes_exhausted :
    (send : List ℕ → SendResult) (bytes : List ℕ) (s : LinuxSocket)
    → (send_bytes send bytes s).0 ≡ ok true
    → (send_bytes send bytes s).1.outgoing_buffer ≡ []
unfolding send_bytes
send_bytes_exhausted send bytes s h =
    let s' = record s { outgoing_buffer = s.outgoing_buffer ++ bytes } in
    elim (Bool-cases (can_transfer s.socket_type)) [
      | inr cannot ↦ absurd (ground arith)
      | inl can ↦ elim (Bool-cases (is_empty s'.outgoing_buffer)) [
        | inl e ↦ rw (can, send_bytes, e) (is_empty_nil s'.outgoing_buffer e)
        | inr e ↦
            let h' : (send_buffer send s').0 ≡ ok true = ground arith in
            rw (can, send_bytes, e) (send_buffer_exhausted send s' h')
      ]
    ]

-- A call of sendBytes, with the kernel's answers to it.
abbrev pub Call : Type 0
Call = List ℕ × (List ℕ → SendResult)

unfoldable pub after_calls : List Call → LinuxSocket → LinuxSocket
unfolding send_bytes
after_calls [] s = s
after_calls ((bytes, send) ∷ calls) s = after_calls calls (send_bytes send bytes s).1

unfoldable pub taken_all : List Call → LinuxSocket → List ℕ
unfolding send_bytes taken
taken_all [] s = []
taken_all ((bytes, send) ∷ calls) s =
    taken send bytes s ++ taken_all calls (send_bytes send bytes s).1

unfoldable pub given : List Call → List ℕ
given [] = []
given ((bytes, send) ∷ calls) = bytes ++ given calls

-- Over any number of calls, whatever part of its buffer the kernel takes at each, what it has taken
-- and what is left in the buffer are, in this order, what the buffer had and what was given.
pub after_calls_kept :
    (calls : List Call) (s : LinuxSocket)
    → can_transfer s.socket_type ≡ true
    → taken_all calls s ++ (after_calls calls s).outgoing_buffer ≡ s.outgoing_buffer ++ given calls
unfolding after_calls taken_all given
after_calls_kept [] s can = sym (append-nil s.outgoing_buffer)
after_calls_kept ((bytes, send) ∷ calls) s can =
    let (order, same) = send_bytes_kept send bytes s can in
    let s' = (send_bytes send bytes s).1 in
    append_assoc (taken send bytes s) (taken_all calls s') (after_calls calls s').outgoing_buffer
    ∙ ap (λ xs. taken send bytes s ++ xs) (after_calls_kept calls s' (ap can_transfer same ∙ can))
    ∙ sym (append_assoc (taken send bytes s) s'.outgoing_buffer (given calls))
    ∙ ap (λ xs. xs ++ given calls) order
    ∙ append_assoc s.outgoing_buffer bytes (given calls)
