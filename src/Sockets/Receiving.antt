-- ===== src/Sockets/Receiving.antt =====
-- A receive call gives all that the kernel has, in order.
use farseer.Base.{
  ℕ, ◌≡◌, refl, ap, sym, ◌∙◌, Bool, true, false, some, List, [], ◌∷◌, ◌++◌, append_assoc,
  append-nil, concat,
}
use farseer.Base.Outcome.{Outcome, ok, err, internal_socket_error}
use farseer.Sockets.{
  LinuxSocket, ReceiveResult, received, receive_closed, receive_would_block, receive_failed,
  can_transfer, receive_loop, receive_bytes,
}

-- The answer behind the last bytes.
pub data LastAnswer : Type 0 where
  at_end nothing_more broken : LastAnswer

abbrev pub last_answer : LastAnswer → ReceiveResult
last_answer at_end = receive_closed
last_answer nothing_more = receive_would_block
last_answer broken = receive_failed

abbrev pub answers_of : List (List ℕ) → List ReceiveResult → List ReceiveResult
answers_of [] rest = rest
answers_of (chunk ∷ chunks) rest = received chunk ∷ answers_of chunks rest

abbrev pub outcome_of : LastAnswer → List ℕ → Outcome (List ℕ × Bool)
outcome_of at_end bytes = ok (bytes, true)
outcome_of nothing_more bytes = ok (bytes, false)
outcome_of broken bytes = err internal_socket_error

receive_loop_lem :
    (chunks : List (List ℕ)) (last : LastAnswer) (rest : List ReceiveResult) (bytes : List ℕ)
    → receive_loop (answers_of chunks (last_answer last ∷ rest)) bytes
      ≡ some (outcome_of last (bytes ++ concat chunks))
unfolding receive_loop
receive_loop_lem [] at_end rest bytes =
    ap (λ xs. some (outcome_of at_end xs)) (sym (append-nil bytes))
receive_loop_lem [] nothing_more rest bytes =
    ap (λ xs. some (outcome_of nothing_more xs)) (sym (append-nil bytes))
receive_loop_lem [] broken rest bytes = refl
receive_loop_lem (chunk ∷ chunks) last rest bytes =
    receive_loop_lem chunks last rest (bytes ++ chunk)
    ∙ ap (λ xs. some (outcome_of last xs)) (append_assoc bytes chunk (concat chunks))

-- On a socket that is accepted or connected, receiveBytes ends at the first answer that is no bytes,
-- and returns all bytes in front of it in order, with whether the other end closed the connection; an
-- error of the kernel is thrown.
pub receive_bytes_lem :
    (chunks : List (List ℕ)) (last : LastAnswer) (rest : List ReceiveResult) (s : LinuxSocket)
    → can_transfer s.socket_type ≡ true
    → receive_bytes (answers_of chunks (last_answer last ∷ rest)) s
      ≡ some (outcome_of last (concat chunks))
unfolding receive_bytes
receive_bytes_lem chunks last rest s can =
    rw (can, receive_bytes) (receive_loop_lem chunks last rest [])
