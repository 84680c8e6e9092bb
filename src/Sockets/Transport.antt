-- ===== src/Sockets/Transport.antt =====
-- From sendBytes of the sender's socket, in whatever parts the kernel takes and hands over the bytes,
-- to the consumers of the receiver.
use farseer.Base.{ℕ, ◌≡◌, sym, ap, ◌∙◌, true, List, [], ◌++◌, append-nil, concat, All}
use farseer.Base.Outcome.{ok}
use farseer.Base.Assoc.{Assoc}
use farseer.Wire.Ballotin.{Ballotin, IsBallotin}
use farseer.Registry.{ProtocolRegistry}
use farseer.Reader.{ReadState, read_inbound_bytes}
use farseer.Reader.Frames.{stream, receive}
use farseer.Reader.Generated.Answers.{IsServing}
use farseer.Reader.Generated.Delivery.{
  Item, Protocols, CanSend, Knows, Answers, item_frames, consume_items, delivery,
}
use farseer.Sockets.{LinuxSocket, can_transfer}
use farseer.Sockets.Sending.{Call, after_calls, taken_all, given, after_calls_kept}

-- The kernel has taken exactly what was given, once the buffer is empty.
pub taken_all-given :
    (calls : List Call) (s : LinuxSocket)
    → can_transfer s.socket_type ≡ true
    → s.outgoing_buffer ≡ []
    → (after_calls calls s).outgoing_buffer ≡ []
    → taken_all calls s ≡ given calls
taken_all-given calls s can empty drained =
    sym (append-nil (taken_all calls s))
    ∙ ap (λ xs. taken_all calls s ++ xs) (sym drained)
    ∙ after_calls_kept calls s can
    ∙ ap (λ xs. xs ++ given calls) empty

module _ {Any A Q R : Type 0} (b : Ballotin) (p : Protocols Any A Q R) (law : IsBallotin b)
    (registry : ProtocolRegistry Any) (knows : Knows b p registry) (consumers : Assoc (Any → Any))
    (answers : Answers b p consumers) where
  -- A sender gives the serialized messages, requests and responses to its socket in any number of
  -- sendBytes calls, the kernel takes any part of the buffer at each, and the buffer ends empty. The
  -- receiver gets what the kernel took, cut into reads anyhow. Then it ends with no error and no byte
  -- left, having consumed each item, once and in order. The sender's socket is accepted or connected
  -- and its buffer is empty at first; the other conditions are those of `delivery`.
  pub transport :
      (is : List (Item A Q R)) (calls : List Call) (sender : LinuxSocket) (chunks : List (List ℕ))
      (s : ReadState Any)
      → All (CanSend b p) is
      → IsServing consumers s
      → can_transfer sender.socket_type ≡ true
      → sender.outgoing_buffer ≡ []
      → given calls ≡ stream (item_frames b p is)
      → (after_calls calls sender).outgoing_buffer ≡ []
      → concat chunks ≡ taken_all calls sender
      → receive (read_inbound_bytes b registry) chunks [] s ≡ (ok tt, [], consume_items b p is s)
  transport is calls sender chunks s c v can empty all drained arrives =
      (delivery b p law registry knows consumers answers is s chunks c v
        (arrives ∙ taken_all-given calls sender can empty drained ∙ all)).1
