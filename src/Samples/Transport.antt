-- ===== src/Samples/Transport.antt =====
-- A message on its way through a socket that takes its bytes in parts.
use farseer.Base.{◌≡◌, refl, true, some, none-ne-some, List, [], ◌∷◌, ◌++◌, length, arith}
use farseer.Base.Outcome.{ok}
use farseer.Base.Assoc.{find}
use farseer.Wire.Bits.{bits, value}
use farseer.Wire.Buffer.{pack}
use farseer.Wire.Ballotin.{list_ballotin, list_ballotin-IsBallotin}
use farseer.Reader.{ReadState, throws_wide, read_inbound_bytes}
use farseer.Reader.Frames.{stream, receive}
use farseer.Reader.Generated.Delivery.{message, Answers, consume_items}
use farseer.Sockets.{LinuxSocket, connected, sent, send_would_block, can_transfer}
use farseer.Sockets.Sending.{Call, after_calls, taken_all, given, after_calls_kept}
use farseer.Sockets.Receiving.{answers_of, last_answer, at_end, receive_bytes_lem}
use farseer.Sockets.{receive_bytes}
use farseer.Sockets.Transport.{transport}
use farseer.Samples.Protocol.{Held, protocols}
use farseer.Samples.Service.{registry, registry-Knows}

abbrev sender : LinuxSocket
sender = record {
  outgoing_buffer = [];
  ip_address = [];
  port = 80;
  socket = 3;
  socket_type = connected;
}

-- Two bytes are taken, then none, then the rest.
abbrev calls : List Call
calls =
    (0 ∷ 0 ∷ 0 ∷ 7 ∷ 0 ∷ [], λ bytes. sent 2)
    ∷ (0 ∷ 1 ∷ 2 ∷ [], λ bytes. send_would_block)
    ∷ ([], λ bytes. sent (length bytes))
    ∷ []

abbrev start : ReadState Held
start = record {
  reader = record {
    inbound_message_consumers = (7, λ x. throws_wide) ∷ [];
    inbound_request_consumers = [];
    inbound_one_shot_response_consumers = [];
  };
  outbound_bytes = [];
  events = [];
}

nobody-Answers : Answers list_ballotin protocols []
unfolding find
nobody-Answers consumer q found = absurd (none-ne-some found)

transport_example :
    receive
      (read_inbound_bytes list_ballotin registry)
      ((0 ∷ 0 ∷ []) ∷ (0 ∷ []) ∷ (7 ∷ 0 ∷ 0 ∷ 1 ∷ 2 ∷ []) ∷ [])
      []
      start
    ≡ (ok tt, [], consume_items list_ballotin protocols (message 258 ∷ []) start)
unfolding stream pack bits value given after_calls taken_all can_transfer
transport_example =
    transport list_ballotin protocols list_ballotin-IsBallotin registry registry-Knows []
      nobody-Answers (message 258 ∷ []) calls sender
      ((0 ∷ 0 ∷ []) ∷ (0 ∷ []) ∷ (7 ∷ 0 ∷ 0 ∷ 1 ∷ 2 ∷ []) ∷ []) start (ground arith)
      (record { same = refl; bytes = tt }) refl refl refl refl refl

after_calls_kept_example :
    taken_all calls sender ++ (after_calls calls sender).outgoing_buffer
    ≡ 0 ∷ 0 ∷ 0 ∷ 7 ∷ 0 ∷ 0 ∷ 1 ∷ 2 ∷ []
unfolding given can_transfer
after_calls_kept_example = after_calls_kept calls sender refl

-- The other end closes behind two reads.
receive_bytes_lem_example :
    receive_bytes (answers_of ((1 ∷ 2 ∷ []) ∷ (3 ∷ []) ∷ []) (last_answer at_end ∷ [])) sender
    ≡ some (ok (1 ∷ 2 ∷ 3 ∷ [], true))
unfolding can_transfer
receive_bytes_lem_example = receive_bytes_lem ((1 ∷ 2 ∷ []) ∷ (3 ∷ []) ∷ []) at_end [] sender refl
