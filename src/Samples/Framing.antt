-- ===== src/Samples/Framing.antt =====
-- The generated functions on concrete bytes.
use farseer.Base.{◌≡◌, refl, true, some, none, [], ◌∷◌, arith}
use farseer.Base.Outcome.{ok}
use farseer.Expected.{error}
use farseer.Wire.Bits.{bits}
use farseer.Wire.Buffer.{unpack, padding}
use farseer.Wire.Ballotin.{list_ballotin, list_ballotin-IsBallotin}
use farseer.Generated.Message
use farseer.Generated.Request
use farseer.Generated.Response
use farseer.Generated.Framing.Read.{message-try_deserialize, message-try_deserialize_short}
use farseer.Generated.Framing.Request.{request-try_deserialize, response-try_deserialize}
use farseer.Samples.Protocol.{
  tick_metadata, ask_metadata, told_metadata, tick-IsMetadata, ask-IsMetadata, told-IsMetadata,
}

message-try_deserialize_example :
    Message.try_deserialize_with_header list_ballotin tick_metadata (0 ∷ 0 ∷ 1 ∷ 2 ∷ 77 ∷ []) 0
    ≡ ok (some (258, 32))
unfolding unpack bits
message-try_deserialize_example =
    message-try_deserialize list_ballotin-IsBallotin tick-IsMetadata 258 (0 ∷ 0 ∷ 1 ∷ 2 ∷ 77 ∷ [])
      [] (bits 8 77) (omega arith) (omega arith) refl

message-try_deserialize_short_example :
    Message.try_deserialize_with_header list_ballotin tick_metadata (0 ∷ 0 ∷ 1 ∷ []) 0 ≡ ok none
unfolding unpack bits
message-try_deserialize_short_example =
    message-try_deserialize_short list_ballotin-IsBallotin tick-IsMetadata 258 (0 ∷ 0 ∷ 1 ∷ []) []
      (bits 24 1) (bits 8 2) (omega arith) (omega arith) refl refl (omega arith)

request-try_deserialize_example :
    Request.try_deserialize_with_header list_ballotin ask_metadata
      (0 ∷ 0 ∷ 0 ∷ 0 ∷ 0 ∷ 0 ∷ 0 ∷ 5 ∷ 128 ∷ [])
      0
    ≡ ok (some (5, true, 65))
unfolding unpack bits
request-try_deserialize_example =
    request-try_deserialize list_ballotin-IsBallotin ask-IsMetadata true 5
      (0 ∷ 0 ∷ 0 ∷ 0 ∷ 0 ∷ 0 ∷ 0 ∷ 5 ∷ 128 ∷ []) [] (bits 7 0) (omega arith) tt (omega arith) refl

response-try_deserialize_example :
    Response.try_deserialize_with_header list_ballotin told_metadata
      (0 ∷ 0 ∷ 0 ∷ 0 ∷ 0 ∷ 0 ∷ 0 ∷ 5 ∷ 0 ∷ 0 ∷ 0 ∷ 65 ∷ 0 ∷ 0 ∷ 0 ∷ 1 ∷ 128 ∷ 0 ∷ 0 ∷ 0 ∷ 0 ∷ [])
      0
    ≡ ok (some (5, error 3 [], 161))
unfolding unpack bits padding
response-try_deserialize_example =
    response-try_deserialize list_ballotin-IsBallotin told-IsMetadata (error 3 []) 5
      (0 ∷ 0 ∷ 0 ∷ 0 ∷ 0 ∷ 0 ∷ 0 ∷ 5 ∷ 0 ∷ 0 ∷ 0 ∷ 65 ∷ 0 ∷ 0 ∷ 0 ∷ 1 ∷ 128 ∷ 0 ∷ 0 ∷ 0 ∷ 0 ∷ []) []
      [] (omega arith) (ground arith) (omega arith) refl
