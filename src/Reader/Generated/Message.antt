-- ===== src/Reader/Generated/Message.antt =====
-- Messages are frames of the reader.
use farseer.Base.{◌+◌, ◌^◌, ◌<◌, ◌≡◌, refl, Bool, List, length, some}
use farseer.Base.Assoc.{find}
use farseer.Wire.Bits.{length-bits}
use farseer.Wire.Buffer.{pack}
use farseer.Wire.Ballotin.{Ballotin, IsBallotin}
use farseer.Wire.Codec.Scalars.{unsigned_bits}
use farseer.Registry.{ProtocolRegistry, message_descriptor}
use farseer.Generated.Metadata.{Metadata, IsMetadata}
use farseer.Generated.Registration.{AnyOf, message_deserializer}
use farseer.Generated.Framing.Layout.{body_bits, body_size, message_bits}
use farseer.Generated.Framing.Read.{message-try_deserialize, message-try_deserialize_short}
use farseer.Reader.{ReadState, consume_message}
use farseer.Reader.Frames.{Frame}
use farseer.Reader.Stream.{IsFrame}
use farseer.Reader.Dispatch.{read_message, read_message_none}
use farseer.Reader.Generated.Rounding.{body-IsRounded}
use farseer.Reader.Generated.Header.{header-IsFrame}

module _ {Any A : Type 0} {b : Ballotin} (law : IsBallotin b) (registry : ProtocolRegistry Any)
    {m : Metadata A} {P : A → Type 0} {encode : A → List Bool} (meta : IsMetadata m P encode)
    (any : AnyOf Any A)
    (known : find m.protocol_identifier registry
      ≡ some (message_descriptor (message_deserializer b any m)))
    (a : A) (r : P a) (fits : length (encode a) < 2 ^ 32) where
  abbrev pub message_frame : Frame Any
  message_frame = record {
    bytes = pack (message_bits m encode a);
    effect = consume_message m.protocol_identifier (any.to_any a);
  }

  -- A message that serializeWithHeader wrote is a frame.
  pub message-IsFrame :
      (Keeps : ReadState Any → Type 0)
      → ((s : ReadState Any)
          → Keeps s
          → Keeps (consume_message m.protocol_identifier (any.to_any a) s))
      → IsFrame b registry Keeps message_frame
  unfolding message_deserializer
  message-IsFrame Keeps keeps =
      header-IsFrame law registry Keeps m.protocol_identifier meta.identifier (body_bits m encode a)
        (body_size m encode a) (consume_message m.protocol_identifier (any.to_any a))
        (body-IsRounded m encode a (unsigned_bits 4 m.protocol_identifier) 4
          (length-bits 32 m.protocol_identifier))
        (record {
          keeps = keeps;
          whole = λ buffer start post s offset k reads e.
              read_message b registry buffer offset m.protocol_identifier (length start) s reads
                (message_deserializer b any m) known (any.to_any a)
                (length start + body_size m encode a)
                (rw (message-try_deserialize law meta a buffer start post r fits e) refl);
          short = λ buffer start part more s offset k reads e whole few.
              read_message_none b registry buffer offset m.protocol_identifier (length start) s
                reads (message_deserializer b any m) known
                (rw
                  (message-try_deserialize_short law meta a buffer start part more r fits e whole
                    few)
                  refl);
        })
