-- ===== src/Samples/Protocol.antt =====
-- A message with a u32, a request with a boolean, and its response with a string.
use farseer.Base.{ℕ, refl, Bool, true, false, some, none, List, arith}
use farseer.Expected.{Expected}
use farseer.Wire.Bits.{length-bits}
use farseer.Wire.Ballotin.{list_ballotin, list_ballotin-IsBallotin}
use farseer.Wire.Serializer.{unsigned_serializer, bool_serializer, string_serializer}
use farseer.Wire.Codec.Scalars.{
  InUnsignedRange, unsigned_bits, bool_bits, unsigned-IsCodec, bool-IsCodec,
}
use farseer.Wire.Codec.Sequences.{StringInRange, string_bits, string-IsCodec}
use farseer.Generated.Metadata.{Metadata, IsMetadata}
use farseer.Generated.Registration.{AnyOf}
use farseer.Reader.Generated.Delivery.{Protocols}

pub data Held : Type 0 where
  tick : ℕ → Held
  ask : Bool → Held
  told : Expected (List ℕ) → Held

abbrev pub tick_metadata : Metadata ℕ
tick_metadata = record {
  protocol_identifier = 7;
  payload = unsigned_serializer list_ballotin 4;
  has_static_size = true;
  static_number_of_bits = 32;
}

abbrev pub ask_metadata : Metadata Bool
ask_metadata = record {
  protocol_identifier = 300;
  payload = bool_serializer list_ballotin;
  has_static_size = true;
  static_number_of_bits = 1;
}

abbrev pub told_metadata : Metadata (List ℕ)
told_metadata = record {
  protocol_identifier = 70000;
  payload = string_serializer list_ballotin;
  has_static_size = false;
  static_number_of_bits = 0;
}

abbrev pub tick_any : AnyOf Held ℕ
tick_any = record {
  to_any = tick;
  cast = λ x. elim x [ tick n ↦ some n | ask q ↦ none | told e ↦ none ];
  cast_to_any = λ n. refl;
}

abbrev pub ask_any : AnyOf Held Bool
ask_any = record {
  to_any = ask;
  cast = λ x. elim x [ tick n ↦ none | ask q ↦ some q | told e ↦ none ];
  cast_to_any = λ q. refl;
}

abbrev pub told_any : AnyOf Held (Expected (List ℕ))
told_any = record {
  to_any = told;
  cast = λ x. elim x [ tick n ↦ none | ask q ↦ none | told e ↦ some e ];
  cast_to_any = λ e. refl;
}

pub tick-IsMetadata : IsMetadata tick_metadata (InUnsignedRange 4) (unsigned_bits 4)
tick-IsMetadata = record {
  identifier = omega arith;
  codec = unsigned-IsCodec list_ballotin-IsBallotin 4 (omega arith);
  static_size = λ n r h. length-bits 32 n;
}

pub ask-IsMetadata : IsMetadata ask_metadata (λ q. Unit {0}) bool_bits
ask-IsMetadata = record {
  identifier = omega arith;
  codec = bool-IsCodec list_ballotin-IsBallotin;
  static_size = λ q r h. refl;
}

pub told-IsMetadata : IsMetadata told_metadata StringInRange string_bits
told-IsMetadata = record {
  identifier = omega arith;
  codec = string-IsCodec list_ballotin-IsBallotin;
  static_size = λ cs r h. cc;
}

abbrev pub protocols : Protocols Held ℕ Bool (List ℕ)
protocols = record {
  message_metadata = tick_metadata;
  request_metadata = ask_metadata;
  response_metadata = told_metadata;
  message_any = tick_any;
  request_any = ask_any;
  response_any = told_any;
  InMessage = InUnsignedRange 4;
  InRequest = λ q. Unit {0};
  InResponse = StringInRange;
  message_code = unsigned_bits 4;
  request_code = bool_bits;
  response_code = string_bits;
  message_law = tick-IsMetadata;
  request_law = ask-IsMetadata;
  response_law = told-IsMetadata;
}
