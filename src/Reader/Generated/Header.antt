-- ===== src/Reader/Generated/Header.antt =====
-- A protocol is a frame as soon as the reader takes what stands behind its identifier.
use farseer.Base.{
  ℕ, ◌+◌, ◌*◌, ◌^◌, ◌≤◌, ◌<◌, ◌≡◌, sym, ap, ◌∙◌, Bool, List, ◌++◌, append_assoc, length,
  length-append, some, none, arith,
}
use farseer.Base.Outcome.{ok}
use farseer.Wire.Bits.{length-bits}
use farseer.Wire.Buffer.{pack, unpack, padding, unpack-append, length-unpack, length-pack}
use farseer.Wire.Ballotin.{Ballotin, IsBallotin}
use farseer.Wire.Serializer.{identifier_serializer}
use farseer.Wire.Codec.Scalars.{unsigned_bits, unsigned-IsCodec}
use farseer.Registry.{ProtocolRegistry}
use farseer.Reader.{ReadState, read_protocol}
use farseer.Reader.Stream.{IsFrame}
use farseer.Reader.Generated.Rounding.{IsRounded, ends_at_byte, unpack_whole, unpack_part}

module _ {Any : Type 0} {b : Ballotin} (law : IsBallotin b) (registry : ProtocolRegistry Any)
    (Keeps : ReadState Any → Type 0) (identifier : ℕ) (known : identifier < 2 ^ 32)
    (tail : List Bool) (size : ℕ) (effect : ReadState Any → ReadState Any) where
  -- What the reader does behind the identifier, where the rest is there and where it is not.
  pub record ReadsBehind : Type 0 where
    pub keeps : (s : ReadState Any) → Keeps s → Keeps (effect s)
    pub whole :
        (buffer : List ℕ) (start post : List Bool) (s : ReadState Any) (offset : ℕ)
        → Keeps s
        → (identifier_serializer b).deserialize buffer offset ≡ ok (identifier, length start)
        → unpack buffer ≡ start ++ (tail ++ post)
        → read_protocol b registry buffer offset s ≡ (ok (some (length start + size)), effect s)
    pub short :
        (buffer : List ℕ) (start part more : List Bool) (s : ReadState Any) (offset : ℕ)
        → Keeps s
        → (identifier_serializer b).deserialize buffer offset ≡ ok (identifier, length start)
        → unpack buffer ≡ start ++ part
        → part ++ more ≡ tail
        → length part < size
        → read_protocol b registry buffer offset s ≡ (ok none, s)

  read_identifier :
      (buffer pre : List ℕ) (rest : List Bool)
      → unpack buffer ≡ unpack pre ++ (unsigned_bits 4 identifier ++ rest)
      → (identifier_serializer b).deserialize buffer (8 * length pre)
        ≡ ok (identifier, length (unpack pre ++ unsigned_bits 4 identifier))
  read_identifier buffer pre rest e =
      ap ((identifier_serializer b).deserialize buffer) (sym (length-unpack pre))
      ∙ (unsigned-IsCodec law 4 (omega arith)).reads identifier buffer (unpack pre) rest known e

  pub header-IsFrame :
      IsRounded (unsigned_bits 4 identifier) tail size
      → ReadsBehind
      → IsFrame b registry Keeps
          (record { bytes = pack (unsigned_bits 4 identifier ++ tail); effect = effect })
  header-IsFrame rounded behind = record {
    long =
        omega (arith, length-pack (id ++ tail), length-append id tail, length-bits 32 identifier);
    keeps = behind.keeps;
    whole = λ pre post s k.
        let buffer = pre ++ (pack (id ++ tail) ++ post) in
        let rest = padding (id ++ tail) ++ unpack post in
        let u = unpack_whole rounded pre post in
        let start = unpack pre ++ id in
        let place : length start + size ≡ 8 * length pre + (length id + size) =
          omega (arith, length-append (unpack pre) id, length-unpack pre) in
        (
          length start + size,
          behind.whole buffer start rest s (8 * length pre) k
              (read_identifier buffer pre (tail ++ rest) u)
              (u ∙ sym (append_assoc (unpack pre) id (tail ++ rest))),
          law.bytes (length start + size)
              ∙ ends_at_byte rounded (length pre) (length start + size) place,
        );
    short = λ pre part more s k e long short.
        let header : rounded.bytes ≤ length part =
          omega (arith, rounded.aligned, length-bits 32 identifier) in
        let (rest, missing, begins, whole, few) = unpack_part rounded part more e header short in
        let buffer = pre ++ part in
        let u : unpack buffer ≡ unpack pre ++ (id ++ rest) =
          unpack-append pre part ∙ ap (λ xs. unpack pre ++ xs) begins in
        behind.short buffer (unpack pre ++ id) rest missing s (8 * length pre) k
          (read_identifier buffer pre rest u) (u ∙ sym (append_assoc (unpack pre) id rest)) whole
          few;
  }
    where
      id : List Bool
      id = unsigned_bits 4 identifier
