-- ===== src/Generated/Framing/Read.antt =====
-- tryDeserializeWithHeader gives back what stands behind the identifier, and waits for the rest
-- where only a part of it is there.
use farseer.Base.{
  split_prefix, ℕ, ◌+◌, ◌*◌, ◌^◌, ◌≤◌, ◌<◌, ◌≡◌, refl, sym, ap, ◌∙◌, Bool, List, ◌++◌, append_assoc,
  arith, length, if◌then◌else◌, length-append, none, some, leb, le→leb, lt→leb_false, leb→le,
  leb_false→lt, Bool-cases, inl, inr,
}
use farseer.Base.Outcome.{ok, ◌>>=◌}
use farseer.Wire.Bits.{length-bits}
use farseer.Wire.Buffer.{unpack, padding, length-unpack}
use farseer.Wire.Ballotin.{Ballotin, IsBallotin}
use farseer.Wire.Serializer.{Serializer, unsigned_serializer}
use farseer.Wire.Codec.Scalars.{unsigned_bits, unsigned-IsCodec}
use farseer.Wire.Codec.Sequences.{first_run, second_run}
use farseer.Generated.Metadata.{Metadata, IsMetadata}
use farseer.Generated.Framing.Layout.{dynamic_bits, body_bits, body_size}
use farseer.Generated.Message

pub available :
    (bytes : List ℕ) (pre part : List Bool)
    → unpack bytes ≡ pre ++ part
    → 8 * length bytes ≡ length pre + length part
available bytes pre part e = sym (length-unpack bytes) ∙ ap length e ∙ length-append pre part

module _ {b : Ballotin} (law : IsBallotin b) {A : Type 0} {m : Metadata A} {P : A → Type 0}
    {encode : A → List Bool} (meta : IsMetadata m P encode) where
  read_sized_lem :
      (a : A) (bytes : List ℕ) (pre post : List Bool)
      → P a
      → unpack bytes ≡ pre ++ (encode a ++ post)
      → Message.read_sized b m bytes (length pre) (length (encode a))
        ≡ ok (some (a, length (pre ++ encode a)))
  unfolding Message.read_sized
  read_sized_lem a bytes pre post r e =
      let enough : length pre + length (encode a) ≤ 8 * length bytes =
        omega (arith, available bytes pre (encode a ++ post) e, length-append (encode a) post) in
      rw (le→leb _ _ enough, meta.codec.reads a bytes pre post r e) refl

  read_sized_short :
      (size : ℕ) (bytes : List ℕ) (pre part : List Bool)
      → unpack bytes ≡ pre ++ part
      → length part < size
      → Message.read_sized b m bytes (length pre) size ≡ ok none
  unfolding Message.read_sized
  read_sized_short size bytes pre part e h =
      let few : 8 * length bytes < length pre + size = omega (arith, available bytes pre part e) in
      rw (lt→leb_false _ _ few) refl

  -- From the body of a message in range, whatever stands before and behind it,
  -- tryDeserializeWithHeader reads the message and moves the offset behind the bits of its fields.
  pub message-try_deserialize :
      (a : A) (bytes : List ℕ) (pre post : List Bool)
      → P a
      → length (encode a) < 2 ^ 32
      → unpack bytes ≡ pre ++ (body_bits m encode a ++ post)
      → Message.try_deserialize_with_header b m bytes (length pre)
        ≡ ok (some (a, length pre + body_size m encode a))
  unfolding Message.try_deserialize_with_header
  message-try_deserialize a bytes pre post r fits e = elim (Bool-cases m.has_static_size) [
    | inl static ↦
        let e' : unpack bytes ≡ pre ++ (encode a ++ post) =
          e
          ∙ ap (λ (s : Bool). pre ++ ((if s then encode a else dynamic_bits (encode a)) ++ post))
              static in
        rw (static, ← meta.static_size a r static, read_sized_lem a bytes pre post r e')
          (ap (λ (n : ℕ). ok (some (a, n))) (length-append pre (encode a)))
    | inr dynamic ↦
        let size = unsigned_bits 4 (length (encode a)) in
        let text = encode a ++ padding (encode a) in
        let e' : unpack bytes ≡ pre ++ ((size ++ text) ++ post) =
          e
          ∙ ap (λ (s : Bool). pre ++ ((if s then encode a else dynamic_bits (encode a)) ++ post))
              dynamic in
        let enough : length pre + 32 ≤ 8 * length bytes = omega (
          arith,
          available bytes pre (size ++ (text ++ post)) (first_run pre size text post e'),
          length-append size (text ++ post),
          length-bits 32 (length (encode a)),
        ) in
        let inner = second_run pre size text post e' in
        rw
          (
            dynamic,
            le→leb _ _ enough,
            (unsigned-IsCodec law 4 (omega arith)).reads (length (encode a)) bytes pre
                (text ++ post) fits (first_run pre size text post e'),
            read_sized_lem a bytes (pre ++ size) (padding (encode a) ++ post) r
                (first_run (pre ++ size) (encode a) (padding (encode a)) post inner),
          )
          (ap (λ (n : ℕ). ok (some (a, n)))
            (omega (
              arith,
              length-append (pre ++ size) (encode a),
              length-append pre size,
              length-bits 32 (length (encode a)),
            )))
  ]

  dynamic_short :
      (a : A) (bytes : List ℕ) (pre part more : List Bool)
      → P a
      → length (encode a) < 2 ^ 32
      → unpack bytes ≡ pre ++ part
      → part ++ more ≡ dynamic_bits (encode a)
      → length part < 32 + length (encode a)
      → (if leb (length pre + 32) (8 * length bytes)
          then (do
            (size, offset') ← Serializer.deserialize (unsigned_serializer b 4) bytes (length pre)
            Message.read_sized b m bytes offset' size)
          else ok none)
        ≡ ok none
  dynamic_short a bytes pre part more r fits e prefix short =
      elim (Bool-cases (leb 32 (length part))) [
        | inl long ↦
            let size = unsigned_bits 4 (length (encode a)) in
            let reach : length size ≤ length part =
              omega (arith, leb→le _ _ long, length-bits 32 (length (encode a))) in
            let (rest, begins, _) =
              split_prefix part more size (encode a ++ padding (encode a)) prefix reach in
            let e' : unpack bytes ≡ pre ++ (size ++ rest) = e ∙ ap (◌++◌ pre) begins in
            let enough : length pre + 32 ≤ 8 * length bytes =
              omega (arith, available bytes pre part e, leb→le _ _ long) in
            let few : length rest < length (encode a) = omega (
              arith,
              ap length begins,
              length-append size rest,
              length-bits 32 (length (encode a)),
            ) in
            rw
              (
                le→leb _ _ enough,
                (unsigned-IsCodec law 4 (omega arith)).reads (length (encode a)) bytes pre rest fits
                    e',
                read_sized_short (length (encode a)) bytes (pre ++ size) rest
                    (e' ∙ sym (append_assoc pre size rest)) few,
              )
              refl
        | inr brief ↦
            let few : 8 * length bytes < length pre + 32 =
              omega (arith, available bytes pre part e, leb_false→lt _ _ brief) in
            rw (lt→leb_false _ _ few) refl
      ]

  -- Where the bytes end before the last bit of the message's fields, tryDeserializeWithHeader
  -- returns false: it throws nothing and reads no message.
  pub message-try_deserialize_short :
      (a : A) (bytes : List ℕ) (pre part more : List Bool)
      → P a
      → length (encode a) < 2 ^ 32
      → unpack bytes ≡ pre ++ part
      → part ++ more ≡ body_bits m encode a
      → length part < body_size m encode a
      → Message.try_deserialize_with_header b m bytes (length pre) ≡ ok none
  unfolding Message.try_deserialize_with_header
  message-try_deserialize_short a bytes pre part more r fits e prefix short =
      elim (Bool-cases m.has_static_size) [
        | inl static ↦
            let few : length part < m.static_number_of_bits = omega (
              arith,
              meta.static_size a r static,
              ap (λ (s : Bool). if s then length (encode a) else 32 + length (encode a)) static,
            ) in
            rw (static, read_sized_short m.static_number_of_bits bytes pre part e few) refl
        | inr dynamic ↦
            let few : length part < 32 + length (encode a) = omega (
              arith,
              ap (λ (s : Bool). if s then length (encode a) else 32 + length (encode a)) dynamic,
            ) in
            let body : part ++ more ≡ dynamic_bits (encode a) =
              prefix ∙ ap (λ (s : Bool). if s then encode a else dynamic_bits (encode a)) dynamic in
            rw dynamic (dynamic_short a bytes pre part more r fits e body few)
      ]
