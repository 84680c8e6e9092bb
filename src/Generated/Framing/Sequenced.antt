-- ===== src/Generated/Framing/Sequenced.antt =====
-- The same for requests and responses, which carry a sequence number in front of the body.
use farseer.Base.{
  split_prefix, ℕ, ◌+◌, ◌*◌, ◌^◌, ◌≤◌, ◌<◌, ◌≡◌, refl, sym, ap, ◌∙◌, Bool, List, ◌++◌, append_assoc,
  arith, length, if◌then◌else◌, length-append, Option, none, some, leb, le→leb, lt→leb_false,
  leb→le, leb_false→lt, Bool-cases, inl, inr,
}
use farseer.Base.Outcome.{Outcome, ok, ◌>>=◌}
use farseer.Wire.Bits.{length-bits}
use farseer.Wire.Buffer.{unpack, padding}
use farseer.Wire.Ballotin.{Ballotin, IsBallotin}
use farseer.Wire.Serializer.{Serializer, unsigned_serializer}
use farseer.Wire.Codec.Laws.{IsCodec}
use farseer.Wire.Codec.Scalars.{unsigned_bits, unsigned-IsCodec}
use farseer.Wire.Codec.Sequences.{first_run, second_run}
use farseer.Generated.Framing.Layout.{dynamic_bits}
use farseer.Generated.Framing.Read.{available}

-- The branch for a payload that goes behind its size, which both functions have.
abbrev pub read_dynamic :
    {A : Type 0} → Ballotin → Serializer A → List ℕ → ℕ → Outcome (Option (ℕ × A × ℕ))
read_dynamic b s bytes offset =
    if leb (offset + 64 + 32) (8 * length bytes)
    then (do
      (n, offset') ← (unsigned_serializer b 8).deserialize bytes offset
      (size, offset'') ← (unsigned_serializer b 4).deserialize bytes offset'
      if leb (offset'' + size) (8 * length bytes)
          then (do (a, offset''') ← s.deserialize bytes offset''; ok (some (n, a, offset''')))
          else ok none)
    else ok none

module _ {b : Ballotin} (law : IsBallotin b) where
  pub read_number :
      (size v : ℕ) (bytes : List ℕ) (pre post : List Bool)
      → size ≤ 8
      → v < 2 ^ (8 * size)
      → unpack bytes ≡ pre ++ (unsigned_bits size v ++ post)
      → (unsigned_serializer b size).deserialize bytes (length pre)
        ≡ ok (v, length (pre ++ unsigned_bits size v))
  read_number size v bytes pre post small fits e =
      (unsigned-IsCodec law size small).reads v bytes pre post fits e

  module _ {A : Type 0} {s : Serializer A} {P : A → Type 0} {encode : A → List Bool}
      (codec : IsCodec s P encode) (n : ℕ) (small : n < 2 ^ 64) (a : A) (r : P a)
      (fits : length (encode a) < 2 ^ 32) (bytes : List ℕ) (pre : List Bool) where
    pub read_dynamic_lem :
        (post : List Bool)
        → unpack bytes ≡ pre ++ ((unsigned_bits 8 n ++ dynamic_bits (encode a)) ++ post)
        → read_dynamic b s bytes (length pre)
          ≡ ok (some (n, a, length pre + (96 + length (encode a))))
    read_dynamic_lem post e =
        let seq = unsigned_bits 8 n in
        let size = unsigned_bits 4 (length (encode a)) in
        let text = encode a ++ padding (encode a) in
        let first = first_run pre seq (size ++ text) post e in
        let inner = second_run pre seq (size ++ text) post e in
        let deep = second_run (pre ++ seq) size text post inner in
        let room = available bytes pre (seq ++ ((size ++ text) ++ post)) first in
        let parts : length (seq ++ ((size ++ text) ++ post))
            ≡ 96 + (length (encode a) + length (padding (encode a) ++ post)) =
          omega (
            arith,
            length-append seq ((size ++ text) ++ post),
            length-bits 64 n,
            length-append (size ++ text) post,
            length-append size text,
            length-bits 32 (length (encode a)),
            length-append (encode a) (padding (encode a)),
            length-append (padding (encode a)) post,
          ) in
        let header : length ((pre ++ seq) ++ size) ≡ length pre + 96 = omega (
          arith,
          length-append (pre ++ seq) size,
          length-append pre seq,
          length-bits 64 n,
          length-bits 32 (length (encode a)),
        ) in
        let enough : length pre + 64 + 32 ≤ 8 * length bytes = omega (arith, room, parts) in
        let enough' : length ((pre ++ seq) ++ size) + length (encode a) ≤ 8 * length bytes =
          omega (arith, room, parts, header) in
        rw
          (
            le→leb _ _ enough,
            read_number 8 n bytes pre ((size ++ text) ++ post) (omega arith) small first,
            read_number 4 (length (encode a)) bytes (pre ++ seq) (text ++ post) (omega arith) fits
                (first_run (pre ++ seq) size text post inner),
            le→leb _ _ enough',
            codec.reads a bytes ((pre ++ seq) ++ size) (padding (encode a) ++ post) r
                (first_run ((pre ++ seq) ++ size) (encode a) (padding (encode a)) post deep),
          )
          (ap (λ (k : ℕ). ok (some (n, a, k)))
            (omega (arith, length-append ((pre ++ seq) ++ size) (encode a), header)))

    pub read_dynamic_short :
        (part more : List Bool)
        → unpack bytes ≡ pre ++ part
        → part ++ more ≡ unsigned_bits 8 n ++ dynamic_bits (encode a)
        → length part < 96 + length (encode a)
        → read_dynamic b s bytes (length pre) ≡ ok none
    read_dynamic_short part more e prefix short = elim (Bool-cases (leb 96 (length part))) [
      | inl long ↦
          let seq = unsigned_bits 8 n in
          let size = unsigned_bits 4 (length (encode a)) in
          let (tail, begins, then') =
            split_prefix part more seq (dynamic_bits (encode a)) prefix
              (omega (arith, leb→le _ _ long, length-bits 64 n)) in
          let tail_length : length part ≡ 64 + length tail =
            omega (arith, ap length begins, length-append seq tail, length-bits 64 n) in
          let (rest, begins', _) =
            split_prefix tail more size (encode a ++ padding (encode a)) then'
              (omega (arith, leb→le _ _ long, tail_length, length-bits 32 (length (encode a)))) in
          let rest_length : length tail ≡ 32 + length rest = omega (
            arith,
            ap length begins',
            length-append size rest,
            length-bits 32 (length (encode a)),
          ) in
          let e' : unpack bytes ≡ pre ++ (seq ++ tail) = e ∙ ap (◌++◌ pre) begins in
          let e'' : unpack bytes ≡ (pre ++ seq) ++ (size ++ rest) =
            e' ∙ sym (append_assoc pre seq tail) ∙ ap (◌++◌ (pre ++ seq)) begins' in
          let header : length ((pre ++ seq) ++ size) ≡ length pre + 96 = omega (
            arith,
            length-append (pre ++ seq) size,
            length-append pre seq,
            length-bits 64 n,
            length-bits 32 (length (encode a)),
          ) in
          let room = available bytes pre part e in
          let enough : length pre + 64 + 32 ≤ 8 * length bytes =
            omega (arith, room, leb→le _ _ long) in
          let few : 8 * length bytes < length ((pre ++ seq) ++ size) + length (encode a) =
            omega (arith, room, header, tail_length, rest_length) in
          rw
            (
              le→leb _ _ enough,
              read_number 8 n bytes pre tail (omega arith) small e',
              read_number 4 (length (encode a)) bytes (pre ++ seq) rest (omega arith) fits e'',
              lt→leb_false _ _ few,
            )
            refl
      | inr brief ↦
          let few : 8 * length bytes < length pre + 64 + 32 =
            omega (arith, available bytes pre part e, leb_false→lt _ _ brief) in
          rw (lt→leb_false _ _ few) refl
    ]
