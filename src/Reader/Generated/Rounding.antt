-- ===== src/Reader/Generated/Rounding.antt =====
-- A serialized protocol ends at the byte that the reader rounds its offset up to.
use farseer.Base.{
  ℕ, ◌+◌, ◌*◌, ◌/◌, ◌≤◌, ◌<◌, ◌≡◌, refl, sym, ap, ◌∙◌, Bool, true, false, List, ◌++◌, append_assoc,
  length, length-append, split_prefix, arith, if◌then◌else◌,
}
use farseer.Wire.Bits.{length-bits}
use farseer.Wire.Buffer.{
  pack, unpack, padding, unpack-pack, unpack-append, length-unpack, length-pack, padding-lt,
}
use farseer.Wire.Codec.Scalars.{unsigned_bits}
use farseer.Generated.Metadata.{Metadata}
use farseer.Generated.Framing.Layout.{dynamic_bits, body_bits, body_size}

-- A header of whole bytes and a body, of which the reader asks for `size` bits.
pub record IsRounded (header body : List Bool) (size : ℕ) : Type 0 where
  pub bytes : ℕ
  pub aligned : length header ≡ 8 * bytes
  pub enough : size ≤ length body
  pub close : length body + length (padding (header ++ body)) < size + 8

dynamic_rounds :
    (h x : ℕ) (xs hs : List Bool)
    → length hs ≡ 8 * h
    → length xs ≡ x
    → length (dynamic_bits xs) + length (padding (hs ++ dynamic_bits xs)) < 32 + x + 8
dynamic_rounds h x xs hs e e' = omega (
  arith,
  length-pack xs,
  length-pack (hs ++ dynamic_bits xs),
  padding-lt xs,
  padding-lt (hs ++ dynamic_bits xs),
  length-append hs (dynamic_bits xs),
  length-append (unsigned_bits 4 (length xs)) (xs ++ padding xs),
  length-bits 32 (length xs),
  length-append xs (padding xs),
)

pub dynamic-IsRounded :
    (header xs : List Bool) (n : ℕ)
    → length header ≡ 8 * n
    → IsRounded header (dynamic_bits xs) (32 + length xs)
dynamic-IsRounded header xs n e = record {
  bytes = n;
  aligned = e;
  enough = omega (
    arith,
    length-append (unsigned_bits 4 (length xs)) (xs ++ padding xs),
    length-bits 32 (length xs),
    length-append xs (padding xs),
  );
  close = dynamic_rounds n (length xs) xs header e refl;
}

pub body-IsRounded :
    {A : Type 0} (m : Metadata A) (encode : A → List Bool) (a : A) (header : List Bool) (n : ℕ)
    → length header ≡ 8 * n
    → IsRounded header (body_bits m encode a) (body_size m encode a)
body-IsRounded m encode a header n e = by_size m.has_static_size
  where
    by_size :
        (static : Bool)
        → IsRounded header
            (if static then encode a else dynamic_bits (encode a))
            (if static then length (encode a) else 32 + length (encode a))
    by_size true = record {
      bytes = n;
      aligned = e;
      enough = omega arith;
      close = omega (arith, padding-lt (header ++ encode a));
    }
    by_size false = dynamic-IsRounded header (encode a) n e

module _ {header body : List Bool} {size : ℕ} (r : IsRounded header body size) where
  -- The offset behind the body, rounded up, is the end of the packed bytes.
  pub ends_at_byte :
      (n offset : ℕ)
      → offset ≡ 8 * n + (length header + size)
      → (offset + 7) / 8 ≡ n + length (pack (header ++ body))
  ends_at_byte n offset e =
      omega (arith, length-pack (header ++ body), length-append header body, r.enough, r.close)

  -- What the whole buffer holds where the packed bytes stand in it.
  pub unpack_whole :
      (pre post : List ℕ)
      → unpack (pre ++ (pack (header ++ body) ++ post))
        ≡ unpack pre ++ (header ++ (body ++ (padding (header ++ body) ++ unpack post)))
  unpack_whole pre post =
      let rest = padding (header ++ body) ++ unpack post in
      unpack-append pre (pack (header ++ body) ++ post)
      ∙ ap (λ xs. unpack pre ++ xs)
          (unpack-append (pack (header ++ body)) post
            ∙ ap (λ xs. xs ++ unpack post) (unpack-pack (header ++ body))
            ∙ append_assoc (header ++ body) (padding (header ++ body)) (unpack post)
            ∙ append_assoc header body rest)

  -- A part of the packed bytes that holds the header ends inside of what the reader asks for.
  pub unpack_part :
      (part more : List ℕ)
      → part ++ more ≡ pack (header ++ body)
      → r.bytes ≤ length part
      → length part < length (pack (header ++ body))
      → (rest : List Bool) × (missing : List Bool) × (unpack part ≡ header ++ rest)
        × (rest ++ missing ≡ body)
        × (length rest < size)
  unpack_part part more e long short =
      let pad = padding (header ++ body) in
      let all : unpack part ++ unpack more ≡ header ++ (body ++ pad) =
        sym (unpack-append part more)
        ∙ ap unpack e
        ∙ unpack-pack (header ++ body)
        ∙ append_assoc header body pad in
      let (rest, begins, continues) =
        split_prefix (unpack part) (unpack more) header (body ++ pad) all
          (omega (arith, length-unpack part, r.aligned)) in
      let few : length rest < size = omega (
        arith,
        ap length begins,
        length-unpack part,
        length-append header rest,
        length-pack (header ++ body),
        length-append header body,
        r.close,
      ) in
      let (missing, whole, _) =
        split_prefix body pad rest (unpack more) (sym continues) (omega (arith, few, r.enough)) in
      (rest, missing, begins, sym whole, few)

-- Whole bytes between the header and the body may be counted to either.
pub sequenced-IsRounded :
    (header seq body : List Bool) (size k : ℕ)
    → length header ≡ 8 * k
    → IsRounded (header ++ seq) body size
    → IsRounded header (seq ++ body) (length seq + size)
sequenced-IsRounded header seq body size k e r = record {
  bytes = k;
  aligned = e;
  enough = omega (arith, length-append seq body, r.enough);
  close = omega (
    arith,
    length-append seq body,
    r.close,
    ap (λ xs. length (padding xs)) (append_assoc header seq body),
  );
}
