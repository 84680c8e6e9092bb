-- ===== src/Wire/Codec/Maps.antt =====
-- std::map and Expected.
use farseer.Base.{
  ℕ, ◌^◌, ◌<◌, ◌≡◌, refl, sym, ap, ◌∙◌, Bool, true, false, List, [], ◌∷◌, ◌++◌, append-nil,
  append_assoc, arith, length, All,
}
use farseer.Base.Outcome.{ok}
use farseer.Expected.{get_value, Expected, value, error, success}
use farseer.Wire.Buffer.{pack, unpack}
use farseer.Wire.Ballotin.{Ballotin, IsBallotin}
use farseer.Wire.Ordered.{KeyOrder, OrderedMap, IsOrdered, Continues, emplace_last}
use farseer.Wire.Serializer.{
  Serializer, write_entries, read_entries, map_serializer, expected_serializer,
}
use farseer.Wire.Codec.Laws.{IsCodec}
use farseer.Wire.Codec.Scalars.{InUnsignedRange, unsigned_bits, unsigned-IsCodec, bool-IsCodec}
use farseer.Wire.Codec.Sequences.{
  concat_bits, first_run, second_run, StringInRange, string_bits, string-IsCodec,
}

abbrev pub entry_bits : {K V : Type 0} → (K → List Bool) → (V → List Bool) → K × V → List Bool
entry_bits key mapped (k, v) = key k ++ mapped v

-- The number of entries, then each key with its value, in the order of the keys.
abbrev pub map_bits :
    {K V : Type 0} → (K → List Bool) → (V → List Bool) → OrderedMap K V → List Bool
map_bits key mapped m = unsigned_bits 4 (length m) ++ concat_bits (entry_bits key mapped) m

abbrev pub EntryInRange : {K V : Type 0} → (K → Type 0) → (V → Type 0) → K × V → Type 0
EntryInRange P Q (k, v) = P k × Q v

abbrev pub MapInRange :
    {K V : Type 0} ⦃order : KeyOrder K⦄ → (K → Type 0) → (V → Type 0) → OrderedMap K V → Type 0
MapInRange P Q m = (length m < 2 ^ 32) × All (EntryInRange P Q) m × IsOrdered m

module _ {K V : Type 0} ⦃order : KeyOrder K⦄ {s : Serializer K} {t : Serializer V} {P : K → Type 0}
    {Q : V → Type 0} {key : K → List Bool} {mapped : V → List Bool} (b : Ballotin)
    (keys : IsCodec s P key) (values : IsCodec t Q mapped) where
  write_entries_lem :
      (m : OrderedMap K V) (bs : List Bool)
      → All (EntryInRange P Q) m
      → write_entries b s t m (pack bs) (length bs)
        ≡ ok (
          pack (bs ++ concat_bits (entry_bits key mapped) m),
          length (bs ++ concat_bits (entry_bits key mapped) m),
        )
  unfolding write_entries
  write_entries_lem [] bs r = ap (λ xs. ok (pack xs, length xs)) (sym (append-nil bs))
  write_entries_lem ((k, v) ∷ m) bs r =
      let rest = concat_bits (entry_bits key mapped) m in
      rw
        (
          keys.writes k bs (r.0).0,
          values.writes v (bs ++ key k) (r.0).1,
          write_entries_lem m ((bs ++ key k) ++ mapped v) r.1,
        )
        (ap (λ ys. ok (pack ys, length ys))
          (ap (λ ys. ys ++ rest) (append_assoc bs (key k) (mapped v))
            ∙ append_assoc bs (key k ++ mapped v) rest))

  read_entries_lem :
      (m old : OrderedMap K V) (bytes : List ℕ) (pre post : List Bool)
      → All (EntryInRange P Q) m
      → Continues old m
      → unpack bytes ≡ pre ++ (concat_bits (entry_bits key mapped) m ++ post)
      → read_entries b s t (length m) old bytes (length pre)
        ≡ ok (old ++ m, length (pre ++ concat_bits (entry_bits key mapped) m))
  unfolding read_entries
  read_entries_lem [] old bytes pre post r c e =
      ap (λ n. ok (n, length pre)) (sym (append-nil old))
      ∙ ap (λ xs. ok (old ++ [], length xs)) (sym (append-nil pre))
  read_entries_lem ((k, v) ∷ m) old bytes pre post r c e =
      let rest = concat_bits (entry_bits key mapped) m in
      let entry = second_run pre (key k ++ mapped v) rest post e in
      let inner = first_run pre (key k ++ mapped v) rest post e in
      rw
        (
          keys.reads k bytes pre (mapped v ++ (rest ++ post)) (r.0).0
              (first_run pre (key k) (mapped v) (rest ++ post) inner),
          values.reads v bytes (pre ++ key k) (rest ++ post) (r.0).1
              (second_run pre (key k) (mapped v) (rest ++ post) inner),
          emplace_last k v old c.0,
          append_assoc pre (key k) (mapped v),
          read_entries_lem m (old ++ (k, v) ∷ []) bytes (pre ++ (key k ++ mapped v)) post r.1 c.1
              entry,
          append_assoc old ((k, v) ∷ []) m,
          append_assoc pre (key k ++ mapped v) rest,
        )
        refl

module _ {K V : Type 0} ⦃order : KeyOrder K⦄ {s : Serializer K} {t : Serializer V} {P : K → Type 0}
    {Q : V → Type 0} {key : K → List Bool} {mapped : V → List Bool} {b : Ballotin}
    (law : IsBallotin b) (keys : IsCodec s P key) (values : IsCodec t Q mapped) where
  -- If the serializers of keys and of values write and read their encodings, the serializer of maps
  -- writes the number of entries and each entry in the order of the keys, and reads back the same
  -- map: emplacing the entries one by one loses none.
  pub map-IsCodec : IsCodec (map_serializer b s t) (MapInRange P Q) (map_bits key mapped)
  unfolding map_serializer
  map-IsCodec = record {
    writes = λ m bs r.
        let size = unsigned_bits 4 (length m) in
        let rest = concat_bits (entry_bits key mapped) m in
        rw
          (
            law.size (length m) r.0,
            (unsigned-IsCodec law 4 (omega arith)).writes (length m) bs r.0,
            write_entries_lem b keys values m (bs ++ size) r.1,
          )
          (ap (λ ys. ok (pack ys, length ys)) (append_assoc bs size rest));
    reads = λ m bytes pre post r e.
        let size = unsigned_bits 4 (length m) in
        let rest = concat_bits (entry_bits key mapped) m in
        rw
          (
            (unsigned-IsCodec law 4 (omega arith)).reads (length m) bytes pre (rest ++ post) r.0
                (first_run pre size rest post e),
            read_entries_lem b keys values m [] bytes (pre ++ size) post r.1 r.2
                (second_run pre size rest post e),
          )
          (ap (λ ys. ok (m, length ys)) (append_assoc pre size rest));
  }

-- A one and the value, or a zero, the error code and the message.
abbrev pub expected_bits : {A : Type 0} → (A → List Bool) → Expected A → List Bool
expected_bits encode (value a) = true ∷ encode a
expected_bits encode (error code message) = false ∷ (unsigned_bits 4 code ++ string_bits message)

abbrev pub ExpectedInRange : {A : Type 0} → (A → Type 0) → Expected A → Type 0
ExpectedInRange P (value a) = P a
ExpectedInRange P (error code message) = InUnsignedRange 4 code × StringInRange message

module _ {A : Type 0} {s : Serializer A} {P : A → Type 0} {encode : A → List Bool} {b : Ballotin}
    (law : IsBallotin b) (payload : IsCodec s P encode) where
  write_expected_lem :
      (e : Expected A) (bs : List Bool)
      → ExpectedInRange P e
      → (expected_serializer b s).serialize e (pack bs) (length bs)
        ≡ ok (pack (bs ++ expected_bits encode e), length (bs ++ expected_bits encode e))
  unfolding expected_serializer success get_value
  write_expected_lem (value a) bs r =
      rw ((bool-IsCodec law).writes true bs tt, payload.writes a (bs ++ true ∷ []) r)
        (ap (λ ys. ok (pack ys, length ys)) (append_assoc bs (true ∷ []) (encode a)))
  write_expected_lem (error code message) bs r =
      let number = unsigned_bits 4 code in
      rw
        (
          (bool-IsCodec law).writes false bs tt,
          (unsigned-IsCodec law 4 (omega arith)).writes code (bs ++ false ∷ []) r.0,
          (string-IsCodec law).writes message ((bs ++ false ∷ []) ++ number) r.1,
          append_assoc bs (false ∷ []) number,
          append_assoc bs (false ∷ number) (string_bits message),
        )
        refl

  read_expected_lem :
      (e : Expected A) (bytes : List ℕ) (pre post : List Bool)
      → ExpectedInRange P e
      → unpack bytes ≡ pre ++ (expected_bits encode e ++ post)
      → (expected_serializer b s).deserialize bytes (length pre)
        ≡ ok (e, length (pre ++ expected_bits encode e))
  unfolding expected_serializer
  read_expected_lem (value a) bytes pre post r h =
      rw
        (
          (bool-IsCodec law).reads true bytes pre (encode a ++ post) tt h,
          payload.reads a bytes (pre ++ true ∷ []) post r
              (second_run pre (true ∷ []) (encode a) post h),
          append_assoc pre (true ∷ []) (encode a),
        )
        refl
  read_expected_lem (error code message) bytes pre post r h =
      let number = unsigned_bits 4 code in
      let text = string_bits message in
      let inner = second_run pre (false ∷ []) (number ++ text) post h in
      rw
        (
          (bool-IsCodec law).reads false bytes pre ((number ++ text) ++ post) tt h,
          (unsigned-IsCodec law 4 (omega arith)).reads code bytes (pre ++ false ∷ []) (text ++ post)
              r.0 (first_run (pre ++ false ∷ []) number text post inner),
          (string-IsCodec law).reads message bytes ((pre ++ false ∷ []) ++ number) post r.1
              (second_run (pre ++ false ∷ []) number text post inner),
          append_assoc pre (false ∷ []) number,
          append_assoc pre (false ∷ number) text,
        )
        refl

  -- An Expected is written as a one and its value, or as a zero, the error code and the message,
  -- and is read back as the same alternative.
  pub expected-IsCodec :
      IsCodec (expected_serializer b s) (ExpectedInRange P) (expected_bits encode)
  expected-IsCodec = record { writes = write_expected_lem; reads = read_expected_lem }
