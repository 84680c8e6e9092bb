-- ===== src/Wire/Advance.antt =====
-- No deserializer moves the offset back, whatever the bytes are.
use farseer.Base.{◌+◌, ℕ, zero, suc, ◌*◌, ◌≤◌, ◌≡◌, ap, Bool, true, false, List, [], arith}
use farseer.Base.Outcome.{ok, ok_inj, bind_ok}
use farseer.Expected.{Expected}
use farseer.Wire.Ballotin.{Ballotin}
use farseer.Wire.Ordered.{KeyOrder, OrderedMap, emplace}
use farseer.Wire.Serializer.{
  Serializer, unsigned_serializer, signed_serializer, bool_serializer, vector_serializer,
  string_serializer, map_serializer, read_elements, read_entries, expected_serializer,
  read_expected,
}

abbrev pub Advances : {A : Type 0} → Serializer A → Type 0
Advances {A} s =
    (bytes : List ℕ) (offset : ℕ) (a : A) (offset' : ℕ)
    → s.deserialize bytes offset ≡ ok (a, offset')
    → offset ≤ offset'

offset_of : {A : Type 0} {r t : A × ℕ} → ok r ≡ ok t → r.1 ≡ t.1
offset_of e = ap (λ x. x.1) (ok_inj e)

module _ (b : Ballotin) where
  pub unsigned_moves :
      (size : ℕ) (bytes : List ℕ) (offset v offset' : ℕ)
      → (unsigned_serializer b size).deserialize bytes offset ≡ ok (v, offset')
      → offset + 8 * size ≡ offset'
  unfolding unsigned_serializer
  unsigned_moves size bytes offset v offset' h =
      let (w, _, e) = bind_ok (b.get_bits bytes offset (8 * size)) _ _ h in offset_of e

  pub unsigned-Advances : (size : ℕ) → Advances (unsigned_serializer b size)
  unfolding unsigned_serializer
  unsigned-Advances size bytes offset a offset' h =
      let (v, _, e) = bind_ok (b.get_bits bytes offset (8 * size)) _ _ h in
      omega (arith, offset_of e)

  pub signed-Advances : (size : ℕ) → Advances (signed_serializer b size)
  unfolding signed_serializer
  signed-Advances size bytes offset a offset' h =
      let (v, _, e) = bind_ok (b.get_bits bytes offset (8 * size)) _ _ h in
      omega (arith, offset_of e)

  pub bool-Advances : Advances (bool_serializer b)
  unfolding bool_serializer
  bool-Advances bytes offset a offset' h =
      let (v, _, e) = bind_ok (b.get_bits bytes offset 1) _ _ h in omega (arith, offset_of e)

  module _ {A : Type 0} (s : Serializer A) (element : Advances s) where
    read_elements-Advances :
        (n : ℕ) (bytes : List ℕ) (offset : ℕ) (xs : List A) (offset' : ℕ)
        → read_elements b s n bytes offset ≡ ok (xs, offset')
        → offset ≤ offset'
    unfolding read_elements
    read_elements-Advances zero bytes offset xs offset' h = omega (arith, offset_of h)
    read_elements-Advances (suc n) bytes offset xs offset' h =
        let ((a, middle), first, e) = bind_ok (s.deserialize bytes offset) _ _ h in
        let ((rest, last), others, f) = bind_ok (read_elements b s n bytes middle) _ _ e in
        omega (
          arith,
          element bytes offset a middle first,
          read_elements-Advances n bytes middle rest last others,
          offset_of f,
        )

    pub vector-Advances : Advances (vector_serializer b s)
    unfolding vector_serializer
    vector-Advances bytes offset xs offset' h =
        let ((n, middle), first, e) =
          bind_ok ((unsigned_serializer b 4).deserialize bytes offset) _ _ h in
        omega (
          arith,
          unsigned-Advances 4 bytes offset n middle first,
          read_elements-Advances n bytes middle xs offset' e,
        )

  pub string-Advances : Advances (string_serializer b)
  unfolding string_serializer
  string-Advances = vector-Advances (unsigned_serializer b 1) (unsigned-Advances 1)

  module _ {K V : Type 0} ⦃order : KeyOrder K⦄ (s : Serializer K) (t : Serializer V)
      (key : Advances s) (mapped : Advances t) where
    read_entries-Advances :
        (n : ℕ) (m : OrderedMap K V) (bytes : List ℕ) (offset : ℕ) (m' : OrderedMap K V)
        (offset' : ℕ)
        → read_entries b s t n m bytes offset ≡ ok (m', offset')
        → offset ≤ offset'
    unfolding read_entries
    read_entries-Advances zero m bytes offset m' offset' h = omega (arith, offset_of h)
    read_entries-Advances (suc n) m bytes offset m' offset' h =
        let ((k, middle), first, e) = bind_ok (s.deserialize bytes offset) _ _ h in
        let ((v, last), second, f) = bind_ok (t.deserialize bytes middle) _ _ e in
        omega (
          arith,
          key bytes offset k middle first,
          mapped bytes middle v last second,
          read_entries-Advances n (emplace k v m) bytes last m' offset' f,
        )

    pub map-Advances : Advances (map_serializer b s t)
    unfolding map_serializer
    map-Advances bytes offset m offset' h =
        let ((n, middle), first, e) =
          bind_ok ((unsigned_serializer b 4).deserialize bytes offset) _ _ h in
        omega (
          arith,
          unsigned-Advances 4 bytes offset n middle first,
          read_entries-Advances n [] bytes middle m offset' e,
        )

  module _ {A : Type 0} (s : Serializer A) (payload : Advances s) where
    read_expected-Advances :
        (c : Bool) (bytes : List ℕ) (offset : ℕ) (e : Expected A) (offset' : ℕ)
        → read_expected b s c bytes offset ≡ ok (e, offset')
        → offset ≤ offset'
    unfolding read_expected
    read_expected-Advances true bytes offset e offset' h =
        let ((a, last), first, f) = bind_ok (s.deserialize bytes offset) _ _ h in
        omega (arith, payload bytes offset a last first, offset_of f)
    read_expected-Advances false bytes offset e offset' h =
        let ((code, middle), first, f) =
          bind_ok ((unsigned_serializer b 4).deserialize bytes offset) _ _ h in
        let ((text, last), second, g) =
          bind_ok ((string_serializer b).deserialize bytes middle) _ _ f in
        omega (
          arith,
          unsigned-Advances 4 bytes offset code middle first,
          string-Advances bytes middle text last second,
          offset_of g,
        )

    pub expected-Advances : Advances (expected_serializer b s)
    unfolding expected_serializer
    expected-Advances bytes offset e offset' h =
        let ((c, middle), first, f) =
          bind_ok ((bool_serializer b).deserialize bytes offset) _ _ h in
        omega (
          arith,
          bool-Advances bytes offset c middle first,
          read_expected-Advances c bytes middle e offset' f,
        )
