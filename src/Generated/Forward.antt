-- ===== src/Generated/Forward.antt =====
-- The generated deserializers never move the offset back, whatever the bytes are.
use farseer.Base.{
  ℕ, ◌+◌, ◌*◌, ◌≤◌, ◌≡◌, ap, Bool, true, false, Option, none, some, some_inj, none-ne-some, List,
  length, leb, if◌then◌else◌, arith,
}
use farseer.Base.Outcome.{Outcome, ok, ok_inj, bind_ok, ◌>>=◌}
use farseer.Expected.{Expected}
use farseer.Wire.Ballotin.{Ballotin}
use farseer.Wire.Serializer.{Serializer, unsigned_serializer, expected_serializer}
use farseer.Wire.Advance.{Advances, unsigned-Advances, expected-Advances}
use farseer.Generated.Metadata.{Metadata}
use farseer.Generated.Message
use farseer.Generated.Request
use farseer.Generated.Response

found_of : {A : Type 0} {x y : A} → ok (some x) ≡ ok (some y) → x ≡ y
found_of e = some_inj (ok_inj e)

not_found : {A B : Type 0} {x : A} → ◌≡◌ {A = Outcome (Option A)} (ok none) (ok (some x)) → B
not_found e = absurd (none-ne-some (ok_inj e))

abbrev read_some : {R : Type 0} → Serializer R → List ℕ → ℕ → Outcome (Option (R × ℕ))
read_some s bytes offset = do (a, offset') ← s.deserialize bytes offset; ok (some (a, offset'))

abbrev read_after : {R : Type 0} → ℕ → Serializer R → List ℕ → ℕ → Outcome (Option (ℕ × R × ℕ))
read_after n s bytes offset = do
  (a, offset') ← s.deserialize bytes offset
  ok (some (n, a, offset'))

module _ {R : Type 0} (s : Serializer R) (forward : Advances s) (bytes : List ℕ) (offset : ℕ)
    (r : R) (offset' : ℕ) where
  read_some-le :
      (c : Bool)
      → (if c then read_some s bytes offset else ok none) ≡ ok (some (r, offset'))
      → offset ≤ offset'
  read_some-le false h = not_found h
  read_some-le true h =
      let ((a, last), reads, f) = bind_ok (s.deserialize bytes offset) _ _ h in
      omega (arith, forward bytes offset a last reads, ap (λ (t : R × ℕ). t.1) (found_of f))

  read_after-le :
      (c : Bool) (n k : ℕ)
      → (if c then read_after n s bytes offset else ok none) ≡ ok (some (k, r, offset'))
      → offset ≤ offset'
  read_after-le false n k h = not_found h
  read_after-le true n k h =
      let ((a, last), reads, f) = bind_ok (s.deserialize bytes offset) _ _ h in
      omega (arith, forward bytes offset a last reads, ap (λ (t : ℕ × R × ℕ). t.2) (found_of f))

module _ (b : Ballotin) {R : Type 0} (s : Serializer R) (forward : Advances s) (bytes : List ℕ)
    (offset : ℕ) (r : R) (offset' : ℕ) where
  sized-le :
      (c : Bool) (d : ℕ → ℕ → Bool)
      → (if c
          then (do
            (size, o) ← (unsigned_serializer b 4).deserialize bytes offset
            if d size o then read_some s bytes o else ok none)
          else ok none)
        ≡ ok (some (r, offset'))
      → offset ≤ offset'
  sized-le false d h = not_found h
  sized-le true d h =
      let ((size, o), reads, f) =
        bind_ok ((unsigned_serializer b 4).deserialize bytes offset) _ _ h in
      omega (
        arith,
        unsigned-Advances b 4 bytes offset size o reads,
        read_some-le s forward bytes o r offset' (d size o) f,
      )

  sequenced-le :
      (c : Bool) (n : ℕ)
      → (if c
          then (do
            (k, o) ← (unsigned_serializer b 8).deserialize bytes offset
            read_after k s bytes o)
          else ok none)
        ≡ ok (some (n, r, offset'))
      → offset ≤ offset'
  sequenced-le false n h = not_found h
  sequenced-le true n h =
      let ((k, o), reads, f) = bind_ok ((unsigned_serializer b 8).deserialize bytes offset) _ _ h in
      omega (
        arith,
        unsigned-Advances b 8 bytes offset k o reads,
        read_after-le s forward bytes o r offset' true k n f,
      )

  -- The sequence number, the size and the payload, as requests and responses have them.
  dynamic-le :
      (c : Bool) (d : ℕ → ℕ → Bool) (n : ℕ)
      → (if c
          then (do
            (k, o) ← (unsigned_serializer b 8).deserialize bytes offset
            (size, o') ← (unsigned_serializer b 4).deserialize bytes o
            if d size o' then read_after k s bytes o' else ok none)
          else ok none)
        ≡ ok (some (n, r, offset'))
      → offset ≤ offset'
  dynamic-le false d n h = not_found h
  dynamic-le true d n h =
      let ((k, o), reads, e) = bind_ok ((unsigned_serializer b 8).deserialize bytes offset) _ _ h in
      let ((size, o'), reads', f) = bind_ok ((unsigned_serializer b 4).deserialize bytes o) _ _ e in
      omega (
        arith,
        unsigned-Advances b 8 bytes offset k o reads,
        unsigned-Advances b 4 bytes o size o' reads',
        read_after-le s forward bytes o' r offset' (d size o') k n f,
      )

-- One of two branches is taken.
either_branch :
    {A : Type 0} {C : Type 0} (c : Bool) (x y r : A)
    → (if c then x else y) ≡ r
    → (x ≡ r → C)
    → (y ≡ r → C)
    → C
either_branch true x y r h taken other = taken h
either_branch false x y r h taken other = other h

module _ {A : Type 0} (b : Ballotin) (m : Metadata A) (payload : Advances m.payload)
    (bytes : List ℕ) (offset : ℕ) where
  pub message-le :
      (a : A) (offset' : ℕ)
      → Message.try_deserialize_with_header b m bytes offset ≡ ok (some (a, offset'))
      → offset ≤ offset'
  unfolding Message.try_deserialize_with_header
  message-le a offset' h =
      either_branch m.has_static_size _ _ _ h
        (read_some-le m.payload payload bytes offset a offset' _)
        (sized-le b m.payload payload bytes offset a offset' _
          (λ size o. leb (o + size) (8 * length bytes)))

  pub request-le :
      (n : ℕ) (a : A) (offset' : ℕ)
      → Request.try_deserialize_with_header b m bytes offset ≡ ok (some (n, a, offset'))
      → offset ≤ offset'
  unfolding Request.try_deserialize_with_header
  request-le n a offset' h =
      either_branch m.has_static_size _ _ _ h
        (sequenced-le b m.payload payload bytes offset a offset' _ n)
        (dynamic-le b m.payload payload bytes offset a offset' _
          (λ size o. leb (o + size) (8 * length bytes)) n)

  pub response-le :
      (n : ℕ) (e : Expected A) (offset' : ℕ)
      → Response.try_deserialize_with_header b m bytes offset ≡ ok (some (n, e, offset'))
      → offset ≤ offset'
  unfolding Response.try_deserialize_with_header
  response-le n e offset' h =
      dynamic-le b (expected_serializer b m.payload) (expected-Advances b m.payload payload) bytes
        offset e offset' (leb (offset + 64 + 32) (8 * length bytes))
        (λ size o. leb (o + size) (8 * length bytes)) n h
