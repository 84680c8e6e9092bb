-- ===== src/Reader/Loop.antt =====
-- readInboundBytes comes to an end on any bytes: the fuel is enough.
use farseer.Base.{
  ℕ, zero, suc, ◌+◌, ◌*◌, ◌/◌, ◌≤◌, ◌<◌, ◌≡◌, ◌≢◌, ◌⊎◌, refl, ap, none, some, List, length, arith,
  leb, leb→le, leb_false→lt, Bool-cases, inl, inr,
}
use farseer.Base.Outcome.{Error, ok, err}
use farseer.Wire.Ballotin.{Ballotin, IsBallotin}
use farseer.Registry.{ProtocolRegistry}
use farseer.Reader.Steps.{read_loop_stop, read_loop_wait, read_loop_throw, read_loop_next}
use farseer.Reader.{ReadState, Read, exhausted, read_protocol, read_loop}

Read-cases :
    {Any : Type 0} (r : Read Any)
    → ((e : Error) × (s : ReadState Any) × (r ≡ (err e, s)))
      ⊎ (((s : ReadState Any) × (r ≡ (ok none, s)))
          ⊎ ((n : ℕ) × (s : ReadState Any) × (r ≡ (ok (some n), s))))
Read-cases (err e, s) = inl (e, s, refl)
Read-cases (ok none, s) = inr (inl (s, refl))
Read-cases (ok (some n), s) = inr (inr (n, s, refl))

module _ {Any : Type 0} (b : Ballotin) (registry : ProtocolRegistry Any) where
  -- No deserializer moves the offset back in front of what it was given.
  abbrev pub IsAdvancing : Type 0
  IsAdvancing =
      (bytes : List ℕ) (offset : ℕ) (s : ReadState Any) (offset' : ℕ)
      → (read_protocol b registry bytes offset s).0 ≡ ok (some offset')
      → offset + 32 ≤ offset'

  module _ (law : IsBallotin b) (advancing : IsAdvancing) where
    pub read_loop-ne-exhausted :
        (fuel : ℕ) (bytes : List ℕ) (offset : ℕ) (s : ReadState Any)
        → 0 < fuel
        → length bytes < fuel + offset / 8
        → (read_loop b registry fuel bytes offset s).0 ≢ exhausted
    read_loop-ne-exhausted zero bytes offset s p h = absurd (omega arith)
    read_loop-ne-exhausted (suc fuel) bytes offset s p h =
        elim (Bool-cases (leb (offset / 8 + 4) (length bytes))) [
          | inr stop ↦
              rw (read_loop_stop b registry fuel bytes offset s (leb_false→lt _ _ stop)) (λ e. cc)
          | inl more ↦ elim (Read-cases (read_protocol b registry bytes offset s)) [
            | inl (e, s', throws) ↦
                rw (read_loop_throw b registry fuel bytes offset s (leb→le _ _ more) e throws)
                  (λ q. cc)
            | inr (inl (s', waits)) ↦
                rw (read_loop_wait b registry fuel bytes offset s (leb→le _ _ more) waits) (λ q. cc)
            | inr (inr (offset', s', reads)) ↦
                let far : offset + 32 ≤ offset' =
                  advancing bytes offset s offset' (ap (λ (r : Read Any). r.0) reads) in
                let next : ℕ = 8 * b.number_of_bytes offset' in
                let rounded : next ≡ 8 * ((offset' + 7) / 8) =
                  ap (λ (n : ℕ). 8 * n) (law.bytes offset') in
                rw (read_loop_next b registry fuel bytes offset s (leb→le _ _ more) offset' reads) (
                  read_loop-ne-exhausted fuel bytes next s' (omega (arith, leb→le _ _ more))
                    (omega (arith, leb→le _ _ more)))
          ]
        ]

    -- With the fuel that `read_inbound_bytes` gives, the loop ends by its own test, by a protocol
    -- that is not complete, or by an exception.
    pub read_inbound_bytes_total :
        (bytes : List ℕ) (s : ReadState Any)
        → (read_loop b registry (suc (length bytes)) bytes 0 s).0 ≢ exhausted
    read_inbound_bytes_total bytes s =
        read_loop-ne-exhausted (suc (length bytes)) bytes 0 s (omega arith) (omega arith)
