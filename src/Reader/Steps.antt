-- ===== src/Reader/Steps.antt =====
-- One round of the loop of readInboundBytes, on each of its branches.
use farseer.Base.{
  ap, ℕ, suc, ◌+◌, ◌*◌, ◌/◌, ◌≤◌, ◌<◌, ◌≡◌, none, some, List, length, le→leb, lt→leb_false,
}
use farseer.Base.Outcome.{Error, ok, err}
use farseer.Wire.Ballotin.{Ballotin}
use farseer.Registry.{ProtocolRegistry}
use farseer.Reader.{Read, ReadState, Read, finished, thrown, read_protocol, read_loop}

module _ {Any : Type 0} (b : Ballotin) (registry : ProtocolRegistry Any) (fuel : ℕ) (bytes : List ℕ)
    (offset : ℕ) (s : ReadState Any) where
  pub read_loop_stop :
      length bytes < offset / 8 + 4
      → read_loop b registry (suc fuel) bytes offset s ≡ (finished offset, s)
  unfolding read_loop
  read_loop_stop h = rw (lt→leb_false _ _ h, read_loop)

  module _ {s' : ReadState Any} (h : offset / 8 + 4 ≤ length bytes) where
    pub read_loop_wait :
        read_protocol b registry bytes offset s ≡ (ok none, s')
        → read_loop b registry (suc fuel) bytes offset s ≡ (finished offset, s')
    unfolding read_loop
    read_loop_wait e =
        rw (le→leb _ _ h, ap (λ (r : Read Any). r.0) e, ap (λ (r : Read Any). r.1) e, read_loop)

    pub read_loop_throw :
        (x : Error)
        → read_protocol b registry bytes offset s ≡ (err x, s')
        → read_loop b registry (suc fuel) bytes offset s ≡ (thrown x offset, s')
    unfolding read_loop
    read_loop_throw x e =
        rw (le→leb _ _ h, ap (λ (r : Read Any). r.0) e, ap (λ (r : Read Any). r.1) e, read_loop)

    pub read_loop_next :
        (offset' : ℕ)
        → read_protocol b registry bytes offset s ≡ (ok (some offset'), s')
        → read_loop b registry (suc fuel) bytes offset s
          ≡ read_loop b registry fuel bytes (8 * b.number_of_bytes offset') s'
    unfolding read_loop
    read_loop_next offset' e =
        rw (le→leb _ _ h, ap (λ (r : Read Any). r.0) e, ap (λ (r : Read Any). r.1) e, read_loop)
