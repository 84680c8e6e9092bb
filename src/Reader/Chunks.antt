-- ===== src/Reader/Chunks.antt =====
-- The protocols of a stream are read one by one, however the stream is cut into reads.
use farseer.Base.{
  concat, ℕ, ◌≡◌, refl, sym, ap, subst, ◌∙◌, List, [], ◌∷◌, ◌++◌, append_assoc, length,
  length-append, arith,
}
use farseer.Base.Outcome.{ok}
use farseer.Wire.Ballotin.{Ballotin}
use farseer.Registry.{ProtocolRegistry}
use farseer.Reader.{ReadState, read_inbound_bytes}
use farseer.Reader.Frames.{Frame, stream, effects, receive, after_read, IsPart, split_frames}
use farseer.Reader.Stream.{AllFrames, read_inbound_bytes_frames, effects-keeps}

module _ {Any : Type 0} (b : Ballotin) (registry : ProtocolRegistry Any)
    (Keeps : ReadState Any → Type 0) where
  abbrev pub Readable : List (Frame Any) → Type 0
  Readable = AllFrames b registry Keeps

  Readable-append : (xs ys : List (Frame Any)) → Readable (xs ++ ys) → Readable xs × Readable ys
  Readable-append [] ys h = (tt, h)
  Readable-append (x ∷ xs) ys h = let (p, q) = Readable-append xs ys h.1 in ((h.0, p), q)

  effects-append :
      (xs ys : List (Frame Any)) (s : ReadState Any)
      → effects (xs ++ ys) s ≡ effects ys (effects xs s)
  unfolding effects
  effects-append [] ys s = refl
  effects-append (x ∷ xs) ys s = effects-append xs ys (x.effect s)

  nothing_left :
      (fs : List (Frame Any)) (part : List ℕ)
      → IsPart part fs
      → part ++ [] ≡ stream fs
      → (fs ≡ []) × (part ≡ [])
  unfolding stream
  nothing_left [] part p e = (refl, p)
  nothing_left (f ∷ fs) part p e =
      absurd (omega (arith, ap length e, length-append part [], length-append f.bytes (stream fs)))

  receive_part :
      (chunks : List (List ℕ)) (fs : List (Frame Any)) (part : List ℕ) (s : ReadState Any)
      → Readable fs
      → Keeps s
      → IsPart part fs
      → part ++ concat chunks ≡ stream fs
      → receive (read_inbound_bytes b registry) chunks part s ≡ (ok tt, [], effects fs s)
  unfolding receive effects
  receive_part [] fs part s fr k p e =
      let (none_left, empty) = nothing_left fs part p e in rw (none_left, empty) refl
  receive_part (chunk ∷ chunks) fs part s fr k p e =
      let (done, rest, part', parts, begins, continues, p') =
        split_frames fs (part ++ chunk) (concat chunks)
          (append_assoc part chunk (concat chunks) ∙ e) in
      let (fd, fr') = Readable-append done rest (subst Readable parts fr) in
      let reads : read_inbound_bytes b registry (part ++ chunk) s ≡ (ok tt, part', effects done s) =
        ap (λ xs. read_inbound_bytes b registry xs s) begins
        ∙ read_inbound_bytes_frames b registry Keeps done rest part' (concat chunks) s fd fr' k
            continues p' in
      let later =
        receive_part chunks rest part' (effects done s) fr'
          (effects-keeps b registry Keeps done s fd k) p' continues in
      ap (after_read (receive (read_inbound_bytes b registry) chunks)) reads
      ∙ later
      ∙ ap (λ t. (ok tt, [], t))
          (sym (effects-append done rest s) ∙ ap (λ gs. effects gs s) (sym parts))

  -- However a stream of frames is cut into reads, the reader ends with no error and no byte left,
  -- and has had the effect of every frame, once and in order.
  pub receive_any_chunks :
      (chunks : List (List ℕ)) (fs : List (Frame Any)) (s : ReadState Any)
      → Readable fs
      → Keeps s
      → concat chunks ≡ stream fs
      → receive (read_inbound_bytes b registry) chunks [] s ≡ (ok tt, [], effects fs s)
  receive_any_chunks chunks fs s fr k e = receive_part chunks fs [] s fr k (start fs fr) e
    where
      start : (fs : List (Frame Any)) → Readable fs → IsPart [] fs
      start [] h = refl
      start (f ∷ fs) h = omega (arith, h.0.long)
