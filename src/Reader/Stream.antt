-- ===== src/Reader/Stream.antt =====
-- The protocols of a stream are read one by one, however the stream is cut into reads.
use farseer.Base.{
  ℕ, zero, suc, ◌+◌, ◌*◌, ◌/◌, ◌≤◌, ◌<◌, ◌≡◌, sym, ap, ap₂, ◌∙◌, none, some, List, [], ◌∷◌, ◌++◌,
  append-nil, append_assoc, length, length-append, drop, drop-length-append, arith, leb, leb→le,
  leb_false→lt, split_prefix, Bool-cases, inl, inr,
}
use farseer.Base.Outcome.{ok}
use farseer.Wire.Ballotin.{Ballotin}
use farseer.Registry.{ProtocolRegistry}
use farseer.Reader.Steps.{read_loop_stop, read_loop_wait, read_loop_next}
use farseer.Reader.{ReadState, finished, read_protocol, read_loop, read_inbound_bytes}
use farseer.Reader.Frames.{Frame, stream, effects, IsPart}

module _ {Any : Type 0} (b : Ballotin) (registry : ProtocolRegistry Any)
    (Keeps : ReadState Any → Type 0) where
  -- The reader takes a frame whole wherever it stands at a byte, and waits while it is a part.
  pub record IsFrame (f : Frame Any) : Type 0 where
    pub long : 4 ≤ length f.bytes
    pub keeps : (s : ReadState Any) → Keeps s → Keeps (f.effect s)
    pub whole :
        (pre post : List ℕ) (s : ReadState Any)
        → Keeps s
        → (offset : ℕ) × (read_protocol b registry (pre ++ (f.bytes ++ post)) (8 * length pre) s
            ≡ (ok (some offset), f.effect s))
          × (b.number_of_bytes offset ≡ length pre + length f.bytes)
    pub short :
        (pre part more : List ℕ) (s : ReadState Any)
        → Keeps s
        → part ++ more ≡ f.bytes
        → 4 ≤ length part
        → length part < length f.bytes
        → read_protocol b registry (pre ++ part) (8 * length pre) s ≡ (ok none, s)

  abbrev pub AllFrames : List (Frame Any) → Type 0
  AllFrames [] = Unit {0}
  AllFrames (f ∷ fs) = IsFrame f × AllFrames fs

  at_byte : (n : ℕ) → 8 * n / 8 ≡ n
  at_byte n = omega arith

  -- Behind the last whole frame the loop stops, by its test or because a frame is not complete.
  read_loop_part :
      (fuel : ℕ) (rest : List (Frame Any)) (pre part q : List ℕ) (s : ReadState Any)
      → AllFrames rest
      → Keeps s
      → part ++ q ≡ stream rest
      → IsPart part rest
      → read_loop b registry (suc fuel) (pre ++ part) (8 * length pre) s
        ≡ (finished (8 * length pre), s)
  unfolding stream
  read_loop_part fuel [] pre part q s fr k e p =
      read_loop_stop b registry fuel (pre ++ part) (8 * length pre) s
        (omega (arith, length-append pre part, ap length p))
  read_loop_part fuel (f ∷ rest) pre part q s fr k e p = elim (Bool-cases (leb 4 (length part))) [
    | inr brief ↦
        read_loop_stop b registry fuel (pre ++ part) (8 * length pre) s
          (omega (arith, length-append pre part, leb_false→lt _ _ brief))
    | inl long ↦
        let (more, whole', _) = split_prefix f.bytes (stream rest) part q (sym e) (omega arith) in
        read_loop_wait b registry fuel (pre ++ part) (8 * length pre) s
          (omega (arith, length-append pre part, leb→le _ _ long))
          (fr.0.short pre part more s k (sym whole') (leb→le _ _ long) p)
  ]

  read_loop_frames :
      (fuel : ℕ) (done rest : List (Frame Any)) (pre part q : List ℕ) (s : ReadState Any)
      → length done < fuel
      → AllFrames done
      → AllFrames rest
      → Keeps s
      → part ++ q ≡ stream rest
      → IsPart part rest
      → read_loop b registry fuel (pre ++ (stream done ++ part)) (8 * length pre) s
        ≡ (finished (8 * length (pre ++ stream done)), effects done s)
  unfolding stream effects
  read_loop_frames zero done rest pre part q s h fd fr k e p = absurd (omega arith)
  read_loop_frames (suc fuel) [] rest pre part q s h fd fr k e p =
      read_loop_part fuel rest pre part q s fr k e p
      ∙ ap (λ xs. (finished (8 * length xs), s)) (sym (append-nil pre))
  read_loop_frames (suc fuel) (f ∷ done) rest pre part q s h fd fr k e p =
      let tail : List ℕ = stream done ++ part in
      let buffer : pre ++ ((f.bytes ++ stream done) ++ part) ≡ pre ++ (f.bytes ++ tail) =
        ap (◌++◌ pre) (append_assoc f.bytes (stream done) part) in
      let (offset, reads, rounds) = fd.0.whole pre tail s k in
      let room : 8 * length pre / 8 + 4 ≤ length (pre ++ (f.bytes ++ tail)) =
        omega (arith, length-append pre (f.bytes ++ tail), length-append f.bytes tail, fd.0.long) in
      let next : 8 * b.number_of_bytes offset ≡ 8 * length (pre ++ f.bytes) =
        omega (arith, rounds, length-append pre f.bytes) in
      ap (λ xs. read_loop b registry (suc fuel) xs (8 * length pre) s) buffer
      ∙ read_loop_next b registry fuel (pre ++ (f.bytes ++ tail)) (8 * length pre) s room offset
          reads
      ∙ ap₂ (λ xs n. read_loop b registry fuel xs n (f.effect s))
          (sym (append_assoc pre f.bytes tail)) next
      ∙ read_loop_frames fuel done rest (pre ++ f.bytes) part q (f.effect s) (omega arith) fd.1 fr
          (fd.0.keeps s k) e p
      ∙ ap (λ xs. (finished (8 * length xs), effects done (f.effect s)))
          (append_assoc pre f.bytes (stream done))

  length-stream : (fs : List (Frame Any)) → AllFrames fs → length fs ≤ length (stream fs)
  unfolding stream
  length-stream [] h = omega arith
  length-stream (f ∷ fs) h =
      omega (arith, length-append f.bytes (stream fs), length-stream fs h.1, h.0.long)

  -- One call reads the frames that are whole, and keeps the part behind them.
  pub read_inbound_bytes_frames :
      (done rest : List (Frame Any)) (part q : List ℕ) (s : ReadState Any)
      → AllFrames done
      → AllFrames rest
      → Keeps s
      → part ++ q ≡ stream rest
      → IsPart part rest
      → read_inbound_bytes b registry (stream done ++ part) s ≡ (ok tt, part, effects done s)
  unfolding read_inbound_bytes
  read_inbound_bytes_frames done rest part q s fd fr k e p =
      let enough : length done < suc (length (stream done ++ part)) =
        omega (arith, length-append (stream done) part, length-stream done fd) in
      let dropped : drop (8 * length (stream done) / 8) (stream done ++ part) ≡ part =
        ap (λ (n : ℕ). drop n (stream done ++ part)) (at_byte (length (stream done)))
        ∙ drop-length-append (stream done) part in
      rw
        (read_loop_frames (suc (length (stream done ++ part))) done rest [] part q s enough fd fr k
          e p)
        (ap (λ xs. (ok tt, xs, effects done s)) dropped)

  pub effects-keeps :
      (fs : List (Frame Any)) (s : ReadState Any) → AllFrames fs → Keeps s → Keeps (effects fs s)
  unfolding effects
  effects-keeps [] s fr k = k
  effects-keeps (f ∷ fs) s fr k = effects-keeps fs (f.effect s) fr.1 (fr.0.keeps s k)
