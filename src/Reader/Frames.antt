-- ===== src/Reader/Frames.antt =====
-- Serialized protocols in a row, and a socket that receives them in pieces.
use farseer.Base.{
  ℕ, ◌<◌, ◌≡◌, refl, sym, ap, ◌∙◌, List, [], ◌∷◌, ◌++◌, append_assoc, length, leb, leb→le,
  leb_false→lt, split_prefix, Bool-cases, inl, inr,
}
use farseer.Base.Outcome.{Outcome, ok, err}
use farseer.Reader.{ReadState}

-- A serialized protocol, and what reading it does.
pub record Frame (Any : Type 0) : Type 0 where
  pub bytes : List ℕ
  pub effect : ReadState Any → ReadState Any

empty_append : (xs ys : List ℕ) → xs ++ ys ≡ [] → xs ≡ []
empty_append [] ys e = refl
empty_append (x ∷ xs) ys e = cc

abbrev pub Received : Type 0 → Type 0
Received Any = Outcome (Unit {0}) × List ℕ × ReadState Any

module _ {Any : Type 0} where
  unfoldable pub stream : List (Frame Any) → List ℕ
  stream [] = []
  stream (f ∷ fs) = f.bytes ++ stream fs

  unfoldable pub effects : List (Frame Any) → ReadState Any → ReadState Any
  effects [] s = s
  effects (f ∷ fs) s = effects fs (f.effect s)

  unfoldable pub after_read : (List ℕ → ReadState Any → Received Any) → Received Any → Received Any
  after_read next (ok _, inbound, s) = next inbound s
  after_read next (err e, inbound, s) = (err e, inbound, s)

  -- The socket appends what it received to the inbound bytes and reads; an exception ends it.
  unfoldable pub receive :
      (List ℕ → ReadState Any → Received Any)
      → List (List ℕ)
      → List ℕ
      → ReadState Any
      → Received Any
  unfolding after_read
  receive read [] inbound s = (ok tt, inbound, s)
  receive read (chunk ∷ chunks) inbound s =
      after_read (receive read chunks) (read (inbound ++ chunk) s)

  -- The frames that are whole in a prefix of a stream, and the part of the next one behind them.
  abbrev pub IsPart : List ℕ → List (Frame Any) → Type 0
  IsPart part [] = part ≡ []
  IsPart part (f ∷ fs) = length part < length f.bytes

  abbrev pub Cut : List (Frame Any) → List ℕ → List ℕ → Type 0
  Cut fs p q =
      (done : List (Frame Any)) × (rest : List (Frame Any)) × (part : List ℕ) × (fs ≡ done ++ rest)
      × (p ≡ stream done ++ part)
      × (part ++ q ≡ stream rest)
      × IsPart part rest

  pub split_frames : (fs : List (Frame Any)) (p q : List ℕ) → p ++ q ≡ stream fs → Cut fs p q
  unfolding stream
  split_frames [] p q e = ([], [], p, refl, refl, e, empty_append p q e)
  split_frames (f ∷ fs) p q e = elim (Bool-cases (leb (length f.bytes) (length p))) [
    | inr brief ↦ ([], f ∷ fs, p, refl, refl, e, leb_false→lt _ _ brief)
    | inl long ↦
        let (p', begins, e') = split_prefix p q f.bytes (stream fs) e (leb→le _ _ long) in
        let (done, rest, part, a, b, c, d) = split_frames fs p' q e' in
        (
          f ∷ done,
          rest,
          part,
          ap (◌∷◌ f) a,
          begins ∙ ap (◌++◌ f.bytes) b ∙ sym (append_assoc f.bytes (stream done) part),
          c,
          d,
        )
  ]
