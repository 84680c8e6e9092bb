-- ===== src/Base/Assoc.antt =====
-- std::map with number keys, where the program only looks up, inserts and erases.
use farseer.Base.{
  ℕ, ◌≡◌, Bool, true, false, Option, none, some, List, [], ◌∷◌, arith, ◌==◌, if◌then◌else◌,
}

abbrev pub Assoc {ℓ} : Type ℓ → Type ℓ
Assoc V = List (ℕ × V)

module _ {ℓ} {V : Type ℓ} where
  unfoldable pub find : ℕ → Assoc V → Option V
  find k [] = none
  find k ((j, v) ∷ m) = if j == k then some v else find k m

  -- contains
  unfoldable pub contains : ℕ → Assoc V → Bool
  unfolding find
  contains k m = elim (find k m) [ none ↦ false | some _ ↦ true ]

  -- A new key; `insert` and `emplace` leave an entry that is there as it is.
  unfoldable pub insert : ℕ → V → Assoc V → Assoc V
  unfolding contains
  insert k v m = if contains k m then m else (k, v) ∷ m

  -- operator[] = v, or a write through an iterator
  unfoldable pub assign : ℕ → V → Assoc V → Assoc V
  assign k v [] = []
  assign k v ((j, w) ∷ m) = if j == k then (j, v) ∷ m else (j, w) ∷ assign k v m

  unfoldable pub erase : ℕ → Assoc V → Assoc V
  erase k [] = []
  erase k ((j, v) ∷ m) = let rest = erase k m in if j == k then rest else (j, v) ∷ rest

  pub find-erase :
      (k j : ℕ) (m : Assoc V) → find j (erase k m) ≡ (if k == j then none else find j m)
  unfolding find erase
  find-erase k j [] = ground arith
  find-erase k j ((i, v) ∷ m) = ground (arith, find-erase k j m)

  pub find-insert :
      (k j : ℕ) (v : V) (m : Assoc V)
      → contains k m ≡ false
      → find j (insert k v m) ≡ (if k == j then some v else find j m)
  unfolding find insert
  find-insert k j v m h = ground arith

  pub find-insert_kept :
      (k j : ℕ) (v : V) (m : Assoc V) → contains k m ≡ true → find j (insert k v m) ≡ find j m
  unfolding insert
  find-insert_kept k j v m h = ground arith

  pub contains-find : (k : ℕ) (m : Assoc V) → contains k m ≡ false → find k m ≡ none
  unfolding contains
  contains-find k m h = ground arith

  pub find-contains : (k : ℕ) (m : Assoc V) (v : V) → find k m ≡ some v → contains k m ≡ true
  unfolding contains
  find-contains k m v h = ground arith

  pub find-assign :
      (k j : ℕ) (v w : V) (m : Assoc V)
      → find k m ≡ some w
      → find j (assign k v m) ≡ (if k == j then some v else find j m)
  unfolding find assign
  find-assign k j v w [] h = cc
  find-assign k j v w ((i, x) ∷ m) h = ground (arith, find-assign k j v w m)
