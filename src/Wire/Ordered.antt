-- ===== src/Wire/Ordered.antt =====
-- std::map: entries in the order of their keys.
use farseer.Base.Int.{ℤ, pos, negsuc}
use farseer.Base.Chars.{Chars}
use farseer.Base.{
  ◌==◌, ℕ, ◌≡◌, refl, Bool, true, false, List, [], ◌∷◌, ◌++◌, arith, ltb, if◌then◌else◌, All,
}

-- The order that a key type compares by.
pub record KeyOrder (K : Type 0) : Type 0 where
  pub less : K → K → Bool
  pub asym : (j k : K) → less j k ≡ true → less k j ≡ false

abbrev pub OrderedMap : Type 0 → Type 0 → Type 0
OrderedMap K V = List (K × V)

module _ {K V : Type 0} ⦃order : KeyOrder K⦄ where
  -- std::map::emplace: an entry that is there stays as it is.
  unfoldable pub emplace : K → V → OrderedMap K V → OrderedMap K V
  emplace k v [] = (k, v) ∷ []
  emplace k v ((j, w) ∷ m) =
      if order.less k j
      then (k, v) ∷ (j, w) ∷ m
      else if order.less j k
      then (j, w) ∷ emplace k v m
      else (j, w) ∷ m

  -- Every key of the map comes before `k`.
  abbrev pub AllBefore : K → OrderedMap K V → Type 0
  AllBefore k = All (λ e. order.less e.0 k ≡ true)

  -- `rest` continues the map `m` in increasing order.
  abbrev pub Continues : OrderedMap K V → OrderedMap K V → Type 0
  Continues m [] = Unit {0}
  Continues m ((k, v) ∷ rest) = AllBefore k m × Continues (m ++ (k, v) ∷ []) rest

  abbrev pub IsOrdered : OrderedMap K V → Type 0
  IsOrdered = Continues []

  pub emplace_last :
      (k : K) (v : V) (m : OrderedMap K V) → AllBefore k m → emplace k v m ≡ m ++ (k, v) ∷ []
  unfolding emplace
  emplace_last k v [] h = refl
  emplace_last k v ((j, w) ∷ m) h = rw (order.asym j k h.0, h.0, emplace_last k v m h.1) refl

pub ltb_asym : (j k : ℕ) → ltb j k ≡ true → ltb k j ≡ false
ltb_asym j k h = ground arith

instance abbrev pub ℕ_order : KeyOrder ℕ
ℕ_order = record { less = ltb; asym = ltb_asym }

unfoldable pub int_less : ℤ → ℤ → Bool
int_less (pos m) (pos n) = ltb m n
int_less (pos m) (negsuc n) = false
int_less (negsuc m) (pos n) = true
int_less (negsuc m) (negsuc n) = ltb n m

pub int_less_asym : (j k : ℤ) → int_less j k ≡ true → int_less k j ≡ false
unfolding int_less
int_less_asym (pos m) (pos n) h = ground arith
int_less_asym (pos m) (negsuc n) h = cc
int_less_asym (negsuc m) (pos n) h = refl
int_less_asym (negsuc m) (negsuc n) h = ground arith

instance abbrev pub ℤ_order : KeyOrder ℤ
ℤ_order = record { less = int_less; asym = int_less_asym }

-- std::string compares char by char.
unfoldable pub chars_less : Chars → Chars → Bool
chars_less xs [] = false
chars_less [] (y ∷ ys) = true
chars_less (x ∷ xs) (y ∷ ys) =
    let rest = chars_less xs ys in if ltb x y then true else if x == y then rest else false

pub chars_less_asym : (j k : Chars) → chars_less j k ≡ true → chars_less k j ≡ false
unfolding chars_less
chars_less_asym [] [] h = cc
chars_less_asym (x ∷ xs) [] h = cc
chars_less_asym [] (y ∷ ys) h = refl
chars_less_asym (x ∷ xs) (y ∷ ys) h = ground (arith, chars_less_asym xs ys)

abbrev pub chars_order : KeyOrder Chars
chars_order = record { less = chars_less; asym = chars_less_asym }
