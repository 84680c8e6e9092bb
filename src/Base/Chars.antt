-- ===== src/Base/Chars.antt =====
-- std::string as the list of its chars: comparison and literals.
use Prim.Native.Char.{code}
use Prim.Native.String.{String}
use farseer.Base.{
  ℕ, ◌≡◌, refl, Bool, true, false, List, [], ◌∷◌, ◌==◌, ==_refl, arith, if◌then◌else◌,
}

abbrev pub Chars : Type 0
Chars = List ℕ

-- The chars of a literal, which are ASCII in the program.
unfoldable pub chars : String → Chars
chars String.[] = []
chars (String.◌∷◌ c s) = code c ∷ chars s

unfoldable pub same_chars : Chars → Chars → Bool
same_chars [] [] = true
same_chars [] (y ∷ ys) = false
same_chars (x ∷ xs) [] = false
same_chars (x ∷ xs) (y ∷ ys) = let rest = same_chars xs ys in if x == y then rest else false

pub same_chars_refl : (xs : Chars) → same_chars xs xs ≡ true
unfolding same_chars
same_chars_refl [] = refl
same_chars_refl (x ∷ xs) = rw (==_refl x, same_chars_refl xs) refl

pub same_chars_eq : (xs ys : Chars) → same_chars xs ys ≡ true → xs ≡ ys
unfolding same_chars
same_chars_eq [] [] h = refl
same_chars_eq [] (y ∷ ys) h = cc
same_chars_eq (x ∷ xs) [] h = cc
same_chars_eq (x ∷ xs) (y ∷ ys) h = ground (arith, same_chars_eq xs ys)

-- A std::set<std::string> that is only asked and extended.
unfoldable pub member : Chars → List Chars → Bool
member x [] = false
member x (y ∷ ys) = let rest = member x ys in if same_chars x y then true else rest
