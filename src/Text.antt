-- ===== src/Text.antt =====
-- std::string and std::vector<char>: sequences of byte values.
use Prim.Native.Char.{code}
use Prim.Native.String.{String}
use arclaunch.Prelude.{
  ℕ, ◌≡◌, refl, ◌≢◌, Bool, true, false, ◌&&◌, List, [], ◌∷◌, ◌++◌, arith, ltb, ◌==◌, if◌then◌else◌,
}

abbrev pub Text : Type 0
Text = List ℕ

-- A literal of the source; all of them are ASCII.
abbrev pub codes : String → Text
codes String.[] = []
codes (String.◌∷◌ c s) = code c ∷ codes s

-- operator== of std::string
unfoldable pub text_eq : Text → Text → Bool
text_eq [] [] = true
text_eq [] (y ∷ ys) = false
text_eq (x ∷ xs) [] = false
text_eq (x ∷ xs) (y ∷ ys) = x == y && text_eq xs ys

-- operator< of std::string, the order of the keys of a std::map
unfoldable pub text_less : Text → Text → Bool
text_less [] [] = false
text_less [] (y ∷ ys) = true
text_less (x ∷ xs) [] = false
text_less (x ∷ xs) (y ∷ ys) = if x == y then text_less xs ys else ltb x y

-- What a C function reads from a buffer: the bytes before the first NUL.
unfoldable pub c_string : Text → Text
c_string [] = []
c_string (x ∷ xs) = if x == 0 then [] else x ∷ c_string xs

-- The byte does not occur.
abbrev pub Without : ℕ → Text → Type 0
Without c [] = Unit {0}
Without c (x ∷ xs) = (x ≢ c) × Without c xs

pub text_eq_refl : (s : Text) → text_eq s s ≡ true
unfolding text_eq
text_eq_refl [] = refl
text_eq_refl (x ∷ xs) = ground (arith, text_eq_refl xs)

pub eq_of_text_eq : (s t : Text) → text_eq s t ≡ true → s ≡ t
unfolding text_eq
eq_of_text_eq [] [] e = refl
eq_of_text_eq [] (y ∷ ys) e = cc
eq_of_text_eq (x ∷ xs) [] e = cc
eq_of_text_eq (x ∷ xs) (y ∷ ys) e = ground (arith, eq_of_text_eq xs ys)

pub c_string-append_nul : (s rest : Text) → Without 0 s → c_string (s ++ 0 ∷ rest) ≡ s
unfolding c_string
c_string-append_nul [] rest h = refl
c_string-append_nul (x ∷ xs) rest h = ground (arith, c_string-append_nul xs rest h.1)

pub c_string-Without : (s : Text) → Without 0 (c_string s)
unfolding c_string
c_string-Without [] = tt
c_string-Without (x ∷ xs) = ground (arith, c_string-Without xs)
