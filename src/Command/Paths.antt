-- ===== src/Command/Paths.antt =====
-- What a path element's buffer says to the system: the names between the separators are those of
-- the element.
use arclaunch.Prelude.{
  ℕ, ◌≡◌, refl, Bool, true, false, List, [], ◌∷◌, ◌++◌, All, arith, ◌==◌, if◌then◌else◌, ap, ◌∙◌,
}
use mathlib.Core.List.{append-nil}
use arclaunch.Text.{Text, Without, c_string, c_string-append_nul}
use arclaunch.Element.{FilePath}
use arclaunch.Command.{dir_seperator, path_loop, path_elem_to_path_data}

abbrev prefix_first : ℕ → List Text → List Text
prefix_first x [] = (x ∷ []) ∷ []
prefix_first x (s ∷ ss) = (x ∷ s) ∷ ss

-- The pieces of a text between the occurrences of a byte.
pub split : ℕ → Text → List Text
split c [] = [] ∷ []
split c (x ∷ xs) = if x == c then [] ∷ split c xs else prefix_first x (split c xs)

split-single : (c : ℕ) (d : Text) → Without c d → split c d ≡ d ∷ []
unfolding split
split-single c [] h = refl
split-single c (x ∷ xs) h = ground (arith, split-single c xs h.1)

split-piece : (c : ℕ) (d rest : Text) → Without c d → split c (d ++ c ∷ rest) ≡ d ∷ split c rest
unfolding split
split-piece c [] rest h = ground arith
split-piece c (x ∷ xs) rest h = ground (arith, split-piece c xs rest h.1)

-- A file name of the schema has no separator, and it has no NUL.
abbrev pub IsFileName : Text → Type 0
IsFileName d = Without dir_seperator d × Without 0 d

Without-append : (c : ℕ) (s t : Text) → Without c s → Without c t → Without c (s ++ t)
Without-append c [] t hs ht = ht
Without-append c (x ∷ s) t hs ht = (hs.0, Without-append c s t hs.1 ht)

path_loop-Without : (b : Bool) (ds : List Text) → All IsFileName ds → Without 0 (path_loop b ds)
unfolding path_loop
path_loop-Without b [] h = tt
path_loop-Without true (d ∷ ds) h =
    ((λ e. cc), Without-append 0 d _ h.0.1 (path_loop-Without true ds h.1))
path_loop-Without false (d ∷ ds) h = Without-append 0 d _ h.0.1 (path_loop-Without true ds h.1)

-- What `path_loop` appends after a first name.
split-path_loop :
    (d : Text) (ds : List Text)
    → IsFileName d
    → All IsFileName ds
    → split dir_seperator (d ++ path_loop true ds) ≡ d ∷ ds
unfolding path_loop
split-path_loop d [] h hs = rw append-nil (split-single dir_seperator d h.0)
split-path_loop d (e ∷ ds) h hs =
    split-piece dir_seperator d _ h.0 ∙ ap (◌∷◌ d) (split-path_loop e ds hs.0 hs.1)

-- The system reads from the buffer of a path element that names at least one file the names of the
-- element, in their order, with an empty first piece just if the path is absolute.
pub split-path_elem_to_path_data :
    (p : FilePath) (d : Text) (ds : List Text)
    → p.directory ≡ d ∷ ds
    → All IsFileName (d ∷ ds)
    → split dir_seperator (c_string (path_elem_to_path_data p))
      ≡ (if p.absolute then [] ∷ d ∷ ds else d ∷ ds)
unfolding path_elem_to_path_data
split-path_elem_to_path_data p d ds e h =
    rw
      (
        e,
        c_string-append_nul (path_loop p.absolute (d ∷ ds)) []
            (path_loop-Without p.absolute (d ∷ ds) h),
      )
      (start p.absolute)
  where
    start :
        (b : Bool)
        → split dir_seperator (path_loop b (d ∷ ds)) ≡ (if b then [] ∷ d ∷ ds else d ∷ ds)
    start true = unfold path_loop split in ap (◌∷◌ []) (split-path_loop d ds h.0 h.1)
    start false = unfold path_loop in split-path_loop d ds h.0 h.1
