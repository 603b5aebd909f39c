-- ===== src/Main/Options.antt =====
-- What the options mean.
use arclaunch.Prelude.{suc, ◌≡◌, refl, true, false, List, [], ◌∷◌, ◌++◌, arith, ◌⊎◌, ◌↔◌, inl, inr}
use arclaunch.Text.{Text, text_eq}
use arclaunch.Main.{
  Settings, version_option, persist_option, read_options, Ending, returned, xml_exception,
  other_exception, exit_status, main, no_settings,
}

pub data Flag : Type 0 where
  version persist : Flag

abbrev pub spell : Flag → Text
spell version = version_option
spell persist = persist_option

-- The settings after some flags.
abbrev pub apply : Flag → Settings → Settings
apply version s = record s { versions = suc s.versions }
apply persist s = record s { persist = true }

abbrev pub apply_all : List Flag → Settings → Settings
apply_all [] s = s
apply_all (f ∷ fs) s = apply_all fs (apply f s)

-- The first remaining argument is no flag.
abbrev pub StopsAt : List Text → Type 0
StopsAt [] = Unit {0}
StopsAt (a ∷ rest) = (text_eq a version_option ≡ false) × (text_eq a persist_option ≡ false)

abbrev pub spell_all : List Flag → List Text
spell_all [] = []
spell_all (f ∷ fs) = spell f ∷ spell_all fs

read_stop : (rest : List Text) (s : Settings) → StopsAt rest → read_options rest s ≡ (s, rest)
unfolding read_options
read_stop [] s h = refl
read_stop (a ∷ rest) s h = ground arith

-- The options of the program are the flags before the first argument that is none, in any order and
-- number; an unknown argument that begins with `--` ends them and is taken for the file.
pub read_options-spell_all :
    (fs : List Flag) (rest : List Text) (s : Settings)
    → StopsAt rest
    → read_options (spell_all fs ++ rest) s ≡ (apply_all fs s, rest)
unfolding read_options
read_options-spell_all [] rest s h = read_stop rest s h
read_options-spell_all (version ∷ fs) rest s h = read_options-spell_all fs rest _ h
read_options-spell_all (persist ∷ fs) rest s h = read_options-spell_all fs rest _ h

-- The program ends with status 1 just if no file is named or the file is refused as XML, and with
-- status 0 in every other case; also a file that cannot be run for another reason ends with 0.
pub main-spell_all :
    (run : Settings → Text → Ending) (fs : List Flag) (rest : List Text)
    → StopsAt rest
    → ((main run (spell_all fs ++ rest) ≡ 1) ↔ (
        (rest ≡ [])
        ⊎ ((file : Text) × (more : List Text) × (rest ≡ file ∷ more)
            × (run (apply_all fs no_settings) file ≡ xml_exception))))
      × ((main run (spell_all fs ++ rest) ≡ 1) ⊎ (main run (spell_all fs ++ rest) ≡ 0))
unfolding main
main-spell_all run fs [] h =
    rw (main, read_options-spell_all fs [] no_settings h) (((λ e. inl refl), (λ e. refl)), inl refl)
main-spell_all run fs (file ∷ more) h =
    rw (main, read_options-spell_all fs (file ∷ more) no_settings h) (go (run _ file) refl)
  where
    go :
        (o : Ending)
        → run (apply_all fs no_settings) file ≡ o
        → ((exit_status o ≡ 1) ↔ (
            (file ∷ more ≡ [])
            ⊎ ((f : Text) × (m : List Text) × (file ∷ more ≡ f ∷ m)
                × (run (apply_all fs no_settings) f ≡ xml_exception))))
          × ((exit_status o ≡ 1) ⊎ (exit_status o ≡ 0))
    go returned e = (((λ x. cc), (λ x. ground arith)), inr refl)
    go xml_exception e = (((λ x. inr (file, more, refl, e)), (λ x. refl)), inl refl)
    go other_exception e = (((λ x. cc), (λ x. ground arith)), inr refl)
