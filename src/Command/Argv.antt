-- ===== src/Command/Argv.antt =====
-- What the argument and environment buffers say to the started program.
use arclaunch.Prelude.{
  ℕ, ◌≡◌, refl, Option, none, some, List, [], ◌∷◌, ◌++◌, map, All, arith, ◌==◌, if◌then◌else◌, ap,
}
use mathlib.Core.List.{append_assoc}
use arclaunch.Text.{Text, Without, c_string, c_string-append_nul, codes}
use arclaunch.Element.{Env}
use arclaunch.Command.{arg_sequence_to_arg_data, env_sequence_to_env_data}

-- The program's `argv` holds the arguments of the element, each whole and in their order: no text
-- from XML holds a NUL.
pub c_string-arg_sequence_to_arg_data :
    (args : List Text) → All (Without 0) args → map c_string (arg_sequence_to_arg_data args) ≡ args
unfolding arg_sequence_to_arg_data
c_string-arg_sequence_to_arg_data [] h = refl
c_string-arg_sequence_to_arg_data (a ∷ args) h =
    rw (c_string-append_nul a [] h.0, c_string-arg_sequence_to_arg_data args h.1)

abbrev prefix_key : ℕ → Option (Text × Text) → Option (Text × Text)
prefix_key x none = none
prefix_key x (some (k, v)) = some (x ∷ k, v)

-- How `getenv` reads an entry: the key is what stands before the first `=`.
pub read_entry : Text → Option (Text × Text)
read_entry [] = none
read_entry (x ∷ xs) = if x == b'=' then some ([], xs) else prefix_key x (read_entry xs)

read_entry_lem : (k v : Text) → Without b'=' k → read_entry (k ++ b'=' ∷ v) ≡ some (k, v)
unfolding read_entry
read_entry_lem [] v h = refl
read_entry_lem (x ∷ k) v h = ground (arith, read_entry_lem k v h.1)

abbrev pub env_of : Text × Text → Env
env_of (k, v) = record { key = some k; value = some v }

-- A key holds neither `=` nor NUL, and a value no NUL.
abbrev pub IsEntry : Text × Text → Type 0
IsEntry (k, v) = Without b'=' k × Without 0 k × Without 0 v

Without-append : (c : ℕ) (s t : Text) → Without c s → Without c t → Without c (s ++ t)
Without-append c [] t hs ht = ht
Without-append c (x ∷ s) t hs ht = (hs.0, Without-append c s t hs.1 ht)

entry_text : Text × Text → Text
entry_text (k, v) = (k ++ b'=' ∷ v) ++ 0 ∷ []

entry_text_lem : (k v : Text) → k ++ codes "=" ++ v ++ 0 ∷ [] ≡ entry_text (k, v)
unfolding entry_text
entry_text_lem k v = simp append_assoc

env_data_lem :
    (ps : List (Text × Text)) → env_sequence_to_env_data (map env_of ps) ≡ some (map entry_text ps)
unfolding env_sequence_to_env_data
env_data_lem [] = refl
env_data_lem ((k, v) ∷ ps) =
    rw (env_data_lem ps) (ap (λ t. some (t ∷ map entry_text ps)) (entry_text_lem k v))

read-entry_text : (p : Text × Text) → IsEntry p → read_entry (c_string (entry_text p)) ≡ some p
unfolding entry_text
read-entry_text (k, v) (eq, nul, nul') =
    rw
      (c_string-append_nul (k ++ b'=' ∷ v) [] (Without-append 0 k (b'=' ∷ v) nul ((λ e. cc), nul')))
      (read_entry_lem k v eq)

-- If every variable of the element has its key and its value, no key has a `=` or a NUL and no value
-- a NUL, the buffers are defined, and the program reads from them the same variables in the same
-- order.
pub read_entry-env_sequence_to_env_data :
    (ps : List (Text × Text))
    → All IsEntry ps
    → (data_list : List Text) × (env_sequence_to_env_data (map env_of ps) ≡ some data_list)
      × (map (λ t. read_entry (c_string t)) data_list ≡ map some ps)
read_entry-env_sequence_to_env_data ps h = (map entry_text ps, env_data_lem ps, reads ps h)
  where
    reads :
        (qs : List (Text × Text))
        → All IsEntry qs
        → map (λ t. read_entry (c_string t)) (map entry_text qs) ≡ map some qs
    reads [] g = refl
    reads (q ∷ qs) g = rw (read-entry_text q g.0, reads qs g.1)
