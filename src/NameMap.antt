-- ===== src/NameMap.antt =====
-- std::map<std::string, Node*>: pairs in the order of the names, which is the iterators' order.
use arclaunch.Prelude.{ℕ, Option, none, some, List, [], ◌∷◌, if◌then◌else◌}
use arclaunch.Text.{Text, text_eq, text_less}

abbrev pub NameMap : Type 0
NameMap = List (Text × ℕ)

unfoldable pub find_name : Text → NameMap → Option ℕ
find_name k [] = none
find_name k ((j, n) ∷ m) = if text_eq j k then some n else find_name k m

unfoldable pub insert_name : Text → ℕ → NameMap → NameMap
insert_name k n [] = (k, n) ∷ []
insert_name k n ((j, x) ∷ m) =
    if text_less k j
    then (k, n) ∷ (j, x) ∷ m
    else if text_eq j k
    then (k, n) ∷ m
    else (j, x) ∷ insert_name k n m
