-- ===== src/Context/Group.antt =====
-- The members of a group by their names.
use arclaunch.Prelude.{
  ℕ, ◌≡◌, refl, Option, some, [], ◌∷◌, Exec, done, arith, if◌then◌else◌, ap, ◌∙◌,
}
use arclaunch.Text.{Text, text_eq, eq_of_text_eq, text_eq_refl}
use arclaunch.NameMap.{NameMap, find_name, insert_name}
use arclaunch.Element.{Element, Elements, nil, cons}
use arclaunch.Context.{group_nodes, name_of}

pub find_name-insert_name :
    (k j : Text) (n : ℕ) (m : NameMap)
    → find_name j (insert_name k n m) ≡ (if text_eq k j then some n else find_name j m)
unfolding find_name insert_name
find_name-insert_name k j n [] = refl
find_name-insert_name k j n ((i, x) ∷ m) = ground (
  arith,
  find_name-insert_name k j n m,
  eq_of_text_eq i k,
  eq_of_text_eq i j,
  eq_of_text_eq k j,
  text_eq_refl k,
  text_eq_refl i,
  text_eq_refl j,
)

-- The node of the last member that has the name, or else what was there.
abbrev pub last_named : (Element → ℕ) → Text → Option ℕ → Elements → Option ℕ
last_named made k found nil = found
last_named made k found (cons e es) =
    last_named made k (if text_eq (name_of e) k then some (made e) else found) es

module _ {S : Type 0} (execute : Element → Exec S ℕ) (made : Element → ℕ)
    (next : Element → S → S) where
  -- If every member can be made, the group is made, and a name leads to the node of the last member
  -- that has it: an earlier member of the same name is dropped.
  pub group_nodes-last_named :
      (es : Elements) (nodes : NameMap) (s : S)
      → ((e : Element) (t : S) → execute e t ≡ done (made e) (next e t))
      → (m : NameMap) × (t : S) × (group_nodes execute es nodes s ≡ done m t)
        × ((k : Text) → find_name k m ≡ last_named made k (find_name k nodes) es)
  unfolding group_nodes
  group_nodes-last_named nil nodes s h = (nodes, s, refl, λ k. refl)
  group_nodes-last_named (cons e es) nodes s h =
      let (m, t, run, names) =
        group_nodes-last_named es (insert_name (name_of e) (made e) nodes) (next e s) h in
      (
        m,
        t,
        ground (arith, h e s, run),
        λ k.
            names k
            ∙ ap (λ o. last_named made k o es) (find_name-insert_name (name_of e) k (made e) nodes),
      )
