-- ===== src/Build/Names.antt =====
-- The names of the members of a group, as the loop of the GroupNode constructor finds them.
use arclaunch.Prelude.{ℕ, ◌≡◌, Bool, true, false, ◌||◌, Option, none, some, arith, if◌then◌else◌}
use arclaunch.Text.{Text, text_eq}
use arclaunch.NameMap.{NameMap, find_name}
use arclaunch.Element.{Elements, nil, cons}
use arclaunch.World.{World, Derived, set_derived}
use arclaunch.Context.{Site, name_of}
use arclaunch.Memory.{Memory}
use arclaunch.Build.Trees.{Choose, occurs, Built, Leads, Named, stays_all}
use arclaunch.Build.Kept.{IsStore}
use arclaunch.Build.Places.{Left, newed, empty_place, placed-KeepsBelow}

-- The names after one more member.
pub names_step :
    (b c : Bool) (L : Type 0) (B : ℕ → Type 0) (f g : Option ℕ) (p : ℕ)
    → Choose b L (f ≡ (if c then some p else g))
    → B p
    → Choose (c || b) (Choose b L (Choose c ((p : ℕ) × (f ≡ some p) × B p) (f ≡ none))) (f ≡ g)
names_step true true L B f g p h k = h
names_step true false L B f g p h k = h
names_step false true L B f g p h k = (p, h, k)
names_step false false L B f g p h k = h

collapse :
    (b c : Bool) (L S N : Type 0)
    → Choose (c || b) (Choose b L (Choose c S N)) N
    → Choose b L (Choose c S N)
collapse true true L S N h = h
collapse true false L S N h = h
collapse false true L S N h = h
collapse false false L S N h = h

module _ {K : Type 0} where
  -- A name that no member has leads nowhere.
  pub all_names :
      (n : ℕ) (w : World K) (k : Text) (o : Option ℕ) (es : Elements)
      → Choose (occurs k es) (Leads n w k o es) (o ≡ none)
      → Leads n w k o es
  unfolding occurs Built
  all_names n w k o nil h = h
  all_names n w k o (cons e es) h = collapse (occurs k es) (text_eq (name_of e) k) _ _ _ h

  -- The names of a group after the group itself has been written.
  pub placed-Named :
      {P : Type 0} (s u : Site (Memory K)) (d : Derived) (m : NameMap) (es : Elements)
      → IsStore s.world
      → Left P (newed s) u
      → ((k : Text)
          → Choose
              (occurs k es)
              (Leads u.world.next u.world.world k (find_name k m) es)
              (find_name k m ≡ none))
      → Named u.world.next (set_derived s.world.next d u.world.world) m es
  placed-Named s u d m es h l names k =
      let (lt, empty, no_socket) = empty_place s u h l in
      stays_all u.world.world (set_derived s.world.next d u.world.world) (omega arith)
        (placed-KeepsBelow u.world.next s.world.next u.world.world d empty) k (find_name k m) es
        (all_names u.world.next u.world.world k (find_name k m) es (names k))
