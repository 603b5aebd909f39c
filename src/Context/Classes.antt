-- ===== src/Context/Classes.antt =====
-- The class that `execute` chooses.
use arclaunch.Prelude.{
  ℕ, ◌≡◌, refl, true, false, Option, none, some, List, [], ◌∷◌, ◌++◌, Outcome, done, undefined, inl,
  inr, Bool-cases, ap, ◌∙◌, if◌then◌else◌,
}
use mathlib.Core.List.{reverse, reverse-append}
use arclaunch.Element.{
  Element, plain, file, executable, script, group, launch, sequence_node, socket_node,
}
use arclaunch.Context.{
  NodeStorage, executable_node, script_node, launch_node, sequence, socket, casts, recognize,
  context, Site, Construct, execute, execute_loop,
}

-- The class that the schema's documentation gives to a type of element; the base types have none.
unfoldable pub class_of : Element → Option NodeStorage
class_of (executable name x) = some executable_node
class_of (script name x) = some script_node
class_of (launch name es links externals) = some launch_node
class_of (sequence_node name es repeats) = some sequence
class_of (socket_node name es links externals sockets service address) = some socket
class_of (plain name) = none
class_of (file name ps) = none
class_of (group name es) = none

-- The first of the storages whose cast succeeds.
abbrev pub first_cast : List NodeStorage → Element → Option NodeStorage
first_cast [] e = none
first_cast (c ∷ cs) e = if casts c e then some c else first_cast cs e

first_of :
    (c : NodeStorage) (cs : List NodeStorage) (e : Element)
    → casts c e ≡ true
    → first_cast (c ∷ cs) e ≡ some c
first_of c cs e cast = rw cast

pub first_cast-class_of : (e : Element) → first_cast (reverse context.storages) e ≡ class_of e
unfolding context casts class_of
first_cast-class_of (plain name) = refl
first_cast-class_of _ = refl

module _ {W : Type 0} (construct : Construct W) where
  -- `construct` answers NULL, and does nothing, just for an element that is not of its type.
  pub record Casting (made : NodeStorage → Element → Site W → ℕ × Site W) : Type 0 where
    pub refuses :
        (c : NodeStorage) (e : Element) (s : Site W)
        → casts c e ≡ false
        → construct c e s ≡ done none s
    pub makes :
        (c : NodeStorage) (e : Element) (s : Site W)
        → casts c e ≡ true
        → construct c e s ≡ done (some (made c e s).0) (made c e s).1

  abbrev pub stored : ℕ × Site W → Outcome (Site W) ℕ
  stored (node, t) =
      done node (record t { context = record t.context { nodes = t.context.nodes ++ node ∷ [] } })

  -- What `execute` must do for an element of the given class.
  abbrev pub Chosen :
      (NodeStorage → Element → Site W → ℕ × Site W)
      → Element
      → Site W
      → Option NodeStorage
      → Outcome (Site W) ℕ
  Chosen made e s none = undefined
  Chosen made e s (some c) = stored (made c e s)

  module _ {made : NodeStorage → Element → Site W → ℕ × Site W} (h : Casting made) where
    loop-first_cast :
        (cs : List NodeStorage) (e : Element) (s : Site W)
        → execute_loop construct e cs s ≡ Chosen made e s (first_cast cs e)
    unfolding execute_loop
    loop-first_cast [] e s = refl
    loop-first_cast (c ∷ cs) e s = elim (Bool-cases (casts c e)) [
      | inl cast ↦ rw (execute_loop, h.makes c e s cast, cast)
      | inr no_cast ↦ rw (execute_loop, h.refuses c e s no_cast, no_cast) (loop-first_cast cs e s)
    ]

    -- A storage that is registered last serves every element of its type or of one that extends it,
    -- whatever was registered before.
    pub execute-recognize :
        (c : NodeStorage) (e : Element) (s : Site W)
        → casts c e ≡ true
        → execute construct e (record s { context = recognize c s.context })
          ≡ stored (made c e (record s { context = recognize c s.context }))
    unfolding execute recognize
    execute-recognize c e s cast =
        rw (reverse-append s.context.storages (c ∷ []))
          (loop-first_cast _ e _ ∙ ap (Chosen made e _) (first_of c _ e cast))

    -- In the context of the library every element is made by its own class, although a script is
    -- also an executable and a socket node also a launch node. For an element of a base type no
    -- node is made, and the reference that `execute` returns is undefined.
    pub execute-class_of :
        (e : Element) (s : Site W)
        → s.context.storages ≡ context.storages
        → execute construct e s ≡ Chosen made e s (class_of e)
    unfolding execute
    execute-class_of e s reg =
        ap (λ cs. execute_loop construct e (reverse cs) s) reg
        ∙ loop-first_cast (reverse context.storages) e s
        ∙ ap (Chosen made e s) (first_cast-class_of e)
