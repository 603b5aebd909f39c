-- ===== src/Build/Found.antt =====
-- `execute` finds the class of an element, and makes the node by its constructor.
use arclaunch.Prelude.{ℕ, suc, ◌≡◌, ◌∙◌, ap, some, List, [], ◌∷◌, arith, done, Bool-cases, inl, inr}
use mathlib.Core.List.{reverse}
use arclaunch.Text.{Text}
use arclaunch.NameMap.{NameMap, find_name}
use arclaunch.Element.{Element, Elements}
use arclaunch.Context.{NodeStorage, casts, Site, execute, execute_loop, group_nodes, context}
use arclaunch.Context.Classes.{class_of, first_cast, first_cast-class_of}
use arclaunch.Os.{Net}
use arclaunch.Memory.{Memory}
use arclaunch.Build.{make, construct}
use arclaunch.Build.Trees.{Choose, occurs, HasNoSocket, HaveNoSocket, Built, Leads}
use arclaunch.Build.Places.{Left, stored, newed}

module _ {K : Type 0} (net : Net K) where
  loop_finds :
      (depth : ℕ) (e : Element) (s t : Site (Memory K)) (cs : List NodeStorage) (c : NodeStorage)
      → first_cast cs e ≡ some c
      → make net (execute (construct net depth)) c s.world.next e (newed s) ≡ done tt t
      → execute_loop (construct net (suc depth)) e cs s ≡ done s.world.next (stored s.world.next t)
  unfolding execute_loop construct
  loop_finds depth e s t [] c f run = absurd (cc)
  loop_finds depth e s t (c' ∷ cs) c f run = elim (Bool-cases (casts c' e)) [
    | inl cast ↦
        let same : c' ≡ c = ground (arith, f) in rw (execute_loop, construct, cast, same, run)
    | inr no_cast ↦
        rw (execute_loop, construct, no_cast)
          (loop_finds depth e s t cs c (ground (arith, f, no_cast)) run)
  ]

  finds :
      (depth : ℕ) (e : Element) (s t : Site (Memory K)) (c : NodeStorage)
      → s.context.storages ≡ context.storages
      → class_of e ≡ some c
      → make net (execute (construct net depth)) c s.world.next e (newed s) ≡ done tt t
      → execute (construct net (suc depth)) e s ≡ done s.world.next (stored s.world.next t)
  unfolding execute
  finds depth e s t c reg is run =
      loop_finds depth e s t (reverse s.context.storages) c
        (ap (λ cs. first_cast (reverse cs) e) reg ∙ first_cast-class_of e ∙ is) run

  abbrev pub Result : ℕ → Element → Site (Memory K) → Type 0
  Result depth e s =
      (t : Site (Memory K)) × (execute (construct net depth) e s ≡ done s.world.next t)
      × Left (HasNoSocket e) s t
      × Built t.world.next t.world.world s.world.next e

  pub finishes :
      (depth : ℕ) (e : Element) (s t : Site (Memory K)) (c : NodeStorage)
      → s.context.storages ≡ context.storages
      → class_of e ≡ some c
      → make net (execute (construct net depth)) c s.world.next e (newed s) ≡ done tt t
      → Left (HasNoSocket e) s t
      → Built t.world.next t.world.world s.world.next e
      → Result (suc depth) e s
  finishes depth e s t c reg is run l b = (
    stored s.world.next t,
    finds depth e s t c reg is run,
    record { storages = l.storages; store = l.store; grows = l.grows; sockets = λ n. l.sockets n },
    b,
  )

  abbrev pub Members : ℕ → Elements → NameMap → Site (Memory K) → Type 0
  Members depth es nodes s =
      (m : NameMap) × (t : Site (Memory K)) × (group_nodes (execute (construct net depth)) es nodes
          s
        ≡ done m t)
      × Left (HaveNoSocket es) s t
      × ((k : Text)
          → Choose (occurs k es) (Leads t.world.next t.world.world k (find_name k m) es)
              (find_name k m ≡ find_name k nodes))
