-- ===== src/Node/Instances/Finish.antt =====
-- What `finishInstance` does.
use arclaunch.Prelude.{
  ℕ, ◌≡◌, refl, false, List, [], ◌∷◌, ◌++◌, map, done, ap, sym, ◌∙◌, arith, some, bind-done,
}
use mathlib.Core.List.{append-nil, append_assoc, map-append}
use arclaunch.Prelude.Map.{IsMap, lookup, erase, lookup-erase}
use arclaunch.Node.{external}
use arclaunch.Node.Instances.{instance_is_running, run_handlers, finish_instance, handlers_of}
use arclaunch.World.{World, Callback, Call, set_base}

abbrev pub call_of : ℕ → ℕ → ℕ → ℕ → Call
call_of retval p inst tag = record { tag = tag; retval = retval; node = p; inst = inst }

module _ {K : Type 0} where
  abbrev pub noted : ℕ → ℕ → ℕ → ℕ → World K → World K
  noted tag retval p inst w = record w { calls = w.calls ++ call_of retval p inst tag ∷ [] }

  -- The callback of a user's handler notes its arguments.
  abbrev pub Notes : Callback K → Type 0
  Notes call =
      (tag retval p inst : ℕ) (w : World K)
      → call (external tag) retval p inst w ≡ done tt (noted tag retval p inst w)

  run_handlers-external :
      (call : Callback K) (retval p inst : ℕ) (tags : List ℕ) (w : World K)
      → Notes call
      → run_handlers call retval p inst (map external tags) w
        ≡ done tt (record w { calls = w.calls ++ map (call_of retval p inst) tags })
  unfolding run_handlers
  run_handlers-external call retval p inst [] w n = rw append-nil
  run_handlers-external call retval p inst (t ∷ tags) w n =
      bind-done (call (external t) retval p inst) _ (n t retval p inst w)
      ∙ run_handlers-external call retval p inst tags (noted t retval p inst w) n
      ∙ ap (λ cs. done tt (record w { calls = cs })) (append_assoc w.calls _ _)

  abbrev pub finished : ℕ → ℕ → ℕ → List ℕ → World K → World K
  finished retval p inst tags w =
      set_base p (record (w.base p) { instances = erase inst (w.base p).instances })
        (record w { calls = w.calls ++ map (call_of retval p inst) tags })

  pub finish_instance-finished :
      (call : Callback K) (retval p inst : ℕ) (general own : List ℕ) (w : World K)
      → Notes call
      → (w.base p).on_death ≡ map external general
      → lookup inst (w.base p).instances ≡ some (map external own)
      → finish_instance call p inst retval w ≡ done tt (finished retval p inst (general ++ own) w)
  unfolding finish_instance instance_is_running
  finish_instance-finished call retval p inst general own w n eg eo = ground (arith, first, second)
    where
      between : World K
      between = record w { calls = w.calls ++ map (call_of retval p inst) general }

      first : run_handlers call retval p inst (w.base p).on_death w ≡ done tt between
      first = rw eg (run_handlers-external call retval p inst general w n)

      second :
          run_handlers call retval p inst (handlers_of (lookup inst (w.base p).instances)) between
          ≡ done tt (record w { calls = w.calls ++ map (call_of retval p inst) (general ++ own) })
      second = rw eo (
          run_handlers-external call retval p inst own between n
          ∙ ap (λ cs. done tt (record w { calls = cs }))
              (append_assoc w.calls _ _
                ∙ ap (λ cs. w.calls ++ cs) (sym (map-append _ general own))))

  -- When an instance with users' handlers ends, each handler of the node and then each handler of
  -- the instance is called once, in the order of registration, with the return value, the node and
  -- the instance, and after that the instance is not running.
  pub finish_instance-external :
      (call : Callback K) (retval p inst : ℕ) (general own : List ℕ) (w : World K)
      → Notes call
      → IsMap (w.base p).instances
      → (w.base p).on_death ≡ map external general
      → lookup inst (w.base p).instances ≡ some (map external own)
      → (v : World K) × (finish_instance call p inst retval w ≡ done tt v)
        × (v.calls ≡ w.calls ++ map (call_of retval p inst) (general ++ own))
        × (instance_is_running inst (v.base p) ≡ false)
  unfolding instance_is_running
  finish_instance-external call retval p inst general own w n asc eg eo = (
    finished retval p inst (general ++ own) w,
    finish_instance-finished call retval p inst general own w n eg eo,
    refl,
    ground (arith, lookup-erase inst inst 0 (w.base p).instances asc),
  )
