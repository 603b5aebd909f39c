-- ===== src/Sequence/Ready.antt =====
-- A running sequence to which no descriptor is linked, with the nodes that are left.
use arclaunch.Prelude.{
  ℕ, pos, incr, ◌≡◌, refl, Bool, true, false, some, List, [], ◌∷◌, ◌++◌, arith, ◌==◌, ◌⊎◌, inl, inr,
  length, length-append, get_elem?, not, ◌||◌,
}
use mathlib.Core.List.{append-nil}
use arclaunch.Text.{Text}
use arclaunch.NameMap.{NameMap}
use arclaunch.Sequence.{at_end, stage_name}
use arclaunch.Sequence.Course.{Runs}
use arclaunch.World.{World, RunningSequence}

get_elem?-append :
    (gone : List Text) (t : Text) (rest : List Text)
    → get_elem? (gone ++ t ∷ rest) (length gone) ≡ some t
get_elem?-append [] t rest = refl
get_elem?-append (x ∷ gone) t rest = get_elem?-append gone t rest

pub not_at_end :
    (gone rest : List Text) (t : Text)
    → at_end (pos (length gone)) (length (gone ++ t ∷ rest)) ≡ false
unfolding at_end
not_at_end gone rest t = ground (arith, length-append gone (t ∷ rest))

end_of : (gone : List Text) → at_end (pos (length gone)) (length gone) ≡ true
unfolding at_end
end_of gone = ground arith

pub stage_name-append :
    (gone rest : List Text) (t : Text) → stage_name (pos (length gone)) (gone ++ t ∷ rest) ≡ some t
unfolding stage_name
stage_name-append gone rest t = get_elem?-append gone t rest

module _ {K : Type 0} where
  pub record Ready (w : World K) (p i : ℕ) (nodes : NameMap) (gone rest : List Text)
      (r : RunningSequence) : Type 0 where
    pub runs : Runs w p i nodes (gone ++ rest) r
    pub owner : r.owner ≡ p
    pub number : r.inst_num ≡ some i
    pub no_fds : r.node.fd_map ≡ []
    pub stage : incr r.stage ≡ pos (length gone)

  pub Ready-stops :
      (w : World K) (p i retval : ℕ) (nodes : NameMap) (gone rest : List Text) (r : RunningSequence)
      → Ready w p i nodes gone rest r
      → ((retval == 0) ≡ false) ⊎ (rest ≡ [])
      → (not (retval == 0) || at_end (incr r.stage) (length (gone ++ rest))) ≡ true
  Ready-stops w p i retval nodes gone rest r h (inl e) = rw e
  Ready-stops w p i retval nodes gone rest r h (inr e) =
      rw (e, append-nil gone, h.stage, end_of gone) (go (retval == 0))
    where
      go : (b : Bool) → (not b || true) ≡ true
      go true = refl
      go false = refl
