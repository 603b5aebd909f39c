-- ===== src/Main/Pipe.antt =====
-- The named pipe of --persist.
use arclaunch.Prelude.{Bool-cases, inl, inr, ◌≡◌, refl, Bool, false, List, [], ◌∷◌}
use arclaunch.Text.{Text}
use arclaunch.Main.{
  Settings, Ending, returned, xml_exception, other_exception, Launcher, persist_block, try_block,
  catch_block, run_rest, run_program, read_options, no_settings, main, run_file,
}

module _ {F : Type 0} (l : Launcher F) where
  -- `piped` says that the pipe is there: unlink takes it away, and nothing but mkfifo makes it.
  pub record IsLauncher (piped : F → Bool) : Type 0 where
    pub start : (file : Text) (f : F) → piped f ≡ false → piped (l.start file f).1 ≡ false
    pub mkfifo : (f : F) → piped f ≡ false → (l.mkfifo f).0 ≡ false → piped (l.mkfifo f).1 ≡ false
    pub unlink : (f : F) → piped (l.unlink f) ≡ false
    pub wait_for : (f : F) → piped f ≡ false → piped (l.wait_for f).1 ≡ false

  status_lem :
      (r : Settings × List Text) (f : F)
      → (run_rest l r f).0 ≡ run_file (λ s file. (try_block l s file f).0) r
  unfolding run_rest run_file
  status_lem (s, []) f = refl
  status_lem (s, file ∷ others) f = refl

  module _ (piped : F → Bool) (h : IsLauncher piped) where
    persist_gone : (s : Settings) (f : F) → piped f ≡ false → piped (persist_block l s f) ≡ false
    unfolding persist_block
    persist_gone s f none_yet = elim (Bool-cases s.persist) [
      | inl persist ↦ elim (Bool-cases (l.mkfifo f).0) [
        | inl made ↦ rw (persist, made) (h.unlink (l.read_fifo (l.mkfifo f).1))
        | inr failed ↦ rw (persist, failed) (h.mkfifo f none_yet failed)
      ]
      | inr once ↦ rw once none_yet
    ]

    catch_gone : (e : Ending) (g : F) → piped g ≡ false → piped (catch_block l e g) ≡ false
    unfolding catch_block
    catch_gone returned g gone = gone
    catch_gone xml_exception g gone = h.unlink g
    catch_gone other_exception g gone = gone

    ended_gone :
        (s : Settings) (o : Ending) (g : F)
        → piped g ≡ false
        → let (ending, g') : Ending × F = elim o [
          | returned ↦ l.wait_for (persist_block l s g)
          | e ↦ (e, g)
        ] in
          piped (catch_block l ending g') ≡ false
    ended_gone s returned g gone =
        catch_gone (l.wait_for (persist_block l s g)).0 (l.wait_for (persist_block l s g)).1
          (h.wait_for (persist_block l s g) (persist_gone s g gone))
    ended_gone s xml_exception g gone = catch_gone xml_exception g gone
    ended_gone s other_exception g gone = catch_gone other_exception g gone

    rest_gone :
        (r : Settings × List Text) (f : F) → piped f ≡ false → piped (run_rest l r f).1 ≡ false
    unfolding run_rest try_block
    rest_gone (s, []) f gone = gone
    rest_gone (s, file ∷ others) f gone =
        ended_gone s (l.start file f).0 (l.start file f).1 (h.start file f gone)

  -- Whatever the arguments are and however the file ends, the program leaves no pipe behind that was
  -- not there before, and its status is that of `main` for the way the `try` block ends.
  pub run_program-main :
      (piped : F → Bool) (args : List Text) (f : F)
      → IsLauncher piped
      → piped f ≡ false
      → (piped (run_program l args f).1 ≡ false)
        × ((run_program l args f).0 ≡ main (λ s file. (try_block l s file f).0) args)
  unfolding run_program main
  run_program-main piped args f h gone = (
    rest_gone piped h (read_options args no_settings) f gone,
    status_lem (read_options args no_settings) f,
  )
