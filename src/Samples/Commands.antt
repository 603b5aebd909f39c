-- ===== src/Samples/Commands.antt =====
-- Commands, contexts and command lines at concrete inputs.
use arclaunch.Prelude.{◌≡◌, refl, ◌⊎◌, ◌↔◌, inl, Bool, true, false, some, List, [], ◌∷◌, map, arith}
use arclaunch.Prelude.Map.{lookup}
use arclaunch.Text.{Text, codes, text_eq, c_string}
use arclaunch.Element.{FilePath, Script}
use arclaunch.Command.{
  arg_sequence_to_arg_data, env_sequence_to_env_data, path_elem_to_path_data, dir_seperator,
}
use arclaunch.Command.Paths.{split, split-path_elem_to_path_data}
use arclaunch.Command.Argv.{read_entry-env_sequence_to_env_data, read_entry, env_of}
use arclaunch.Os.Table.{table_os, table_posix}
use arclaunch.Node.Fds.Link.{Holds}
use arclaunch.Process.{Image, child_main}
use arclaunch.Process.Child.{IsHere, image_of, child_main-Becomes, Becomes}
use arclaunch.World.{Process}
use arclaunch.Main.{
  Settings, no_settings, main, Ending, returned, other_exception, xml_exception, Launcher,
  try_block, run_program,
}
use arclaunch.Main.Pipe.{run_program-main}
use arclaunch.Main.Options.{persist, apply_all, main-spell_all}
use arclaunch.Samples.{kernel}

-- /bin/sh on this system, and a path for another one.
abbrev shell : FilePath
shell = record {
  directory = codes "bin" ∷ codes "sh" ∷ [];
  os = some (codes "linux");
  absolute = true;
}

abbrev command_com : FilePath
command_com = record {
  directory = codes "cmd" ∷ [];
  os = some (codes "ms windows");
  absolute = false;
}

split-path_elem_to_path_data_example :
    split dir_seperator (c_string (path_elem_to_path_data shell))
    ≡ [] ∷ codes "bin" ∷ codes "sh" ∷ []
split-path_elem_to_path_data_example =
    split-path_elem_to_path_data shell (codes "bin") (codes "sh" ∷ []) refl (omega arith)

abbrev variables : List (Text × Text)
variables = (codes "A", codes "1=2") ∷ (codes "B", []) ∷ []

read_entry-env_sequence_to_env_data_example :
    (data_list : List Text) × (env_sequence_to_env_data (map env_of variables) ≡ some data_list)
    × (map (λ t. read_entry (c_string t)) data_list
        ≡ some (codes "A", codes "1=2") ∷ some (codes "B", []) ∷ [])
read_entry-env_sequence_to_env_data_example =
    read_entry-env_sequence_to_env_data variables (omega arith)

abbrev always : Image → Bool
always i = true

shell-IsHere : IsHere shell
unfolding text_eq
shell-IsHere = (codes "linux", refl, refl)

abbrev shell_process : Process
shell_process = record {
  command = record { path_seq = command_com ∷ shell ∷ []; arg_seq = codes "-c" ∷ []; env_seq = [] };
  pid_instance = [];
}

one_input-Holds : Holds table_posix ((4, 0) ∷ []) kernel
unfolding lookup
one_input-Holds = record { is_map = omega arith; entry = λ n fd e. ground arith }

child_main-Becomes_example :
    Becomes table_posix kernel
      ((4, 0) ∷ [])
      (image_of shell (arg_sequence_to_arg_data (codes "-c" ∷ [])) [])
      (child_main table_os always ((4, 0) ∷ []) shell_process kernel)
unfolding text_eq env_sequence_to_env_data
child_main-Becomes_example =
    child_main-Becomes table_posix always ((4, 0) ∷ []) kernel shell_process (command_com ∷ []) []
      shell [] one_input-Holds refl refl (inl (codes "ms windows", refl, refl), tt) shell-IsHere
      refl

abbrev pub shell_script : Script
shell_script = record {
  base = record { path = shell ∷ []; arg = codes "x" ∷ []; env = [] };
  interpreter = record { path = shell ∷ []; arg = codes "-e" ∷ []; env = [] };
}

abbrev run_badly : Settings → Text → Ending
run_badly s file = other_exception

main-spell_all_example :
    ((main run_badly (codes "--persist" ∷ codes "a.xml" ∷ []) ≡ 1) ↔ (
      (codes "a.xml" ∷ [] ≡ [])
      ⊎ ((file : Text) × (more : List Text) × (codes "a.xml" ∷ [] ≡ file ∷ more)
          × (run_badly (apply_all (persist ∷ []) no_settings) file ≡ xml_exception))))
    × ((main run_badly (codes "--persist" ∷ codes "a.xml" ∷ []) ≡ 1)
        ⊎ (main run_badly (codes "--persist" ∷ codes "a.xml" ∷ []) ≡ 0))
unfolding text_eq
main-spell_all_example = main-spell_all run_badly (persist ∷ []) (codes "a.xml" ∷ []) (refl, refl)

-- A file system of which only the pipe is seen.
abbrev launcher : Launcher Bool
launcher = record {
  start = λ file f. (returned, f);
  mkfifo = λ f. (true, true);
  read_fifo = λ f. f;
  unlink = λ f. false;
  wait_for = λ f. (other_exception, f);
}

run_program-main_example :
    ((run_program launcher (codes "--persist" ∷ codes "a.xml" ∷ []) false).1 ≡ false)
    × ((run_program launcher (codes "--persist" ∷ codes "a.xml" ∷ []) false).0
        ≡ main
            (λ s file. (try_block launcher s file false).0)
            (codes "--persist" ∷ codes "a.xml" ∷ []))
run_program-main_example =
    run_program-main launcher (λ f. f) (codes "--persist" ∷ codes "a.xml" ∷ []) false
      (record {
        start = λ file f h. h;
        mkfifo = λ f h e. cc;
        unlink = λ f. refl;
        wait_for = λ f h. h;
      })
      refl
