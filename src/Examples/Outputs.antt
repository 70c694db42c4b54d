-- ===== src/Examples/Outputs.antt =====
-- Runs of the theorems on the log output: the thread of the program, with a file for errors.
use lproxy.Base.{Bool, ℕ, ◌==◌, ◌≡◌, refl, true, none, List, [], ◌∷◌, codes, ok, throw}
use lproxy.Log.Level.{Level, level, no_levels, add, get_level, level_ge, redefined}
use lproxy.Log.Output.{LogVal, Command, new_output, unbind, run, at_least}
use lproxy.Log.Output.Refined.{text_of, expected, run-refines}
use lproxy.Log.Thread.{output_format, output_thread}

abbrev line : List ℕ → Level → LogVal
line msg log_type = record {
  now = codes "now";
  log_type = log_type;
  msg = msg;
  tid = codes "1";
  func_name = codes "f";
  file_name = codes "/src/log.cpp";
  line_num = codes "7";
  extra = [];
}

abbrev trace : Level
trace = level (codes "TRACE") 0

abbrev error_level : Level
error_level = level (codes "ERROR") 40

abbrev commands : List (Command Level)
commands =
    output_thread 1 2 trace error_level (codes "err")
      (line (codes "up") (level (codes "INFO") 20) ∷ line (codes "bad") error_level ∷ [])

abbrev is_cout : ℕ → Bool
is_cout os = os == 1

run-refines_example :
    (text_of 2
        (run at_least trace output_format is_cout commands
          (new_output at_least trace output_format is_cout)).written
      ≡ expected at_least 2 none commands)
    × ((unbind at_least trace output_format is_cout 3 (
          run at_least trace output_format is_cout commands
            (new_output at_least trace output_format is_cout))).0
        ≡ true)
run-refines_example = run-refines at_least trace output_format is_cout 2 3 commands

-- The file gets the error alone.
expected-commands :
    expected at_least 2 none commands ≡ codes "now [ERROR] bad\t[tid:1] log.cpp:7 f\n"
unfolding output_thread at_least level_ge
expected-commands = refl

-- The levels that are built in, and one that is made before them.
error-level : (get_level (codes "ERROR") no_levels).0 ≡ ok error_level
unfolding get_level no_levels
error-level = refl

early-level :
    (get_level (codes "ERROR") (add (level (codes "DEBUG") 5) no_levels).1).0 ≡ throw redefined
unfolding get_level no_levels add
early-level = refl
