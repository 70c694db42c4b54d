-- ===== src/Examples/Programs.antt =====
-- Runs of the theorems on the command lines.
use lproxy.Base.{
  ℕ, ◌≡◌, ◌==◌, ◌&&◌, not, Bool, false, refl, true, Option, none, some, List, [], ◌∷◌, ◌++◌, codes,
  contains, ok, throw,
}
use lproxy.Session.{ℤ, pos, negsuc}
use lproxy.Program.Options.{ProgramOptions, new_options, add_option, store, empty, count, show_help}
use lproxy.Program.Keep.{Arg, exit, new_arg, option, do_loop, system, sleep_for}
use lproxy.Program.Start as Start
use lproxy.Program.Keeping.{
  rounds, Plain, Token, quoted, bare, line, do_loop-rounds, keep_running-command,
}

abbrev listing : Arg
listing = record { command_line = codes "ls "; interval = pos 1000; max_cycles = negsuc 0 }

do_loop-rounds_example :
    (do_loop 3 0 (record listing { interval = pos 1000; max_cycles = pos 3 })
      ≡ some (rounds 3 (system (codes "ls ") ∷ sleep_for 1000 ∷ [])))
    × (do_loop 3 0 (record listing { interval = pos 0; max_cycles = pos 3 })
        ≡ some (rounds 3 (system (codes "ls ") ∷ [])))
    × (do_loop 3 0 (record listing { interval = negsuc 999; max_cycles = pos 3 })
        ≡ some (rounds 3 (system (codes "ls ") ∷ [])))
    × (do_loop 5 0 (record listing { max_cycles = pos 0 }) ≡ none)
    × (do_loop 5 0 (record listing { max_cycles = negsuc 2 }) ≡ none)
do_loop-rounds_example = do_loop-rounds listing 2 999 5

abbrev no_cast : List ℕ → Option ℤ
no_cast text = none

-- The installation is in a folder with a blank in its name.
abbrev paths : Start.Paths
paths = record {
  remove_filename = λ path. codes "/opt/my proxy";
  slash = λ a b. a ++ b;
  exists_file = λ path. true;
}

abbrev exe : List ℕ
exe = codes "/opt/my proxy/lkeep.exe"

abbrev app : List ℕ
app = codes "/opt/my proxy/lsslocal.exe"

abbrev words : List (List ℕ)
words = codes "-c" ∷ codes "a.json" ∷ codes "-k" ∷ []

-- The words of a line: quotes are removed, and blanks divide outside of them.
abbrev divided : Bool → List ℕ → List ℕ → List (List ℕ)
divided in_quotes read [] = read ∷ []
divided in_quotes read (c ∷ rest) = elim (c == 34) [
  | true ↦ divided (not in_quotes) read rest
  | false ↦ elim (c == 32 && not in_quotes) [
    | true ↦ read ∷ divided false [] rest
    | false ↦ divided in_quotes (read ++ c ∷ []) rest
  ]
]

abbrev shell : List ℕ → List (List ℕ)
shell text = divided false [] text

abbrev options : ProgramOptions
options = store (app ∷ words) (new_options (codes "lsslocal.exe [option]"))

command_words : Start.kept_words words ≡ codes "-c" ∷ codes "a.json" ∷ []
unfolding Start.kept_words
command_words = refl

words-Plain : Plain (exe ∷ codes "--run" ∷ app ∷ Start.kept_words words)
unfolding Start.kept_words contains
words-Plain = record {
  no_h = refl;
  no_help = refl;
  no_i = refl;
  no_interval = refl;
  no_m = refl;
  no_max = refl;
  no_r = refl;
}

abbrev tokens : List Token
tokens =
    quoted exe ∷ bare (codes "--run") ∷ quoted app ∷ bare (codes "-c") ∷ bare (codes "a.json") ∷ []

keep_running-command_example :
    (Start.process_program_options paths (codes "local-config.json") options
      ≡ ok (Start.system (line tokens)))
    × (option no_cast (shell (line tokens))
        ≡ ok (record new_arg { command_line = codes "/opt/my proxy/lsslocal.exe -c a.json " }))
unfolding store new_options empty count contains Start.keep_exe_path Start.kept_words
keep_running-command_example =
    keep_running-command no_cast paths shell (codes "local-config.json") app words options refl refl
      refl refl refl refl refl words-Plain refl

-- lkeep takes the options of its command for its own.
stolen_help :
    option no_cast (exe ∷ codes "--run" ∷ codes "df" ∷ codes "-h" ∷ []) ≡ throw (exit (pos 0))
unfolding option
stolen_help = refl

-- The lines of the help stand below each other.
two_lines :
    show_help [] (add_option (codes "-m") (codes "a\nb") (new_options (codes "x")))
    ≡ ok (codes "Usage: x\n\nOptions: \n  -m  a\n      b\n")
unfolding show_help add_option new_options
two_lines = refl
