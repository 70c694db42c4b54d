-- ===== src/Program/Start.antt =====
-- core/lss/local.cpp and server.cpp: how the two programs read their command line, and the functions
-- of core/lss/typedefine.h on their paths. The programs differ in the name of the configuration
-- file. The paths of Boost.Filesystem are parameters.
use lproxy.Base.{
  ℕ, if◌then◌else◌, Bool, ◌||◌, List, [], ◌∷◌, ◌++◌, codes, bytes_eq, Outcome, ok, throw, fault,
  ◌>>=◌,
}
use lproxy.Session.{pos, negsuc}
use lproxy.Program.Options.{ProgramOptions, empty, count, get}
use lproxy.Program.Keep.{Exit, exit, or_exit}

-- Boost.Filesystem: `remove_filename`, the operator `/`, and `exists`.
pub record Paths : Type 0 where
  pub remove_filename : List ℕ → List ℕ
  pub slash : List ℕ → List ℕ → List ℕ
  pub exists_file : List ℕ → Bool

-- How a program goes on: with a configuration file, or with a command that stands for it.
pub data Start : Type 0 where
  configured : List ℕ → Start
  system : List ℕ → Start

unfoldable pub adorn_appname : List ℕ → List ℕ
adorn_appname appname = codes "\"" ++ appname ++ codes "\""

-- The words behind the program's name, without those that ask to keep it running.
unfoldable pub kept_words : List (List ℕ) → List (List ℕ)
unfolding bytes_eq
kept_words [] = []
kept_words (v ∷ rest) =
    if bytes_eq v (codes "-k") || bytes_eq v (codes "--keep-running")
    then kept_words rest
    else v ∷ kept_words rest

unfoldable pub appended : List (List ℕ) → List ℕ
appended [] = []
appended (v ∷ rest) = (32 ∷ v) ++ appended rest

module _ (paths : Paths) where
  unfoldable pub keep_exe_path : List ℕ → List ℕ
  unfolding bytes_eq
  keep_exe_path argv0 =
      let this_app_path = paths.remove_filename argv0 in
      if bytes_eq this_app_path []
      then codes "lkeep.exe"
      else paths.slash (paths.slash this_app_path (codes "/")) (codes "lkeep.exe")

  -- The quoted path, and whether the file exists.
  unfoldable pub get_keep_exe_path : List ℕ → List ℕ × Bool
  unfolding keep_exe_path adorn_appname
  get_keep_exe_path argv0 =
      (adorn_appname (keep_exe_path argv0), paths.exists_file (keep_exe_path argv0))

  unfoldable pub keep_command : List ℕ → List (List ℕ) → List ℕ
  unfolding get_keep_exe_path adorn_appname kept_words appended
  keep_command argv0 words =
      (get_keep_exe_path argv0).0
      ++ codes " --run "
      ++ adorn_appname argv0
      ++ appended (kept_words words)

  unfoldable pub keep_running : List (List ℕ) → Outcome Exit Start
  unfolding get_keep_exe_path keep_command
  keep_running [] = fault
  keep_running (argv0 ∷ words) =
      if (get_keep_exe_path argv0).1
      then ok (system (keep_command argv0 words))
      else throw (exit (negsuc 0))

  unfoldable pub process_program_options : List ℕ → ProgramOptions → Outcome Exit Start
  unfolding empty count get or_exit keep_running
  process_program_options default_file po =
      if empty po
      then ok (configured default_file)
      else if count po (codes "-h") || count po (codes "--help")
      then throw (exit (pos 0))
      else if count po (codes "-v") || count po (codes "--version")
      then throw (exit (pos 0))
      else if count po (codes "-k") || count po (codes "--keep-running")
      then keep_running po.argv
      else if count po (codes "-c")
      then (do value ← or_exit (get po (codes "-c")); ok (configured value))
      else if count po (codes "--config")
      then (do value ← or_exit (get po (codes "--config")); ok (configured value))
      else throw (exit (pos 1))
