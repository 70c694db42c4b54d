-- ===== src/Program/Main.antt =====
-- `option` of core/lss/local.cpp and of server.cpp, and what `main` does with it up to the start of the
-- server: the configuration is read where no other program takes over.
use lproxy.Base.{ℕ, Option, List, codes, Outcome, ok, ◌>>=◌}
use lproxy.Crypto.{Encrypt}
use lproxy.Config.{Ptree}
use lproxy.Config.Local as LocalConfig
use lproxy.Config.Server as ServerConfig
use lproxy.Program.Options.{ProgramOptions, new_options, add_option, example, store}
use lproxy.Program.Keep.{Exit}
use lproxy.Program.Start.{Paths, Start, process_program_options, configured, system}

unfoldable pub local_options : ProgramOptions
unfolding new_options add_option example
local_options =
    let po = new_options (codes "lsslocal.exe [option]") in
    let po = add_option (codes "-h, --help") (codes "Show this message.") po in
    let po = add_option (codes "-v, --version") (codes "Show current version.") po in
    let po =
      add_option (codes "-c, --config <profile>")
        (codes
          "Specify which configuration file lsslocal.exe should\nuse instead of the default.\nIf not specified, the default configuration file is\n'local-config.json' in the current working directory.")
        po in
    let po =
      add_option (codes "-k, --keep-running")
        (codes
          "Keep this program running. Restart immediately after\nthe program quit unexpectedly.")
        po in
    let po = example (codes "lsslocal.exe") po in
    let po = example (codes "lsslocal.exe -c /path/to/local-config.json") po in
    example (codes "lsslocal.exe -c /path/to/local-config.json -k") po

unfoldable pub server_options : ProgramOptions
unfolding new_options add_option example
server_options =
    let po = new_options (codes "lssserver.exe [option]") in
    let po = add_option (codes "-h, --help") (codes "Show this message.") po in
    let po = add_option (codes "-v, --version") (codes "Show current version.") po in
    let po =
      add_option (codes "-c, --config <profile>")
        (codes
          "Specify which configuration file lssserver.exe should\nuse instead of the default.\nIf not specified, the default configuration file is\n'server-config.json' in the current working directory.")
        po in
    let po =
      add_option (codes "-k, --keep-running")
        (codes
          "Keep this program running. Restart immediately after\nthe program quit unexpectedly.")
        po in
    let po = example (codes "lssserver.exe") po in
    let po = example (codes "lssserver.exe -c /path/to/server-config.json") po in
    example (codes "lssserver.exe -c /path/to/server-config.json -k") po

-- What a program goes on with: the command that runs in its place, or its configuration.
pub data Main (Settings : Type 0) : Type 0 where
  replaced : List ℕ → Main Settings
  running : Settings → Main Settings

module _ (paths : Paths) where
  unfoldable pub local_option : List (List ℕ) → Outcome Exit Start
  unfolding local_options store process_program_options
  local_option argv =
      process_program_options paths (codes "local-config.json") (store argv local_options)

  unfoldable pub server_option : List (List ℕ) → Outcome Exit Start
  unfolding server_options store process_program_options
  server_option argv =
      process_program_options paths (codes "server-config.json") (store argv server_options)

  module _ (read_json : List ℕ → Option Ptree) where
    unfoldable pub local_main :
        Encrypt (Unit {0}) → List (List ℕ) → Outcome Exit (Main LocalConfig.Settings)
    unfolding local_option LocalConfig.configure
    local_main md5 argv = do
      start ← local_option argv
      elim start [
        | system command ↦ ok (replaced command)
        | configured file ↦ (do
          settings ← LocalConfig.configure md5 read_json file
          ok (running settings))
      ]

    unfoldable pub server_main : List ℕ → List (List ℕ) → Outcome Exit (Main ServerConfig.Settings)
    unfolding server_option ServerConfig.configure
    server_main public_key argv = do
      start ← server_option argv
      elim start [
        | system command ↦ ok (replaced command)
        | configured file ↦ (do
          settings ← ServerConfig.configure read_json file (ServerConfig.new_settings public_key)
          ok (running settings))
      ]
