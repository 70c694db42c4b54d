-- ===== src/Program/Keep.antt =====
-- core/lss/keep.cpp: the program that runs a command in a loop. `lexical_cast` is Boost's; `none` is
-- its exception.
use lproxy.Base.{
  ℕ, zero, suc, leb, if◌then◌else◌, Bool, true, false, ◌||◌, Option, none, some, List, [], ◌∷◌,
  ◌++◌, codes, bytes_eq, Outcome, ok, throw, fault, ◌>>=◌,
}
use lproxy.Session.{ℤ, pos, negsuc, is_positive, is_negative}
use lproxy.Program.Options.{
  ProgramOptions, ParameterError, new_options, add_option, example, store, empty, count, get,
}

-- `exit`, with its status.
pub data Exit : Type 0 where
  exit : ℤ → Exit

pub record Arg : Type 0 where
  pub command_line : List ℕ
  pub interval : ℤ
  pub max_cycles : ℤ

unfoldable pub new_arg : Arg
new_arg = record { command_line = []; interval = negsuc 0; max_cycles = negsuc 0 }

-- The outer `catch`.
unfoldable pub or_exit : {A : Type 0} → Outcome ParameterError A → Outcome Exit A
or_exit (ok a) = ok a
or_exit (throw e) = throw (exit (negsuc 0))
or_exit fault = fault

unfoldable pub is_run : List ℕ → Bool
unfolding bytes_eq
is_run v = bytes_eq v (codes "-r") || bytes_eq v (codes "--run")

-- The loop over the words, with `pos_flag`.
unfoldable pub command_from : Bool → List (List ℕ) → List ℕ
unfolding is_run
command_from pos_flag [] = []
command_from pos_flag (v ∷ rest) =
    (if pos_flag then (v ++ 32 ∷ []) else []) ++ command_from (pos_flag || is_run v) rest

-- The options that `option` declares.
unfoldable pub keep_options : ProgramOptions
unfolding new_options add_option example
keep_options =
    let po = new_options (codes "lkeep.exe [option]") in
    let po = add_option (codes "-h, --help") (codes "Show this message.") po in
    let po =
      add_option (codes "-r, --run      <command ...>")
        (codes
          "Run a command line.\nthe function finds command interpreter:\ne.g.\n * linux: '/bin/sh'\n * Windows/DOS: 'COMMAND.COM'\n * Windows NT: 'CMD.EXE'")
        po in
    let po =
      add_option (codes "-i, --interval <milliseconds>")
        (codes "Milliseconds to wait between two sessions.") po in
    let po =
      add_option (codes "-m, --max      <times>")
        (codes "Maximum number of cycles. the default value is\ninfinite.") po in
    let po = example (codes "lkeep.exe --help") po in
    let po = example (codes "lkeep.exe --run echo hello world") po in
    let po = example (codes "lkeep.exe -i 1000 -r echo hello world") po in
    example (codes "lkeep.exe -i 1000 -m 5 -r echo hello world") po

module _ (lexical_cast : List ℕ → Option ℤ) where
  -- A number that is not negative.
  unfoldable pub number : ProgramOptions → List ℕ → Outcome Exit ℤ
  unfolding get or_exit is_negative
  number po option = do
    text ← or_exit (get po option)
    elim (lexical_cast text) [
      | none ↦ throw (exit (negsuc 0))
      | some n ↦ if is_negative n then throw (exit (negsuc 0)) else ok n
    ]

  unfoldable pub number_or : ProgramOptions → List ℕ → List ℕ → ℤ → Outcome Exit ℤ
  unfolding count number
  number_or po short long value =
      if count po short then number po short else if count po long then number po long else ok value

  unfoldable pub process_program_options : ProgramOptions → Arg → Outcome Exit Arg
  unfolding empty count number_or command_from get or_exit
  process_program_options po arg =
      if empty po || (count po (codes "-h") || count po (codes "--help"))
      then throw (exit (pos 0))
      else (do
        interval ← number_or po (codes "-i") (codes "--interval") arg.interval
        max_cycles ← number_or po (codes "-m") (codes "--max") arg.max_cycles
        if count po (codes "-r") || count po (codes "--run")
            then (or_exit (get po (codes "-r")) >>= λ _. or_exit (get po (codes "--run")) >>= λ _.
                ok (record {
                  command_line = arg.command_line ++ command_from false po.argv;
                  interval = interval;
                  max_cycles = max_cycles;
                }))
            else throw (exit (negsuc 0)))

  unfoldable pub option : List (List ℕ) → Outcome Exit Arg
  unfolding keep_options store process_program_options new_arg
  option argv = process_program_options (store argv keep_options) new_arg

-- What the loop does: it runs the command and sleeps.
pub data Act : Type 0 where
  system : List ℕ → Act
  sleep_for : ℕ → Act

unfoldable pub nap : ℤ → List Act
nap (pos zero) = []
nap (pos (suc n)) = sleep_for (suc n) ∷ []
nap (negsuc n) = []

-- `++loop >= arg.max_cycles`, for a limit above 0.
unfoldable pub is_over : ℕ → ℤ → Bool
is_over loop (pos n) = leb n loop
is_over loop (negsuc n) = true

-- At most `fuel` rounds; `none` is a loop that goes on.
unfoldable pub do_loop : ℕ → ℕ → Arg → Option (List Act)
unfolding nap is_positive is_over
do_loop zero loop arg = none
do_loop (suc fuel) loop arg =
    let acts = system arg.command_line ∷ nap arg.interval in
    let next = if is_positive arg.max_cycles then suc loop else loop in
    let others = do_loop fuel next arg in
    if is_positive arg.max_cycles
    then (if is_over (suc loop) arg.max_cycles
        then some acts
        else (elim others [ none ↦ none | some rest ↦ some (acts ++ rest) ]))
    else (elim others [ none ↦ none | some rest ↦ some (acts ++ rest) ])
