-- ===== src/Program/Keeping.antt =====
-- The loop of lkeep, and the command that it gets from a program that is to be kept running.
use mathlib.Core.Bool.{true≢false}
use lproxy.Base.{
  ℕ, zero, suc, ◌+◌, ◌<◌, ◌≡◌, refl, ◌∙◌, ap, le→leb, lt→leb, Bool, true, false, Option, none, some,
  List, [], ◌∷◌, ◌++◌, codes, bytes_eq, bytes_eq_sym, contains, arith, ok, ◌||◌, append-nil,
  append_assoc, map, sym,
}
use lproxy.Session.{ℤ, pos, negsuc, is_positive}
use lproxy.Program.Options.{
  ProgramOptions, new_options, add_option, example, count, empty, get, get_from, store,
}
use lproxy.Program.Keep.{
  Arg, Act, command_from, is_run, number_or, process_program_options, option, keep_options, new_arg,
  or_exit, nap, is_over, do_loop, system, sleep_for,
}
use lproxy.Program.Start as Start
use lproxy.Program.Start.{Paths, keep_command, keep_exe_path, kept_words, appended}

-- The acts of some rounds.
abbrev pub rounds : ℕ → List Act → List Act
rounds zero acts = []
rounds (suc n) acts = acts ++ rounds n acts

abbrev round_of : Arg → List Act
round_of arg = system arg.command_line ∷ nap arg.interval

is_positive-suc : (k : ℕ) → is_positive (pos (suc k)) ≡ true
unfolding is_positive
is_positive-suc k = ground arith

-- A round behind which the loop goes on.
one_more :
    (arg : Arg) (k fuel loop : ℕ) (others : List Act)
    → suc loop < suc k
    → do_loop fuel (suc loop) (record arg { max_cycles = pos (suc k) }) ≡ some others
    → do_loop (suc fuel) loop (record arg { max_cycles = pos (suc k) })
      ≡ some (round_of arg ++ others)
unfolding do_loop is_over
one_more arg k fuel loop others h e = rw (is_positive-suc k, lt→leb (suc k) (suc loop) h, e) refl

ends :
    (arg : Arg) (k loop left : ℕ)
    → loop + left ≡ k
    → do_loop (suc left) loop (record arg { max_cycles = pos (suc k) })
      ≡ some (rounds (suc left) (round_of arg))
unfolding do_loop is_over
ends arg k loop zero h =
    rw
      (
        is_positive-suc k,
        le→leb (suc k) (suc loop) (omega (arith, h)),
        append-nil (nap arg.interval),
      )
      refl
ends arg k loop (suc left) h =
    one_more arg k (suc left) loop (rounds (suc left) (round_of arg)) (omega (arith, h))
      (ends arg k (suc loop) left (omega (arith, h)))

goes_on :
    (arg : Arg) (fuel loop : ℕ) → is_positive arg.max_cycles ≡ false → do_loop fuel loop arg ≡ none
unfolding do_loop
goes_on arg zero loop m = refl
goes_on arg (suc fuel) loop m = rw (m, goes_on arg fuel loop m) refl

-- With a limit above 0 the loop ends, after as many rounds as the limit says, each of which runs the
-- command and then sleeps for the interval, if that is above 0; without one it does not end in any
-- number of rounds.
pub do_loop-rounds :
    (arg : Arg) (k ms fuel : ℕ)
    → (do_loop (suc k) 0 (record arg { interval = pos (suc ms); max_cycles = pos (suc k) })
        ≡ some (rounds (suc k) (system arg.command_line ∷ sleep_for (suc ms) ∷ [])))
      × (do_loop (suc k) 0 (record arg { interval = pos 0; max_cycles = pos (suc k) })
          ≡ some (rounds (suc k) (system arg.command_line ∷ [])))
      × (do_loop (suc k) 0 (record arg { interval = negsuc ms; max_cycles = pos (suc k) })
          ≡ some (rounds (suc k) (system arg.command_line ∷ [])))
      × (do_loop fuel 0 (record arg { max_cycles = pos 0 }) ≡ none)
      × (do_loop fuel 0 (record arg { max_cycles = negsuc k }) ≡ none)
unfolding is_positive nap
do_loop-rounds arg k ms fuel = (
  ends (record arg { interval = pos (suc ms) }) k 0 k (omega arith),
  ends (record arg { interval = pos 0 }) k 0 k (omega arith),
  ends (record arg { interval = negsuc ms }) k 0 k (omega arith),
  goes_on (record arg { max_cycles = pos 0 }) fuel 0 refl,
  goes_on (record arg { max_cycles = negsuc k }) fuel 0 refl,
)

-- No word is one of lkeep's own options.
pub record Plain (words : List (List ℕ)) : Type 0 where
  pub no_h : contains words (codes "-h") ≡ false
  pub no_help : contains words (codes "--help") ≡ false
  pub no_i : contains words (codes "-i") ≡ false
  pub no_interval : contains words (codes "--interval") ≡ false
  pub no_m : contains words (codes "-m") ≡ false
  pub no_max : contains words (codes "--max") ≡ false
  pub no_r : contains words (codes "-r") ≡ false

-- What lkeep makes of the words of its command.
abbrev pub spaced : List (List ℕ) → List ℕ
spaced [] = []
spaced (v ∷ rest) = (v ++ 32 ∷ []) ++ spaced rest

command_from-spaced : (words : List (List ℕ)) → command_from true words ≡ spaced words
unfolding command_from
command_from-spaced [] = refl
command_from-spaced (v ∷ rest) = rw (command_from-spaced rest) refl

-- How a word of a command is spelled, and a command of such words, with a blank between them.
pub data Token : Type 0 where
  quoted bare : List ℕ → Token

abbrev pub word : Token → List ℕ
word (quoted w) = w
word (bare w) = w

abbrev pub spelled : Token → List ℕ
spelled (quoted w) = 34 ∷ (w ++ 34 ∷ [])
spelled (bare w) = w

abbrev pub line : List Token → List ℕ
line [] = []
line (t ∷ []) = spelled t
line (t ∷ u ∷ rest) = spelled t ++ 32 ∷ line (u ∷ rest)

words-bare : (words : List (List ℕ)) → map word (map bare words) ≡ words
words-bare [] = refl
words-bare (w ∷ words) = ap (λ ws. w ∷ ws) (words-bare words)

line-appended :
    (t : Token) (words : List (List ℕ)) → line (t ∷ map bare words) ≡ spelled t ++ appended words
unfolding appended
line-appended t [] = sym (append-nil (spelled t))
line-appended t (w ∷ words) = ap (λ l. spelled t ++ 32 ∷ l) (line-appended (bare w) words)

keep_command-line :
    (paths : Paths) (app : List ℕ) (words : List (List ℕ))
    → keep_command paths app words
      ≡ line (
          quoted (keep_exe_path paths app)
          ∷ bare (codes "--run")
          ∷ quoted app
          ∷ map bare (kept_words words))
unfolding keep_command Start.get_keep_exe_path Start.adorn_appname
keep_command-line paths app words =
    let exe = spelled (quoted (keep_exe_path paths app)) in
    let rest = appended (kept_words words) in
    append_assoc (exe ++ codes " --run ") (spelled (quoted app)) rest
    ∙ append_assoc exe (codes " --run ") (spelled (quoted app) ++ rest)
    ∙ ap (λ l. exe ++ (codes " --run " ++ l)) (sym (line-appended (quoted app) (kept_words words)))

get_from-absent :
    (words : List (List ℕ)) (name : List ℕ)
    → contains words name ≡ false
    → get_from words name ≡ ok []
unfolding get_from contains
get_from-absent [] name h = refl
get_from-absent (word ∷ []) name h = ground (arith, bytes_eq_sym name word, h)
get_from-absent (word ∷ value ∷ rest) name h =
    ground (arith, bytes_eq_sym name word, h, get_from-absent (value ∷ rest) name)

or-false : (a b : Bool) → a || b ≡ false → (a ≡ false) × (b ≡ false)
or-false false b h = (refl, h)
or-false true b h = absurd (true≢false h)

module _ (lexical_cast : List ℕ → Option ℤ) where
  process-runs :
      (po : ProgramOptions) (value : List ℕ)
      → empty po ≡ false
      → Plain po.argv
      → contains po.argv (codes "--run") ≡ true
      → get po (codes "--run") ≡ ok value
      → process_program_options lexical_cast po new_arg
        ≡ ok (record new_arg { command_line = command_from false po.argv })
  unfolding process_program_options number_or count get new_arg or_exit
  process-runs po value e p c g =
      rw
        (
          e,
          p.no_h,
          p.no_help,
          p.no_i,
          p.no_interval,
          p.no_m,
          p.no_max,
          p.no_r,
          c,
          get_from-absent po.argv (codes "-r") p.no_r,
          g,
        )
        refl

  option-runs :
      (exe app : List ℕ) (rest : List (List ℕ))
      → Plain (exe ∷ codes "--run" ∷ app ∷ rest)
      → bytes_eq exe (codes "--run") ≡ false
      → option lexical_cast (exe ∷ codes "--run" ∷ app ∷ rest)
        ≡ ok (record new_arg { command_line = spaced (app ∷ rest) })
  unfolding option keep_options new_options add_option example store empty get get_from contains
      command_from is_run
  option-runs exe app rest p h =
      let not_r : bytes_eq exe (codes "-r") ≡ false = (or-false _ _ p.no_r).0 in
      let whole : command_from false (exe ∷ codes "--run" ∷ app ∷ rest) ≡ spaced (app ∷ rest) =
        rw (not_r, h) (command_from-spaced (app ∷ rest)) in
      process-runs (store (exe ∷ codes "--run" ∷ app ∷ rest) keep_options) app (ground arith) p
        (rw h refl) (rw (bytes_eq_sym (codes "--run") exe, h) refl)
      ∙ ap (λ c. ok (record new_arg { command_line = c })) whole

  -- A program that is started with `-k` or `--keep-running`, and without the options that only show
  -- something, runs lkeep where that file exists: the command is the path of lkeep in quotes, `--run`,
  -- its own path in quotes, and its other words as they are. lkeep runs these words in a loop without
  -- a limit, but the path has no quotes any more. The shell takes words apart at the blanks that are
  -- not in quotes, and removes the quotes; no word is an option of lkeep.
  pub keep_running-command :
      (paths : Paths) (shell : List ℕ → List (List ℕ)) (default_file app : List ℕ)
      (words : List (List ℕ)) (po : ProgramOptions)
      → let exe = keep_exe_path paths app in
        let kept = kept_words words in
        let tokens = quoted exe ∷ bare (codes "--run") ∷ quoted app ∷ map bare kept in
        po.argv ≡ app ∷ words
        → empty po ≡ false
        → count po (codes "-h") || count po (codes "--help") ≡ false
        → count po (codes "-v") || count po (codes "--version") ≡ false
        → count po (codes "-k") || count po (codes "--keep-running") ≡ true
        → paths.exists_file exe ≡ true
        → shell (line tokens) ≡ map word tokens
        → Plain (exe ∷ codes "--run" ∷ app ∷ kept)
        → bytes_eq exe (codes "--run") ≡ false
        → (Start.process_program_options paths default_file po ≡ ok (Start.system (line tokens)))
          × (option lexical_cast (shell (line tokens))
              ≡ ok (record new_arg { command_line = spaced (app ∷ kept) }))
  unfolding Start.process_program_options Start.keep_running Start.get_keep_exe_path
  keep_running-command paths shell default_file app words po a e h v k found sh p r =
      let kept = kept_words words in
      let written = keep_command-line paths app words in
      (
        rw (e, h, v, k, a, found, written) refl,
        rw (sh, words-bare kept) (option-runs (keep_exe_path paths app) app kept p r),
      )
