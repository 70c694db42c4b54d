-- ===== src/Log/Thread.antt =====
-- core/lss/log.h and log.cpp: the thread that puts log lines out, built with `LogOutput`. Opening
-- the file succeeds.
use lproxy.Base.{
  ℕ, ◌==◌, ◌||◌, if◌then◌else◌, Bool, false, List, [], ◌∷◌, ◌++◌, map, codes, bytes_eq,
}
use lproxy.Log.Level.{Level}
use lproxy.Log.Output.{LogVal, Command, do_bind, do_output}

unfoldable pub is_separator : ℕ → Bool
is_separator c = c == b'/' || c == b'\\'

unfoldable pub has_separator : List ℕ → Bool
unfolding is_separator
has_separator [] = false
has_separator (c ∷ filename) = is_separator c || has_separator filename

-- What stands behind the last separator.
unfoldable pub basename : List ℕ → List ℕ
unfolding has_separator is_separator
basename [] = []
basename (c ∷ filename) =
    let behind = basename filename in
    if has_separator filename then behind else if is_separator c then filename else c ∷ filename

unfoldable pub output_format : LogVal → List ℕ
unfolding basename
output_format val =
    val.now
    ++ codes " ["
    ++ val.log_type.name
    ++ codes "] "
    ++ val.msg
    ++ codes "\t[tid:"
    ++ val.tid
    ++ codes "] "
    ++ basename val.file_name
    ++ codes ":"
    ++ val.line_num
    ++ codes " "
    ++ val.func_name
    ++ val.extra
    ++ 10 ∷ []

-- What the thread does: it binds `std::cout`, and the file if it has a name, and puts out what the
-- store gives.
unfoldable pub output_thread : ℕ → ℕ → Level → Level → List ℕ → List LogVal → List (Command Level)
unfolding bytes_eq output_format
output_thread cout logfile trace error errlog_filename vals =
    do_bind cout trace output_format
      ∷ (if bytes_eq errlog_filename [] then [] else (do_bind logfile error output_format ∷ []))
    ++ map do_output vals
