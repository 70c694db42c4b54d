-- ===== src/Log/Output.antt =====
-- core/log/logoutput_if.h, logoutput.h and logoutput2.h: the streams that log lines are written to.
-- The two classes differ in the condition on the level of a line that a stream is bound with: the
-- lowest level for `LogOutput`, a set of levels for `LogOutput2`. A stream is a number, the order of
-- its address.
pub mod Streams
pub mod Refined
use lproxy.Base.{
  ℕ, suc, ltb, ◌==◌, if◌then◌else◌, Bool, true, false, not, ◌&&◌, ◌||◌, Option, none, some, List,
  [], ◌∷◌, ◌++◌, length, Outcome, ok, throw, fault,
}
use lproxy.Base.Handler.{Handler}
use lproxy.Log.Level.{Level, level_ge, level_lt}

-- core/log/log_types.h. The time, the thread and the line are texts, as the stream prints them.
pub record LogVal : Type 0 where
  pub now : List ℕ
  pub log_type : Level
  pub msg : List ℕ
  pub tid : List ℕ
  pub func_name : List ℕ
  pub file_name : List ℕ
  pub line_num : List ℕ
  pub extra : List ℕ

-- The condition of `LogOutput`, and that of `LogOutput2`: `find` in a `std::set` goes by `<`.
unfoldable pub at_least : Level → Level → Bool
unfolding level_ge
at_least min_loglevel log_type = level_ge log_type min_loglevel

unfoldable pub is_in : List Level → Level → Bool
unfolding level_lt
is_in [] log_type = false
is_in (l ∷ rest) log_type =
    (not (level_lt l log_type) && not (level_lt log_type l)) || is_in rest log_type

-- The lock of a stream: that of all printing for `std::cout` and `std::cerr`, or one of its own.
pub data Lock : Type 0 where
  print_lock : Lock
  own_lock : ℕ → Lock

-- `std::map`, in the order of the keys. `insert` leaves a value that is there.
module _ {V : Type 0} where
  unfoldable pub find : ℕ → List (ℕ × V) → Option V
  find k [] = none
  find k ((j, v) ∷ m) = if j == k then some v else find k m

  unfoldable pub insert : ℕ → V → List (ℕ × V) → List (ℕ × V)
  insert k v [] = (k, v) ∷ []
  insert k v ((j, w) ∷ m) =
      if ltb k j then (k, v) ∷ (j, w) ∷ m else if j == k then (j, w) ∷ m else (j, w) ∷ insert k v m

  unfoldable pub erase : ℕ → List (ℕ × V) → List (ℕ × V)
  erase k [] = []
  erase k ((j, v) ∷ m) = if j == k then m else (j, v) ∷ erase k m

  unfoldable pub is_some : Option V → Bool
  is_some none = false
  is_some (some v) = true

pub record OsProperty (Condition : Type 0) : Type 0 where
  pub plock : Option Lock
  pub condition : Condition
  pub format : LogVal → List ℕ

-- The streams that are bound, how many subclasses of `LogOutput_if` have bound one, this one
-- included, and what was written, a stream and a text at a time.
pub record LogOutput (Condition : Type 0) : Type 0 where
  pub outstream : List (ℕ × OsProperty Condition)
  pub subclasses : ℕ
  pub written : List (ℕ × List ℕ)

-- What the program does with its output.
pub data Command (Condition : Type 0) : Type 0 where
  do_bind : ℕ → Condition → (LogVal → List ℕ) → Command Condition
  do_unbind : ℕ → Command Condition
  do_output : LogVal → Command Condition

module _ {Condition : Type 0} (accepts : Condition → Level → Bool) (default_condition : Condition)
    (default_format : LogVal → List ℕ) (is_std_outerr : ℕ → Bool) where
  unfoldable pub new_output : LogOutput Condition
  new_output = record { outstream = []; subclasses = 1; written = [] }

  unfoldable pub new_lock : ℕ → Lock
  new_lock os = if is_std_outerr os then print_lock else own_lock os

  -- The assertion that one subclass alone is in use fails otherwise.
  unfoldable pub bind :
      ℕ
      → Condition
      → (LogVal → List ℕ)
      → LogOutput Condition
      → Outcome (Unit {0}) Bool × LogOutput Condition
  unfolding new_lock insert find is_some
  bind os condition format s =
      if s.subclasses == 1
      then (
        ok (not (is_some (find os s.outstream))),
        record s {
          outstream =
              insert os
                (record { plock = some (new_lock os); condition = condition; format = format })
                s.outstream;
        },
      )
      else (fault, s)

  -- `_outstream[&os]` puts a default in where the stream is not bound.
  unfoldable pub unbind : ℕ → LogOutput Condition → Bool × LogOutput Condition
  unfolding insert erase find is_some
  unbind os s =
      let with_default =
        insert os (record { plock = none; condition = default_condition; format = default_format })
          s.outstream in
      (is_some (find os with_default), record s { outstream = erase os with_default })

  -- The loop over the streams: what a line is written to.
  unfoldable pub emitted : LogVal → List (ℕ × OsProperty Condition) → List (ℕ × List ℕ)
  emitted val [] = []
  emitted val ((os, p) ∷ m) =
      (if accepts p.condition val.log_type then ((os, p.format val) ∷ []) else []) ++ emitted val m

  -- `operator()`, with the line that it takes from the store.
  unfoldable pub output_once : LogVal → LogOutput Condition → LogOutput Condition
  unfolding emitted
  output_once val s = record s { written = s.written ++ emitted val s.outstream }

  unfoldable pub get_lock : ℕ → LogOutput Condition → Option Lock
  unfolding find
  get_lock os s = elim (find os s.outstream) [ none ↦ none | some p ↦ p.plock ]

  unfoldable pub ostream_count : LogOutput Condition → ℕ
  ostream_count s = length s.outstream

  unfoldable pub empty : LogOutput Condition → Bool
  empty s = length s.outstream == 0

  unfoldable pub run : List (Command Condition) → LogOutput Condition → LogOutput Condition
  unfolding bind unbind output_once
  run [] s = s
  run (do_bind os condition format ∷ rest) s = run rest (bind os condition format s).1
  run (do_unbind os ∷ rest) s = run rest (unbind os s).1
  run (do_output val ∷ rest) s = run rest (output_once val s)
