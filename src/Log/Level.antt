-- ===== src/Log/Level.antt =====
-- core/log/loglevel.h and loglevel.cpp: the levels of log lines and their register. The ranks that
-- the program uses are not negative. A name is the list of its bytes, up to the NUL.
use lproxy.Base.{
  ℕ, ltb, if◌then◌else◌, Bool, true, false, not, Option, none, some, List, [], ◌∷◌, ◌++◌, codes,
  bytes_eq,
}
use lproxy.Base.Handler.{Handler, ret, raise, update, read, ◌>>=◌, ◌>>◌}

-- `LogException`, without its message.
pub data LogException : Type 0 where
  redefined not_existing : LogException

-- `Log_LevelBase`, which a `LogType` points to.
pub record Level : Type 0 where
  pub name : List ℕ
  pub rank : ℕ

unfoldable pub level_eq : Level → Level → Bool
unfolding bytes_eq
level_eq l r = bytes_eq l.name r.name

unfoldable pub level_gt : Level → Level → Bool
level_gt l r = ltb r.rank l.rank

unfoldable pub level_lt : Level → Level → Bool
level_lt l r = ltb l.rank r.rank

unfoldable pub level_ge : Level → Level → Bool
unfolding level_lt
level_ge l r = not (level_lt l r)

-- The map, and whether the levels that are built in are made.
pub record Levels : Type 0 where
  pub levels : List Level
  pub default_log_level : Bool

unfoldable pub no_levels : Levels
no_levels = record { levels = []; default_log_level = false }

abbrev pub M : Type 0 → Type 0
M A = Handler LogException Levels A

unfoldable pub find_level : List ℕ → List Level → Option Level
unfolding bytes_eq
find_level name [] = none
find_level name (l ∷ rest) = if bytes_eq l.name name then some l else find_level name rest

unfoldable pub add : Level → M (Unit {0})
unfolding find_level
add llb = do
  found ← read (λ s. find_level llb.name s.levels)
  elim found [
    | none ↦ update (λ s. record s { levels = s.levels ++ llb ∷ [] })
    | some l ↦ raise redefined
  ]

abbrev pub level : List ℕ → ℕ → Level
level name rank = record { name = name; rank = rank }

unfoldable pub add_defaults : M (Unit {0})
unfolding add
add_defaults = do
  add (level (codes "TRACE") 0)
  add (level (codes "DEBUG") 10)
  add (level (codes "INFO") 20)
  add (level (codes "WARN") 30)
  add (level (codes "ERROR") 40)
  add (level (codes "FATAL") 50)

unfoldable pub get_level : List ℕ → M Level
unfolding add_defaults find_level
get_level name = do
  made ← read (λ s. s.default_log_level)
  (if made then ret tt else (add_defaults >> update (λ s. record s { default_log_level = true })))
  found ← read (λ s. find_level name s.levels)
  elim found [ none ↦ raise not_existing | some l ↦ ret l ]

-- How many levels of the name are gone, and the others.
unfoldable pub erase_level : List ℕ → List Level → ℕ × List Level
unfolding bytes_eq
erase_level name [] = (0, [])
erase_level name (l ∷ rest) =
    let others = erase_level name rest in
    if bytes_eq l.name name then (1, rest) else (others.0, l ∷ others.1)

unfoldable pub erase : List ℕ → M ℕ
unfolding erase_level
erase name = do
  erased ← read (λ s. erase_level name s.levels)
  update (λ s. record s { levels = erased.1 })
  ret erased.0
