-- ===== src/Config.antt =====
-- core/lss/config_local.cpp and config_server.cpp: what both configurations use. `Ptree` is a tree of
-- Boost.PropertyTree, read from a JSON file, as the calls on it see it.
pub mod Local
pub mod Server
pub mod Keys
pub mod Complete
use lproxy.Base.{ℕ, Bool, Option, none, some, List, Outcome, ok, throw}
use lproxy.Session.{pos}
use lproxy.Program.Keep.{Exit, exit}

-- `get` for texts, for unsigned numbers of so many bits and for Booleans, `none` where the path is
-- missing or the text there does not read as such a value, and `get_child`: the names and the texts
-- of the children.
pub record Ptree : Type 0 where
  pub get_text : List ℕ → Option (List ℕ)
  pub get_number : ℕ → List ℕ → Option ℕ
  pub get_bool : List ℕ → Option Bool
  pub get_child : List ℕ → Option (List (List ℕ × List ℕ))

-- `get` throws, and the `catch` of `configure` exits.
unfoldable pub or_exit {ℓ} : {A : Type ℓ} → Option A → Outcome Exit A
or_exit none = throw (exit (pos 2))
or_exit (some a) = ok a

-- `get` with a default.
unfoldable pub or_default : {A : Type 0} → A → Option A → A
or_default a none = a
or_default a (some b) = b
