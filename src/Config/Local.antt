-- ===== src/Config/Local.antt =====
-- core/lss/config_local.h and config_local.cpp.
use lproxy.Base.{ℕ, Bool, false, Option, List, [], codes, Outcome, ok, throw, fault, ◌>>=◌}
use lproxy.Session.{pos}
use lproxy.Crypto.{Exception, Encrypt}
use lproxy.Program.Keep.{Exit, exit}
use lproxy.Config.{Ptree, or_exit, or_default}
use lproxy.Local.State as Near

-- The members of `config`.
pub record Settings : Type 0 where
  pub bind_addr : List ℕ
  pub bind_port : ℕ
  pub server_name : List ℕ
  pub server_port : List ℕ
  pub auth_key : List ℕ
  pub zip_on : Bool
  pub logfile : List ℕ
  pub timeout : ℕ

-- The `catch` of any other exception.
unfoldable pub caught_exit : Outcome Exception (List ℕ) → Outcome Exit (List ℕ)
caught_exit (ok cipher_key) = ok cipher_key
caught_exit (throw e) = throw (exit (pos 2))
caught_exit fault = fault

module _ (md5 : Encrypt (Unit {0})) (read_json : List ℕ → Option Ptree) where
  unfoldable pub configure : List ℕ → Outcome Exit Settings
  unfolding or_exit or_default caught_exit
  configure config_file = do
    pt ← or_exit (read_json config_file)
    bind_addr ← or_exit (pt.get_text (codes "lsslocal.bind_addr"))
    bind_port ← or_exit (pt.get_number 16 (codes "lsslocal.bind_port"))
    server_name ← or_exit (pt.get_text (codes "lsslocal.server_name"))
    server_port ← or_exit (pt.get_text (codes "lsslocal.server_port"))
    auth_key ← or_exit (pt.get_text (codes "lsslocal.auth_key"))
    cipher_key ← caught_exit (md5.encrypt auth_key tt).0
    ok (record {
      bind_addr = bind_addr;
      bind_port = bind_port;
      server_name = server_name;
      server_port = server_port;
      auth_key = cipher_key;
      zip_on = or_default false (pt.get_bool (codes "lsslocal.zip_on"));
      logfile = or_default [] (pt.get_text (codes "lsslocal.logfile"));
      timeout = or_default 30 (pt.get_number 32 (codes "lsslocal.timeout"));
    })

-- What the sessions ask of it.
unfoldable pub session_config : Settings → Near.Config
session_config s = record {
  server_name = s.server_name;
  server_port = s.server_port;
  auth_key = s.auth_key;
  zip_on = s.zip_on;
}
