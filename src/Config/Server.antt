-- ===== src/Config/Server.antt =====
-- core/lss/config_server.h and config_server.cpp. The pair of RSA keys is made by CryptoPP when the
-- program starts. A set of keys is a list without duplicates: its order has no use here.
use lproxy.Base.{
  ℕ, ◌==◌, if◌then◌else◌, Bool, false, Option, List, [], ◌∷◌, ◌++◌, length, codes, bytes_eq,
  contains, c_string, Outcome, ok, fault, ◌>>=◌,
}
use lproxy.Program.Keep.{Exit}
use lproxy.Config.{Ptree, or_exit, or_default}
use lproxy.Server.State as Far

-- The members of `config`.
pub record Settings : Type 0 where
  pub rsa_keysize : ℕ
  pub rsa_publickey_hex : List ℕ
  pub zip_on : Bool
  pub cipher_auth_key_set : List (List ℕ)
  pub bind_addr : List ℕ
  pub bind_port : ℕ
  pub bind_addr_socks5 : List ℕ
  pub bind_addr_type_socks5 : List ℕ
  pub bind_port_socks5 : ℕ
  pub timeout : ℕ
  pub logfile : List ℕ

-- The constructor: the key is the first argument, its size is fixed. The ports are not initialised,
-- which 0 stands for.
unfoldable pub new_settings : List ℕ → Settings
new_settings rsa_publickey_hex = record {
  rsa_keysize = 1024;
  rsa_publickey_hex = rsa_publickey_hex;
  zip_on = false;
  cipher_auth_key_set = [];
  bind_addr = [];
  bind_port = 0;
  bind_addr_socks5 = [];
  bind_addr_type_socks5 = [];
  bind_port_socks5 = 0;
  timeout = 90;
  logfile = [];
}

-- The loop of `as_vector`: the elements of an array have no names.
unfoldable pub unnamed : List (List ℕ × List ℕ) → Outcome Exit (List (List ℕ))
unnamed [] = ok []
unnamed (([], text) ∷ items) = (do r ← unnamed items; ok (text ∷ r))
unnamed ((c ∷ name, text) ∷ items) = fault

unfoldable pub as_vector : Ptree → List ℕ → Outcome Exit (List (List ℕ))
unfolding unnamed or_exit
as_vector pt key = (do items ← or_exit (pt.get_child key); unnamed items)

unfoldable pub insert : List ℕ → List (List ℕ) → List (List ℕ)
unfolding contains
insert key set = if contains set key then set else set ++ key ∷ []

-- The loop over the keys of the file.
unfoldable pub insert_keys : List (List ℕ) → List (List ℕ) → Outcome Exit (List (List ℕ))
unfolding insert c_string
insert_keys [] set = ok set
insert_keys (cipher_auth_key ∷ rest) set =
    if length cipher_auth_key == 32
    then insert_keys rest (insert (c_string cipher_auth_key) set)
    else fault

module _ (read_json : List ℕ → Option Ptree) where
  unfoldable pub configure : List ℕ → Settings → Outcome Exit Settings
  unfolding or_exit or_default as_vector insert_keys
  configure config_file s = do
    pt ← or_exit (read_json config_file)
    bind_addr ← or_exit (pt.get_text (codes "lssserver.bind_addr"))
    bind_port ← or_exit (pt.get_number 16 (codes "lssserver.bind_port"))
    bind_addr_socks5 ← or_exit (pt.get_text (codes "lssserver.bind_addr_socks5"))
    bind_addr_type_socks5 ← or_exit (pt.get_text (codes "lssserver.bind_addr_type_socks5"))
    bind_port_socks5 ← or_exit (pt.get_number 16 (codes "lssserver.bind_port_socks5"))
    keys ← as_vector pt (codes "lssserver.cipher_auth_key_set")
    set ← insert_keys keys s.cipher_auth_key_set
    ok (record s {
      bind_addr = bind_addr;
      bind_port = bind_port;
      bind_addr_socks5 = bind_addr_socks5;
      bind_addr_type_socks5 = bind_addr_type_socks5;
      bind_port_socks5 = bind_port_socks5;
      zip_on = or_default false (pt.get_bool (codes "lssserver.zip_on"));
      timeout = or_default 90 (pt.get_number 32 (codes "lssserver.timeout"));
      logfile = or_default [] (pt.get_text (codes "lsslocal.logfile"));
      cipher_auth_key_set = set;
    })

-- What `pack_socks5_resp` tells apart.
unfoldable pub addr_type_name : List ℕ → Far.AddrTypeName
unfolding bytes_eq
addr_type_name type =
    if bytes_eq type (codes "ipv4")
    then Far.named_ipv4
    else if bytes_eq type (codes "ipv6")
    then Far.named_ipv6
    else if bytes_eq type (codes "domain")
    then Far.named_domain
    else Far.named_otherwise

-- What the sessions ask of it.
unfoldable pub session_config : Settings → Far.Config
unfolding addr_type_name
session_config s = record {
  cipher_auth_key_set = s.cipher_auth_key_set;
  zip_on = s.zip_on;
  timeout = s.timeout;
  rsa_keysize = s.rsa_keysize;
  rsa_publickey_hex = s.rsa_publickey_hex;
  bind_addr_type = addr_type_name s.bind_addr_type_socks5;
  bind_addr = s.bind_addr_socks5;
  bind_port = s.bind_port_socks5;
}
