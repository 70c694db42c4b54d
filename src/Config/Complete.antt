-- ===== src/Config/Complete.antt =====
-- Files that config_local.cpp and config_server.cpp, in core/lss, read without an exit.
use lproxy.Base.{ℕ, ◌≡◌, refl, Option, some, List, [], length, map, codes, ok, false}
use lproxy.Crypto.Md5.{encrypt, md5}
use lproxy.Config.{Ptree, or_default, or_exit}
use lproxy.Config.Keys.{Sized, inserted, insert_keys-inserted, unnamed-texts}
use lproxy.Config.Local as Near
use lproxy.Config.Server as Far

-- The values that have no default.
pub record NearFile (pt : Ptree) : Type 0 where
  pub bind_addr : List ℕ
  pub bind_port : ℕ
  pub server_name : List ℕ
  pub server_port : List ℕ
  pub auth_key : List ℕ
  pub has_bind_addr : pt.get_text (codes "lsslocal.bind_addr") ≡ some bind_addr
  pub has_bind_port : pt.get_number 16 (codes "lsslocal.bind_port") ≡ some bind_port
  pub has_server_name : pt.get_text (codes "lsslocal.server_name") ≡ some server_name
  pub has_server_port : pt.get_text (codes "lsslocal.server_port") ≡ some server_port
  pub has_auth_key : pt.get_text (codes "lsslocal.auth_key") ≡ some auth_key

pub record FarFile (pt : Ptree) : Type 0 where
  pub bind_addr : List ℕ
  pub bind_port : ℕ
  pub bind_addr_socks5 : List ℕ
  pub bind_addr_type_socks5 : List ℕ
  pub bind_port_socks5 : ℕ
  pub keys : List (List ℕ)
  pub has_bind_addr : pt.get_text (codes "lssserver.bind_addr") ≡ some bind_addr
  pub has_bind_port : pt.get_number 16 (codes "lssserver.bind_port") ≡ some bind_port
  pub has_addr_socks5 : pt.get_text (codes "lssserver.bind_addr_socks5") ≡ some bind_addr_socks5
  pub has_type_socks5 :
      pt.get_text (codes "lssserver.bind_addr_type_socks5") ≡ some bind_addr_type_socks5
  pub has_port_socks5 :
      pt.get_number 16 (codes "lssserver.bind_port_socks5") ≡ some bind_port_socks5
  pub has_keys :
      pt.get_child (codes "lssserver.cipher_auth_key_set") ≡ some (map (λ k. ([], k)) keys)
  pub sized : Sized keys

-- What `configure` makes of them.
abbrev pub near_settings : (pt : Ptree) → NearFile pt → List ℕ → Near.Settings
near_settings pt file cipher_key = record {
  bind_addr = file.bind_addr;
  bind_port = file.bind_port;
  server_name = file.server_name;
  server_port = file.server_port;
  auth_key = cipher_key;
  zip_on = or_default false (pt.get_bool (codes "lsslocal.zip_on"));
  logfile = or_default [] (pt.get_text (codes "lsslocal.logfile"));
  timeout = or_default 30 (pt.get_number 32 (codes "lsslocal.timeout"));
}

abbrev pub far_settings : (pt : Ptree) → FarFile pt → List ℕ → Far.Settings
far_settings pt file rsa_publickey_hex = record {
  rsa_keysize = 1024;
  rsa_publickey_hex = rsa_publickey_hex;
  zip_on = or_default false (pt.get_bool (codes "lssserver.zip_on"));
  cipher_auth_key_set = inserted file.keys [];
  bind_addr = file.bind_addr;
  bind_port = file.bind_port;
  bind_addr_socks5 = file.bind_addr_socks5;
  bind_addr_type_socks5 = file.bind_addr_type_socks5;
  bind_port_socks5 = file.bind_port_socks5;
  timeout = or_default 90 (pt.get_number 32 (codes "lssserver.timeout"));
  logfile = or_default [] (pt.get_text (codes "lsslocal.logfile"));
}

module _ (read_json : List ℕ → Option Ptree) (config_file : List ℕ) (pt : Ptree)
    (h : read_json config_file ≡ some pt) where
  pub configure-near :
      (calculate_digest hex_encode : List ℕ → List ℕ) (file : NearFile pt)
      → length (hex_encode (calculate_digest file.auth_key)) ≡ 32
      → Near.configure (md5 calculate_digest hex_encode) read_json config_file
        ≡ ok (near_settings pt file (hex_encode (calculate_digest file.auth_key)))
  unfolding Near.configure or_exit md5 encrypt Near.caught_exit
  configure-near calculate_digest hex_encode file l =
      rw
        (
          h, file.has_bind_addr, file.has_bind_port, file.has_server_name, file.has_server_port,
          file.has_auth_key, l,
        )
        refl

  pub configure-far :
      (rsa_publickey_hex : List ℕ) (file : FarFile pt)
      → Far.configure read_json config_file (Far.new_settings rsa_publickey_hex)
        ≡ ok (far_settings pt file rsa_publickey_hex)
  unfolding Far.configure Far.new_settings Far.as_vector or_exit
  configure-far rsa_publickey_hex file =
      rw
        (
          h,
          file.has_bind_addr,
          file.has_bind_port,
          file.has_addr_socks5,
          file.has_type_socks5,
          file.has_port_socks5,
          file.has_keys,
          unnamed-texts file.keys,
          insert_keys-inserted file.keys [] file.sized,
        )
        refl
