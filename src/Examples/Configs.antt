-- ===== src/Examples/Configs.antt =====
-- A run of the theorem on the two configuration files. The digest of every text is the same.
use lproxy.Base.{
  ℕ, ◌*◌, ◌%◌, ◌≡◌, refl, ap, arith, if◌then◌else◌, Option, none, some, List, [], ◌∷◌, ◌++◌, length,
  replicate, codes, bytes_eq, contains, c_string, ok, generate,
}
use lproxy.Packet.{Packet, make_packet, data_len, RequestType, request_code}
use lproxy.Packet.Codec.{Receives}
use lproxy.Crypto.Md5.{md5}
use lproxy.Config.{Ptree}
use lproxy.Config.Local as NearConfig
use lproxy.Config.Server as FarConfig
use lproxy.Config.Complete.{NearFile, FarFile, near_settings, far_settings}
use lproxy.Local.State as Near
use lproxy.Server.State as Far
use lproxy.Server.Left as FarLeft
use lproxy.Tunnel.Agreed.{Agrees}
use lproxy.Tunnel.Handshake.{exchange_reply}
use lproxy.Tunnel.Configured.{configured-decides, near_with, far_with}
use lproxy.Examples.Ends.{near, far, number, public_key, answers, far_auth, near-far-Agrees}

abbrev digest : List ℕ → List ℕ
digest text = replicate 16 171

-- A byte as two letters.
abbrev hex_encode : List ℕ → List ℕ
hex_encode [] = []
hex_encode (x ∷ xs) = 65 ∷ 66 ∷ hex_encode xs

hex_encode-length : (text : List ℕ) → length (hex_encode text) ≡ 2 * length text
hex_encode-length [] = refl
hex_encode-length (x ∷ xs) = omega (arith, hex_encode-length xs)

hex_encode-text : (text : List ℕ) → c_string (hex_encode text) ≡ hex_encode text
unfolding c_string
hex_encode-text [] = refl
hex_encode-text (x ∷ xs) = ap (λ r. 65 ∷ 66 ∷ r) (hex_encode-text xs)

abbrev text_of : List (List ℕ × List ℕ) → List ℕ → Option (List ℕ)
text_of [] path = none
text_of ((name, text) ∷ rest) path = if bytes_eq name path then some text else text_of rest path

abbrev near_tree : Ptree
near_tree = record {
  get_text = text_of (
      (codes "lsslocal.bind_addr", codes "0.0.0.0")
      ∷ (codes "lsslocal.server_name", codes "h")
      ∷ (codes "lsslocal.server_port", codes "8088")
      ∷ (codes "lsslocal.auth_key", codes "secret")
      ∷ []);
  get_number = λ bits path. if bytes_eq path (codes "lsslocal.bind_port") then some 8087 else none;
  get_bool = λ path. none;
  get_child = λ path. none;
}

abbrev keys : List (List ℕ)
keys = replicate 32 67 ∷ hex_encode (digest []) ∷ []

abbrev far_tree : Ptree
far_tree = record {
  get_text = text_of (
      (codes "lssserver.bind_addr", codes "0.0.0.0")
      ∷ (codes "lssserver.bind_addr_socks5", codes "127.0.0.1")
      ∷ (codes "lssserver.bind_addr_type_socks5", codes "ipv4")
      ∷ []);
  get_number = λ bits path. if bytes_eq path (codes "lssserver.timeout") then none else some 8088;
  get_bool = λ path. none;
  get_child = λ path.
      if bytes_eq path (codes "lssserver.cipher_auth_key_set")
      then some (([], replicate 32 67) ∷ ([], hex_encode (digest [])) ∷ [])
      else none;
}

abbrev read_json : List ℕ → Option Ptree
read_json file = if bytes_eq file (codes "local.json") then some near_tree else some far_tree

unfoldable near_file : NearFile near_tree
unfolding bytes_eq
near_file = record {
  bind_addr = codes "0.0.0.0";
  bind_port = 8087;
  server_name = codes "h";
  server_port = codes "8088";
  auth_key = codes "secret";
  has_bind_addr = refl;
  has_bind_port = refl;
  has_server_name = refl;
  has_server_port = refl;
  has_auth_key = refl;
}

unfoldable far_file : FarFile far_tree
unfolding bytes_eq
far_file = record {
  bind_addr = codes "0.0.0.0";
  bind_port = 8088;
  bind_addr_socks5 = codes "127.0.0.1";
  bind_addr_type_socks5 = codes "ipv4";
  bind_port_socks5 = 8088;
  keys = keys;
  has_bind_addr = refl;
  has_bind_port = refl;
  has_addr_socks5 = refl;
  has_type_socks5 = refl;
  has_port_socks5 = refl;
  has_keys = refl;
  sized = (refl, (refl, tt));
}

abbrev near' : Near.Env
near' = near_with near near_tree near_file (hex_encode (digest []))

abbrev far' : Far.Env
far' = far_with far far_tree far_file public_key

agrees : Agrees near' far'
agrees = record {
  up = λ key text. refl;
  down = λ key text. refl;
  up_length = λ key text. refl;
  down_length = λ key text. refl;
  exchange = λ size plain cipher e. near-far-Agrees.exchange size plain cipher e;
}

abbrev cipher : List ℕ
cipher = 1024 ∷ (hex_encode (digest []) ++ number)

abbrev exchange_packet : Packet
exchange_packet = record {
  version = 0;
  type = 2;
  data_len_high_byte = 0;
  data_len_low_byte = 43;
  payload = cipher ++ 0 ∷ 0 ∷ [];
}

exchange_packet-Receives :
    Receives exchange_packet (make_packet 0 (request_code RequestType.exchange) 43 cipher)
unfolding make_packet data_len request_code
exchange_packet-Receives = record { version = refl; type = refl; data_len = refl; payload = refl }

configured-decides_example :
    let key = generate answers.rand 32 (λ r. r % 255) in
    (NearConfig.configure (md5 digest hex_encode) read_json (codes "local.json")
      ≡ ok (near_settings near_tree near_file (hex_encode (digest []))))
    × (FarConfig.configure read_json (codes "server.json") (FarConfig.new_settings public_key)
        ≡ ok (far_settings far_tree far_file public_key))
    × (FarLeft.on_exchange far' answers exchange_packet far_auth ≡ (
      ok tt,
      record far_auth {
        aes_encryptor = some key;
        issued = Far.write_left (exchange_reply near' far' key number) Far.exchange_handler ∷ [];
      },
    ))
unfolding bytes_eq contains near_file far_file
configured-decides_example =
    configured-decides digest hex_encode (λ text. refl) hex_encode-length hex_encode-text read_json
      (codes "local.json") (codes "server.json") near_tree far_tree refl refl near_file far_file
      near far public_key number cipher agrees refl (omega arith) answers far_auth exchange_packet
      refl exchange_packet-Receives
