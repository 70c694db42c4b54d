-- ===== src/Examples/Ends.antt =====
-- Two ends that agree: AES is the identity, and RSA puts the size of the key in front.
use lproxy.Base.{
  ◌+◌, ◌≡◌, ℕ, true, false, codes, refl, Option, some, none, List, [], ◌∷◌, replicate,
}
use lproxy.Socks5.{connecting}
use lproxy.Packet.{Packet}
use lproxy.Server.World.{Completion}
use lproxy.Session.{status_auth, status_data}
use lproxy.Local.State as Near
use lproxy.Server.State as Far
use lproxy.Tunnel.Agreed.{Agrees}

abbrev pub auth_key : List ℕ
auth_key = replicate 32 97

abbrev pub data_key : List ℕ
data_key = replicate 32 7

abbrev pub number : List ℕ
number = replicate 10 0x31

abbrev pub public_key : List ℕ
public_key = 1 ∷ 2 ∷ 3 ∷ []

abbrev unsealed : List ℕ → Option (List ℕ)
unsealed [] = none
unsealed (x ∷ xs) = some xs

abbrev pub near : Near.Env
near = record {
  config = record {
    server_name = 104 ∷ [];
    server_port = codes "8088";
    auth_key = auth_key;
    zip_on = false;
  };
  aes_encrypt = λ key text. text;
  aes_decrypt = λ key text. text;
  rsa_encrypt = λ size public plain. some (size ∷ plain);
}

abbrev pub far : Far.Env
far = record {
  config = record {
    cipher_auth_key_set = (98 ∷ []) ∷ auth_key ∷ [];
    zip_on = false;
    timeout = 30;
    rsa_keysize = 1024;
    rsa_publickey_hex = public_key;
    bind_addr_type = Far.named_ipv4;
    bind_addr = 49 ∷ [];
    bind_port = 8088;
  };
  aes_encrypt = λ key text. text;
  aes_decrypt = λ key text. text;
  rsa_decrypt = unsealed;
  v4_to_string = λ ip. ip;
  v6_to_string = λ ip. ip;
  v4_of_string = λ text. some (127 ∷ 0 ∷ 0 ∷ 1 ∷ []);
  is_address = λ text. true;
}

pub near-far-Agrees : Agrees near far
near-far-Agrees = record {
  up = λ key text. refl;
  down = λ key text. refl;
  up_length = λ key text. refl;
  down_length = λ key text. refl;
  exchange = λ size plain cipher e. let c : size ∷ plain ≡ cipher = cc in rw (← c) refl;
}

abbrev pub answers : Far.Answers
answers = record { rand = λ i. 300 + i; udp_open_error = false }

-- A session of the local end that has sent its exchange.
abbrev pub near_auth : Near.Session
near_auth = record {
  status = status_auth;
  random_str = number;
  aes_encryptor = none;
  data_key = [];
  issued = [];
}

abbrev pub near_ready : Near.Session
near_ready = record near_auth { status = status_data; data_key = data_key }

-- A session of the server that waits for an exchange.
abbrev pub far_auth : Far.Session
far_auth = record {
  status = status_auth;
  socks5_state = connecting;
  socks5_cmd = Far.cmd_connect;
  dest_name = [];
  dest_port = 0;
  socks5_resp_reply = 0;
  aes_encryptor = none;
  issued = [];
}

abbrev pub far_ready : Far.Session
far_ready = record far_auth { status = status_data; aes_encryptor = some data_key }

abbrev pub empty_packet : Packet
empty_packet = record {
  version = 0;
  type = 0;
  data_len_high_byte = 0;
  data_len_low_byte = 0;
  payload = [];
}

abbrev pub completed : ℕ → Packet → Completion
completed n packet = record {
  error = false;
  bytes = n;
  packet = packet;
  bytes_read = [];
  endpoints = [];
  address_of = λ endpoint. [];
  expiry_moved = false;
  answers = answers;
}
