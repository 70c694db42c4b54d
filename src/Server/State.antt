-- ===== src/Server/State.antt =====
-- The members of the session, the operations that it can start, and what the outside answers.
use lproxy.Base.{ℕ, Bool, Option, none, List, [], ◌∷◌, ◌++◌}
use lproxy.Base.Handler.{Handler, update, ◌>>◌}
use lproxy.Packet.{Packet}
use lproxy.Session.{Status, status_not_connected, Exception}
use lproxy.Socks5.{Socks5State, opening}

pub data Socks5Cmd : Type 0 where
  cmd_connect cmd_bind cmd_udp cmd_unsupport : Socks5Cmd

-- What is bound to a write to the left.
pub data AfterLeftWrite : Type 0 where
  hello_handler exchange_handler left_write_handler cancel_handler : AfterLeftWrite

-- What is bound to a write to the right: the next packet of the same read, or the end of it.
pub data AfterRightWrite : Type 0 where
  left_read_handler : ℕ → Packet → AfterRightWrite
  right_write_handler : AfterRightWrite

pub data Op : Type 0 where
  read_left : ℕ → Op
  read_left_rest : ℕ → Packet → Op
  write_left : Packet → AfterLeftWrite → Op
  write_right_tcp : List ℕ → AfterRightWrite → Op
  send_right_udp : List ℕ → List ℕ → ℕ → AfterRightWrite → Op
  read_right_tcp : ℕ → Op
  receive_right_udp : ℕ → List ℕ → ℕ → Op
  resolve_tcp : List ℕ → ℕ → Op
  resolve_udp : List ℕ → ℕ → Op
  connect_tcp : ℕ → List ℕ → Op
  connect_udp : ℕ → List ℕ → Op
  wait_timer : ℕ → Op
  cancel_timer cancel_left cancel_right_tcp cancel_right_udp : Op
  close_left close_right_tcp close_right_udp : Op

pub record Session : Type 0 where
  pub status : Status
  pub socks5_state : Socks5State
  pub socks5_cmd : Socks5Cmd
  pub dest_name : List ℕ
  pub dest_port : ℕ
  pub socks5_resp_reply : ℕ
  pub aes_encryptor : Option (List ℕ)  -- its key
  pub issued : List Op

abbrev pub M : Type 0 → Type 0
M A = Handler Exception Session A

-- The constructor leaves `socks5_cmd`, `dest_port` and `socks5_resp_reply` as the memory was.
unfoldable pub new_session : Socks5Cmd → ℕ → ℕ → Session
new_session cmd port reply = record {
  status = status_not_connected;
  socks5_state = opening;
  socks5_cmd = cmd;
  dest_name = [];
  dest_port = port;
  socks5_resp_reply = reply;
  aes_encryptor = none;
  issued = [];
}

pub data AddrTypeName : Type 0 where
  named_ipv4 named_ipv6 named_domain named_otherwise : AddrTypeName

-- What the session asks of its configuration.
pub record Config : Type 0 where
  pub cipher_auth_key_set : List (List ℕ)
  pub zip_on : Bool
  pub timeout : ℕ
  pub rsa_keysize : ℕ
  pub rsa_publickey_hex : List ℕ
  pub bind_addr_type : AddrTypeName
  pub bind_addr : List ℕ
  pub bind_port : ℕ

-- The calls of CryptoPP and of asio's addresses, and the configuration. `aes_*` take the raw key;
-- `none` is an exception.
pub record Env : Type 0 where
  pub config : Config
  pub aes_encrypt : List ℕ → List ℕ → List ℕ
  pub aes_decrypt : List ℕ → List ℕ → List ℕ
  pub rsa_decrypt : List ℕ → Option (List ℕ)
  pub v4_to_string : List ℕ → List ℕ
  pub v6_to_string : List ℕ → List ℕ
  pub v4_of_string : List ℕ → Option (List ℕ)
  pub is_address : List ℕ → Bool

-- What calls inside of a handler answer at that time.
pub record Answers : Type 0 where
  pub rand : ℕ → ℕ
  pub udp_open_error : Bool

abbrev pub issue : Op → M (Unit {0})
issue op = update (λ s. record s { issued = s.issued ++ op ∷ [] })

unfoldable pub cancel : M (Unit {0})
cancel = do issue cancel_timer; issue cancel_left; issue cancel_right_tcp; issue cancel_right_udp
