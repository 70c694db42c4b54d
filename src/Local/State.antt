-- ===== src/Local/State.antt =====
-- The members of the session, the operations that it can start, and what the outside answers.
use lproxy.Base.{ℕ, Bool, Option, none, List, [], ◌∷◌, ◌++◌}
use lproxy.Base.Handler.{Handler, update, ◌>>◌}
use lproxy.Packet.{Packet}
use lproxy.Session.{Status, status_not_connected, Exception}

-- What is bound to a write to the right.
pub data AfterRightWrite : Type 0 where
  hello_handler exchange_handler right_write_handler cancel_handler : AfterRightWrite

-- What is bound to a write to the left: the next packet of the same read, or the end of it.
pub data AfterLeftWrite : Type 0 where
  left_write_socks5_step1_handler left_write_handler : AfterLeftWrite
  right_read_handler : ℕ → Packet → AfterLeftWrite

-- What is bound to a read from the left.
pub data AfterLeftRead : Type 0 where
  left_read_socks5_step1 left_read_handler : AfterLeftRead

pub data Op : Type 0 where
  resolve_right : List ℕ → List ℕ → Op
  connect_any : List ℕ → Op
  connect_right : ℕ → List ℕ → Op
  read_right : ℕ → Op
  read_right_rest : ℕ → Packet → Op
  write_right : Packet → AfterRightWrite → Op
  read_left : ℕ → AfterLeftRead → Op
  write_left : List ℕ → AfterLeftWrite → Op
  cancel_left cancel_right close_left close_right : Op

pub record Session : Type 0 where
  pub status : Status
  pub random_str : List ℕ
  pub aes_encryptor : Option (List ℕ)  -- its key
  pub data_key : List ℕ
  pub issued : List Op

abbrev pub M : Type 0 → Type 0
M A = Handler Exception Session A

unfoldable pub new_session : Session
new_session = record {
  status = status_not_connected;
  random_str = [];
  aes_encryptor = none;
  data_key = [];
  issued = [];
}

-- What the session asks of its configuration.
pub record Config : Type 0 where
  pub server_name : List ℕ
  pub server_port : List ℕ
  pub auth_key : List ℕ
  pub zip_on : Bool

-- The calls of CryptoPP, and the configuration. `aes_*` take the raw key; `rsa_encrypt` takes the
-- size of the key and the public key, and `none` is an exception.
pub record Env : Type 0 where
  pub config : Config
  pub aes_encrypt : List ℕ → List ℕ → List ℕ
  pub aes_decrypt : List ℕ → List ℕ → List ℕ
  pub rsa_encrypt : ℕ → List ℕ → List ℕ → Option (List ℕ)

abbrev pub issue : Op → M (Unit {0})
issue op = update (λ s. record s { issued = s.issued ++ op ∷ [] })

-- `cancel`.
unfoldable pub cancel : M (Unit {0})
cancel = do issue cancel_left; issue cancel_right
