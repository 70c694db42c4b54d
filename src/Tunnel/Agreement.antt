-- ===== src/Tunnel/Agreement.antt =====
-- What is pending at the two ends while they agree on a data key: the packets that core/lss/session_local.cpp
-- and session_server.cpp write, and what is bound to them.
pub mod NearKept
pub mod NearReads
pub mod NearTurns
pub mod FarKept
pub mod FarReads
pub mod FarTurns
pub mod FarBegun
pub mod FarExchanged
pub mod FarPhases
pub mod Reached
pub mod Roundtrip
use lproxy.Base.{
  ℕ, contains, ◌<◌, ◌≡◌, ◌==◌, ◌⊎◌, none, [], ◌∷◌, Bool, true, false, Option, some, List, ◌++◌,
  length, All,
}
use lproxy.Packet.{
  Packet, make_packet, request_type, reply_type, ReplyType, RequestType, request_code,
}
use lproxy.Session.{status_data, status_code}
use lproxy.Local.State as Near
use lproxy.Server.State as Far
use lproxy.Server.Pack as FarPack
use lproxy.Tunnel.Handshake.{exchange_reply}

unfoldable pub reads_on : Near.AfterLeftWrite → Bool
reads_on (Near.right_read_handler n packet) = true
reads_on Near.left_write_handler = false
reads_on Near.left_write_socks5_step1_handler = false

-- Whether the write of a packet is followed by a read from the client.
abbrev pub forwards : Near.AfterRightWrite → Bool
forwards Near.right_write_handler = true
forwards _ = false

-- Whether an operation is the write of a hello.
abbrev pub greets : Far.Op → Bool
greets (Far.write_left p Far.hello_handler) = true
greets _ = false

-- Whether an operation starts nothing but cancellations when it completes; whether it goes on with the
-- handshake; whether it ends it.
abbrev pub is_quiet : Far.Op → Bool
is_quiet Far.cancel_timer = true
is_quiet Far.cancel_left = true
is_quiet Far.cancel_right_tcp = true
is_quiet Far.cancel_right_udp = true
is_quiet Far.close_left = true
is_quiet Far.close_right_tcp = true
is_quiet Far.close_right_udp = true
is_quiet (Far.write_left p Far.cancel_handler) = true
is_quiet _ = false

abbrev pub goes_on : Far.Op → Bool
goes_on (Far.read_left n) = true
goes_on (Far.read_left_rest n packet) = true
goes_on (Far.write_left p Far.hello_handler) = true
goes_on _ = false

abbrev pub ends : Far.Op → Bool
ends (Far.write_left p Far.exchange_handler) = true
ends op = is_quiet op

abbrev pub AllQuiet : List Far.Op → Type 0
AllQuiet = All (λ op. is_quiet op ≡ true)

-- At most one of the operations goes on with the handshake, and the others are quiet.
abbrev pub One : List Far.Op → Type 0
One [] = Unit {0}
One (op ∷ ops) = (is_quiet op ≡ true) × One ops ⊎ (goes_on op ≡ true) × AllQuiet ops

module _ (near : Near.Env) (far : Far.Env) where
  -- An exchange of the local end: its authentication key and a number, for the server's public key.
  pub record Genuine (p : Packet) : Type 0 where
    pub number : List ℕ
    pub cipher : List ℕ
    pub encrypts :
        near.rsa_encrypt far.config.rsa_keysize far.config.rsa_publickey_hex
          (near.config.auth_key ++ number)
        ≡ some cipher
    pub number_size : length number ≡ 10
    pub fits : length cipher < 65536
    pub packet : p ≡ make_packet 0 (request_code RequestType.exchange) (length cipher) cipher

  -- An exchange of the server, with its data key.
  pub record Sealed (encryptor : Option (List ℕ)) (p : Packet) : Type 0 where
    pub key : List ℕ
    pub number : List ℕ
    pub held : encryptor ≡ some key
    pub known : contains far.config.cipher_auth_key_set near.config.auth_key ≡ true
    pub key_size : length key ≡ 32
    pub number_size : length number ≡ 10
    pub packet : p ≡ exchange_reply near far key number

  -- What is pending at the local end with a data key: nothing of the client is dealt with before it is
  -- that of the server's encryptor.
  abbrev pub NearSound : Option (List ℕ) → List ℕ → Near.Op → Type 0
  NearSound encryptor key (Near.write_right p bound) =
      (request_type p ≡ RequestType.exchange → Genuine p)
      × (forwards bound ≡ true → encryptor ≡ some key)
  NearSound encryptor key (Near.write_left text bound) =
      (reads_on bound ≡ false) × (encryptor ≡ some key)
  NearSound encryptor key (Near.read_left n bound) = encryptor ≡ some key
  NearSound encryptor key _ = Unit {0}

  abbrev pub PacketSound : Option (List ℕ) → Packet → Type 0
  PacketSound encryptor p =
      (reply_type p ≡ ReplyType.hello → p ≡ FarPack.pack_hello far)
      × (reply_type p ≡ ReplyType.exchange → Sealed encryptor p)

  abbrev pub FarSound : Option (List ℕ) → Far.Op → Type 0
  FarSound encryptor (Far.write_left p bound) = PacketSound encryptor p
  FarSound encryptor _ = Unit {0}

  -- In `status_data` the local end has the data key of the server's encryptor, and the server knows
  -- its authentication key. The encryptor of the local end never has another key.
  pub record NearOk (encryptor : Option (List ℕ)) (key : List ℕ) (l : Near.Session) : Type 0 where
    pub data_key : l.data_key ≡ key
    pub sound : All (NearSound encryptor key) l.issued
    pub agreed :
        l.status ≡ status_data
        → (encryptor ≡ some key)
          × (contains far.config.cipher_auth_key_set near.config.auth_key ≡ true)
    pub own : (k : List ℕ) → l.aes_encryptor ≡ some k → encryptor ≡ some k

  -- The server in `status_data`, with a data key.
  pub record FarOpen (key : List ℕ) (s : Far.Session) : Type 0 where
    pub held : s.aes_encryptor ≡ some key
    pub status : s.status ≡ status_data
    pub sound : All (FarSound (some key)) s.issued
    pub no_hello : All (λ op. greets op ≡ false) s.issued

  -- The server before the exchange; without an operation that goes on; and between the exchange and
  -- `status_data`.
  pub record FarEarly (s : Far.Session) : Type 0 where
    pub no_key : s.aes_encryptor ≡ none
    pub early : status_code s.status == 4 ≡ false
    pub sound : All (FarSound none) s.issued
    pub one : One s.issued

  pub record FarQuiet (s : Far.Session) : Type 0 where
    pub no_key : s.aes_encryptor ≡ none
    pub early : status_code s.status == 4 ≡ false
    pub sound : All (FarSound none) s.issued
    pub quiet : AllQuiet s.issued

  pub record FarSealed (key : List ℕ) (s : Far.Session) : Type 0 where
    pub held : s.aes_encryptor ≡ some key
    pub early : status_code s.status == 4 ≡ false
    pub sound : All (FarSound (some key)) s.issued
    pub last : All (λ op. ends op ≡ true) s.issued

  pub data FarPhase (s : Far.Session) : Type 0 where
    early : FarEarly s → FarPhase s
    sealed : (key : List ℕ) → FarSealed key s → FarPhase s
    opened : (key : List ℕ) → FarOpen key s → FarPhase s
