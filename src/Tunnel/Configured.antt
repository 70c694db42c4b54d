-- ===== src/Tunnel/Configured.antt =====
-- The two configuration files and the handshake: core/lss/config_local.cpp and config_server.cpp
-- against the exchange of session_local.cpp and session_server.cpp.
use lproxy.Base.{
  ℕ, ◌<◌, ◌%◌, ◌*◌, ◌≡◌, ap, ◌∙◌, Bool-cases, inl, inr, if◌then◌else◌, Option, some, List, [], ◌∷◌,
  ◌++◌, length, ok, arith, contains, c_string, generate, length-append,
}
use lproxy.Packet.{Packet, make_packet, RequestType, request_code}
use lproxy.Packet.Codec.{Receives}
use lproxy.Session.{status_auth}
use lproxy.Crypto.Md5.{md5}
use lproxy.Config.{Ptree}
use lproxy.Config.Local as NearConfig
use lproxy.Config.Server as FarConfig
use lproxy.Config.Keys.{contains-inserted}
use lproxy.Config.Complete.{
  NearFile, FarFile, near_settings, far_settings, configure-near, configure-far,
}
use lproxy.Local.State as Near
use lproxy.Server.State as Far
use lproxy.Server.Pack as FarPack
use lproxy.Server.Left as FarLeft
use lproxy.Server.Guarded.{on_exchange-denied}
use lproxy.Tunnel.Agreed.{Agrees}
use lproxy.Tunnel.Handshake.{exchange_reply, exchange-accepted, received, take-front}

-- The ends with what their files make of their configurations.
abbrev pub near_with : Near.Env → (pt : Ptree) → NearFile pt → List ℕ → Near.Env
near_with near pt file cipher_key = record near {
  config = NearConfig.session_config (near_settings pt file cipher_key);
}

abbrev pub far_with : Far.Env → (pt : Ptree) → FarFile pt → List ℕ → Far.Env
far_with far pt file public_key = record far {
  config = FarConfig.session_config (far_settings pt file public_key);
}

module _ (calculate_digest hex_encode : List ℕ → List ℕ)
    (digest_size : (text : List ℕ) → length (calculate_digest text) ≡ 16)
    (hex_size : (text : List ℕ) → length (hex_encode text) ≡ 2 * length text)
    (hex_text : (text : List ℕ) → c_string (hex_encode text) ≡ hex_encode text) where
  abbrev pub cipher_key : List ℕ → List ℕ
  cipher_key auth_key = hex_encode (calculate_digest auth_key)

  cipher_key-size : (auth_key : List ℕ) → length (cipher_key auth_key) ≡ 32
  cipher_key-size auth_key =
      omega (arith, hex_size (calculate_digest auth_key), digest_size auth_key)

  module _ (read_json : List ℕ → Option Ptree) (near_file far_file : List ℕ)
      (near_tree far_tree : Ptree) (near_read : read_json near_file ≡ some near_tree)
      (far_read : read_json far_file ≡ some far_tree) (n : NearFile near_tree)
      (f : FarFile far_tree) (near : Near.Env) (far : Far.Env)
      (public_key number cipher : List ℕ) where
    abbrev near' : Near.Env
    near' = near_with near near_tree n (cipher_key n.auth_key)

    abbrev far' : Far.Env
    far' = far_with far far_tree f public_key

    -- What the server's set contains of the local end's key.
    known :
        contains far'.config.cipher_auth_key_set (cipher_key n.auth_key)
        ≡ contains f.keys (cipher_key n.auth_key)
    unfolding FarConfig.session_config contains
    known =
        contains-inserted f.keys [] (cipher_key n.auth_key) f.sized (cipher_key-size n.auth_key)
          (hex_text (calculate_digest n.auth_key))

    -- Both programs read their files, which have the values that have no default, and keys of 32
    -- bytes. In `status_auth` the server accepts the exchange of the local end, and answers with a
    -- fresh data key, if the MD5 text of the local end's key is among the keys of the server's file,
    -- and answers with a deny packet before the session cancels if it is not. MD5 gives 16 bytes,
    -- the hexadecimal text of bytes is twice as long and has no NUL, the ciphers keep what `Agrees`
    -- says, and the cipher text fits a packet.
    pub configured-decides :
        Agrees near' far'
        → near.rsa_encrypt 1024 public_key (cipher_key n.auth_key ++ number) ≡ some cipher
        → length cipher < 65536
        → (answers : Far.Answers) (s : Far.Session) (p : Packet) → s.status ≡ status_auth
        → Receives p (make_packet 0 (request_code RequestType.exchange) (length cipher) cipher)
        → let key = generate answers.rand 32 (λ r. r % 255) in
          (NearConfig.configure (md5 calculate_digest hex_encode) read_json near_file
            ≡ ok (near_settings near_tree n (cipher_key n.auth_key)))
          × (FarConfig.configure read_json far_file (FarConfig.new_settings public_key)
              ≡ ok (far_settings far_tree f public_key))
          × (FarLeft.on_exchange far' answers p s ≡ (
            ok tt,
            (if contains f.keys (cipher_key n.auth_key)
                then (record s {
                  aes_encryptor = some key;
                  issued =
                      s.issued
                      ++ Far.write_left (exchange_reply near' far' key number) Far.exchange_handler
                        ∷ [];
                })
                else (record s {
                  issued = s.issued ++ Far.write_left FarPack.pack_deny Far.cancel_handler ∷ [];
                })),
          ))
    unfolding NearConfig.session_config FarConfig.session_config
    configured-decides agrees e fits answers s p status r =
        let size = cipher_key-size n.auth_key in
        let front = take-front 32 (cipher_key n.auth_key) number size in
        (
          configure-near read_json near_file near_tree near_read calculate_digest hex_encode n
              (cipher_key-size n.auth_key),
          configure-far read_json far_file far_tree far_read public_key f,
          elim (Bool-cases (contains f.keys (cipher_key n.auth_key))) [
            | inl h ↦ rw h (
                exchange-accepted near' far' agrees number cipher e fits size answers s p
                  (hex_text (calculate_digest n.auth_key)) (known ∙ h) status r)
            | inr h ↦ rw h (
                on_exchange-denied far' answers p (cipher_key n.auth_key ++ number) s status
                  (ap far.rsa_decrypt (received p _ cipher r fits) ∙ agrees.exchange _ _ _ e)
                  (omega (arith, length-append (cipher_key n.auth_key) number, size))
                  (rw front (known ∙ h)))
          ],
        )
