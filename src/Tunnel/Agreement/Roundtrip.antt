-- ===== src/Tunnel/Agreement/Roundtrip.antt =====
-- Data between the two ends of a connection, once they have agreed: pack_data of the one of
-- core/lss/session_local.cpp and session_server.cpp, and the unpacking of the other.
use lproxy.Base.{ℕ, ◌+◌, ◌<◌, ◌≤◌, ◌≡◌, refl, Bool, some, List, ◌++◌, length, take, ok, c_string}
use lproxy.Packet.{Packet}
use lproxy.Packet.Codec.{Receives}
use lproxy.Session.{status_data, sub_ℕ}
use lproxy.Local.State as Near
use lproxy.Local.Pack as NearPack
use lproxy.Server.State as Far
use lproxy.Server.Pack as FarPack
use lproxy.Tunnel.Agreed.{Agrees}
use lproxy.Tunnel.Joint.{Joint, Reach, accepted}
use lproxy.Tunnel.Transfer.{up-roundtrip, down-roundtrip}
use lproxy.Tunnel.Agreement.Reached.{keys-agree}

module _ (near : Near.Env) (far : Far.Env) (agrees : Agrees near far)
    (auth_size : length near.config.auth_key ≡ 32)
    (auth_text : c_string near.config.auth_key ≡ near.config.auth_key)
    (key_size : far.config.rsa_keysize < 65536)
    (key_fits : length far.config.rsa_publickey_hex + 2 < 65536)
    (fits : (number cipher : List ℕ)
      → length number ≡ 10
      → near.rsa_encrypt far.config.rsa_keysize far.config.rsa_publickey_hex
          (near.config.auth_key ++ number)
        ≡ some cipher
      → length cipher < 65536) where
  -- Whatever the two ends of a connection come to from the accepted connections on, with the local
  -- end in `status_data`: what the one packs, the other unpacks to the same bytes, with an exact
  -- count of what is left, for at most 65535 bytes of the buffer, and whatever the received packet's
  -- buffer has behind the cipher text. The conditions are those of `keys-agree`.
  pub agreed-roundtrip :
      (cmd : Far.Socks5Cmd) (port reply : ℕ) (j : Joint)
      → Reach near far (accepted near far cmd port reply) j
      → j.near.status ≡ status_data
      → (text : List ℕ) (n m : ℕ) (p packet : Packet) (is_zip : Bool) → n ≤ length text
      → n < 65536
      → Receives p packet
      → ((NearPack.pack_data near text n j.near).0 ≡ ok packet
          → FarPack.unpack_data far m p is_zip j.far ≡ (ok (take n text, sub_ℕ m (4 + n)), j.far))
        × ((FarPack.pack_data far text n j.far).0 ≡ ok packet
            → (NearPack.unpack_reply_data near m p is_zip j.near).0
              ≡ ok (take n text, sub_ℕ m (4 + n)))
  agreed-roundtrip cmd port reply j r h text n m p packet is_zip whole small received =
      let key = NearPack.encryptor_key near j.near in
      let (held, _) =
        keys-agree near far agrees auth_size auth_text key_size key_fits fits cmd port reply j r
          h in
      (
        λ packed.
            up-roundtrip near far agrees j.near j.far key text n m p packet is_zip refl held whole
              small packed received,
        λ packed.
            down-roundtrip near far agrees j.near j.far key text n m p packet is_zip refl held whole
              small packed received,
      )
