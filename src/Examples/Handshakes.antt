-- ===== src/Examples/Handshakes.antt =====
-- A handshake from the accepted connections on, and what the two ends agree on.
use lproxy.Base.{
  ok, ◌<◌, ℕ, false, ◌≡◌, refl, ap, true, generate, arith, some, List, [], ◌∷◌, ◌++◌, length,
  contains, bytes_eq, c_string, length-append,
}
use lproxy.Packet.{Packet, data_len, make_packet, request_code, reply_code}
use lproxy.Packet.Codec.{Receives}
use lproxy.Session.{sub_ℕ}
use lproxy.Local.Pack as NearPack
use lproxy.Server.Pack as FarPack
use lproxy.Tunnel.Agreement.Roundtrip.{agreed-roundtrip}
use lproxy.Local.World as NearWorld
use lproxy.Local.Pack.{encryptor_key, generate_number}
use lproxy.Server.State as Far
use lproxy.Tunnel.Joint.{Joint, Reach, accepted}
use lproxy.Tunnel.Established.{established, handshake-establishes}
use lproxy.Tunnel.Agreement.Reached.{keys-agree}
use lproxy.Examples.Ends.{near, far, near-far-Agrees, auth_key, empty_packet, completed}

abbrev succeeds : NearWorld.Completion
succeeds = record {
  error = false;
  bytes = 0;
  packet = empty_packet;
  bytes_read = [];
  endpoints = 1 ∷ [];
  rand = λ i. i;
}

abbrev cipher : List ℕ
cipher = 1024 ∷ (auth_key ++ generate_number (λ i. i))

cipher-size : length cipher ≡ 43
unfolding generate_number generate
cipher-size = refl

handshake-establishes_example :
    Reach near far
      (accepted near far Far.cmd_connect 0 0)
      (established near far Far.cmd_connect 0 0 succeeds (completed 0 empty_packet))
unfolding c_string contains bytes_eq
handshake-establishes_example =
    handshake-establishes near far Far.cmd_connect 0 0 succeeds (completed 0 empty_packet)
      near-far-Agrees cipher refl (omega arith) (omega arith) (omega (arith, cipher-size)) refl refl
      refl

exchange-fits :
    (number' cipher' : List ℕ)
    → length number' ≡ 10
    → near.rsa_encrypt far.config.rsa_keysize far.config.rsa_publickey_hex
        (near.config.auth_key ++ number')
      ≡ some cipher'
    → length cipher' < 65536
exchange-fits number' cipher' size e =
    let same : 1024 ∷ (auth_key ++ number') ≡ cipher' = cc in
    omega (arith, ap length same, length-append auth_key number', size)

abbrev agreed : Joint
agreed = established near far Far.cmd_connect 0 0 succeeds (completed 0 empty_packet)

agreed-Reach : Reach near far (accepted near far Far.cmd_connect 0 0) agreed
unfolding c_string contains bytes_eq
agreed-Reach =
    handshake-establishes near far Far.cmd_connect 0 0 succeeds (completed 0 empty_packet)
      near-far-Agrees cipher refl (omega arith) (omega arith) (omega (arith, cipher-size)) refl refl
      refl

keys-agree_example :
    (agreed.far.aes_encryptor ≡ some (encryptor_key near agreed.near))
    × (contains far.config.cipher_auth_key_set near.config.auth_key ≡ true)
unfolding c_string
keys-agree_example =
    keys-agree near far near-far-Agrees refl refl (omega arith) (omega arith) exchange-fits
      Far.cmd_connect 0 0 agreed agreed-Reach refl

-- Two bytes of three, and the packet of them as a read leaves it, with a byte behind it.
abbrev data_packet : Packet
data_packet = record {
  version = 0;
  type = 6;
  data_len_high_byte = 0;
  data_len_low_byte = 2;
  payload = 1 ∷ 2 ∷ [];
}

abbrev in_buffer : Packet
in_buffer = record data_packet { payload = 1 ∷ 2 ∷ 9 ∷ [] }

in_buffer-Receives : Receives in_buffer data_packet
unfolding data_len
in_buffer-Receives = record { version = refl; type = refl; data_len = refl; payload = refl }

agreed-roundtrip_example :
    ((NearPack.pack_data near (1 ∷ 2 ∷ 3 ∷ []) 2 agreed.near).0 ≡ ok data_packet
      → FarPack.unpack_data far 7 in_buffer false agreed.far
        ≡ (ok (1 ∷ 2 ∷ [], sub_ℕ 7 6), agreed.far))
    × ((FarPack.pack_data far (1 ∷ 2 ∷ 3 ∷ []) 2 agreed.far).0 ≡ ok data_packet
        → (NearPack.unpack_reply_data near 7 in_buffer false agreed.near).0
          ≡ ok (1 ∷ 2 ∷ [], sub_ℕ 7 6))
unfolding c_string
agreed-roundtrip_example =
    agreed-roundtrip near far near-far-Agrees refl refl (omega arith) (omega arith) exchange-fits
      Far.cmd_connect 0 0 agreed agreed-Reach refl (1 ∷ 2 ∷ 3 ∷ []) 2 7 in_buffer data_packet false
      (omega arith) (omega arith) in_buffer-Receives

-- Both ends do pack that packet.
packed :
    ((NearPack.pack_data near (1 ∷ 2 ∷ 3 ∷ []) 2 agreed.near).0 ≡ ok data_packet)
    × ((FarPack.pack_data far (1 ∷ 2 ∷ 3 ∷ []) 2 agreed.far).0 ≡ ok data_packet)
unfolding NearPack.pack_data FarPack.pack_data make_packet request_code reply_code
packed = (refl, refl)
