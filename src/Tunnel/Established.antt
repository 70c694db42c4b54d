-- ===== src/Tunnel/Established.antt =====
-- The handshake from the accepted connections on, run by both ends: resolve_handler, connect_handler,
-- hello_handler, exchange_handler and the reads of core/lss/session_local.cpp and session_server.cpp.
use mathlib.Core.Bool.{true≢false}
use lproxy.Base.{
  Option, ℕ, ◌+◌, ◌≤◌, ◌<◌, ◌%◌, ◌≡◌, refl, sym, ◌∙◌, true, false, some, none, List, [], ◌∷◌, ◌++◌,
  length, ok, arith, contains, c_string, generate, length-append, length-generate, bytes_eq_refl,
}
use lproxy.Packet.{
  Packet, data_len, make_packet, request_type, reply_type, ReplyType, RequestType, reply_code,
  request_code,
}
use lproxy.Packet.Codec.{data_len-make_packet}
use lproxy.Session.{
  assert_status, Status, status_connected, status_hello, status_auth, status_data, max_length,
  length_handshake,
}
use lproxy.Session.Stream.{IsSized}
use lproxy.Tunnel.Joint.Runs.{whole-Receives, far_read-turns, near_read-turns, go_up, go_down}
use lproxy.Local.State as Near
use lproxy.Local.World as NearWorld
use lproxy.Local.Pack as NearPack
use lproxy.Local.Right as NearRight
use lproxy.Server.State as Far
use lproxy.Server.World as FarWorld
use lproxy.Server.Pack as FarPack
use lproxy.Server.Left as FarLeft
use lproxy.Server.Right as FarRight
use lproxy.Tunnel.Agreed.{Agrees}
use lproxy.Tunnel.Handshake.{
  hello-read, exchange-accepted, exchange-verified, sealed, exchange_reply,
}
use lproxy.Tunnel.Joint.{
  near_reads, near_writes, unmark, Joint, still, near_turn, Reach, here, next, accepted,
}

module _ (near : Near.Env) (far : Far.Env) (cmd : Far.Socks5Cmd) (port reply : ℕ)
    (c : NearWorld.Completion) (d : FarWorld.Completion) where
  abbrev pub number : List ℕ
  number = NearPack.generate_number c.rand

  abbrev pub key : List ℕ
  key = generate d.answers.rand 32 (λ r. r % 255)

  abbrev succeeds : NearWorld.Completion
  succeeds = record c { error = false }

  abbrev far_succeeds : FarWorld.Completion
  far_succeeds = record d { error = false }

  -- The sessions on the way. `n` says which status it is, and what is pending.
  abbrev near_at : Status → List ℕ → List ℕ → Near.Op → Near.Session
  near_at status random_str data_key op = record {
    status = status;
    random_str = random_str;
    aes_encryptor = none;
    data_key = data_key;
    issued = op ∷ [];
  }

  abbrev far_at : Status → Option (List ℕ) → Far.Op → Far.Session
  far_at status encryptor op = record (FarWorld.started cmd port reply) {
    status = status;
    aes_encryptor = encryptor;
    issued = op ∷ [];
  }

  abbrev connected : Joint
  connected =
      still near far
        (near_at status_connected [] [] (Near.write_right NearPack.pack_hello Near.hello_handler))
        (far_at status_hello none (Far.read_left length_handshake))

  connects : Reach near far (accepted near far cmd port reply) connected
  unfolding NearWorld.started FarWorld.started NearWorld.complete NearWorld.handler near_reads
      near_writes unmark NearRight.resolved NearRight.right_connected
  connects =
      next
        (next here (
          near_turn _ [] (Near.resolve_right near.config.server_name near.config.server_port) []
            succeeds refl (λ e. absurd (true≢false (sym e))) (λ e. absurd (true≢false (sym e)))))
        (near_turn _ [] (Near.connect_any c.endpoints) [] succeeds refl
          (λ e. absurd (true≢false (sym e))) (λ e. absurd (true≢false (sym e))))

  abbrev greeted : Joint
  greeted =
      still near far (near_at status_hello [] [] (Near.read_right length_handshake))
        (far_at status_hello none (Far.write_left (FarPack.pack_hello far) Far.hello_handler))

  greets : Reach near far (accepted near far cmd port reply) greeted
  unfolding NearWorld.complete NearWorld.handler NearWorld.after_right NearRight.after_hello
      NearPack.pack_hello make_packet FarLeft.on_packet FarLeft.on_hello request_type request_code
      data_len assert_status
  greets =
      go_up near far NearPack.pack_hello connected.near greeted.near connected.far greeted.far
        length_handshake Near.hello_handler succeeds d connects refl refl refl (omega arith) refl
        (far_read-turns near far d NearPack.pack_hello length_handshake connected.far greeted.far
          refl refl refl)

  abbrev keyed : Joint
  keyed = still near far (near_at status_auth number [] (Near.read_right length_handshake)) (
      far_at status_auth (some key)
        (Far.write_left (exchange_reply near far key number) Far.exchange_handler))

  abbrev pub established : Joint
  established =
      still near far
        (near_at status_data number key (Near.read_left max_length Near.left_read_socks5_step1))
        (far_at status_data (some key) (Far.read_left length_handshake))

  module _ (agrees : Agrees near far) (cipher : List ℕ)
      (encrypts : near.rsa_encrypt far.config.rsa_keysize far.config.rsa_publickey_hex
          (near.config.auth_key ++ number)
        ≡ some cipher)
      (key_size : far.config.rsa_keysize < 65536)
      (key_fits : length far.config.rsa_publickey_hex + 2 ≤ length_handshake)
      (cipher_fits : length cipher ≤ length_handshake)
      (auth_size : length near.config.auth_key ≡ 32)
      (auth_text : c_string near.config.auth_key ≡ near.config.auth_key)
      (known : contains far.config.cipher_auth_key_set near.config.auth_key ≡ true) where
    abbrev exchange : Packet
    exchange = make_packet 0 (request_code RequestType.exchange) (length cipher) cipher

    abbrev answered : Joint
    answered =
        still near far
          (near_at status_hello number [] (Near.write_right exchange Near.exchange_handler))
          (far_at status_auth none (Far.read_left length_handshake))

    pack_hello-IsSized : IsSized (FarPack.pack_hello far)
    unfolding FarPack.pack_hello FarPack.gen_hello_data make_packet
    pack_hello-IsSized =
        data_len-make_packet 0 (reply_code ReplyType.hello) (length (FarPack.gen_hello_data far))
          (FarPack.gen_hello_data far)
        ∙ omega (arith, key_fits)

    near_greeted :
        NearRight.on_packet near c.rand
          (reply_type (FarPack.pack_hello far))
          (4 + length (FarPack.pack_hello far).payload)
          (FarPack.pack_hello far)
          (record greeted.near { issued = [] })
        ≡ (ok tt, answered.near)
    unfolding FarPack.pack_hello make_packet NearRight.on_packet NearRight.on_hello
        NearPack.pack_exchange reply_type reply_code assert_status
    near_greeted =
        let read =
          hello-read near far (FarPack.pack_hello far) (whole-Receives (FarPack.pack_hello far))
            key_size (omega (arith, key_fits)) in
        rw (read, encrypts) refl

    answers_hello : Reach near far (accepted near far cmd port reply) answered
    unfolding FarWorld.complete FarWorld.handler FarWorld.after_left FarRight.after_hello
        FarPack.pack_hello FarPack.gen_hello_data make_packet
    answers_hello =
        go_down near far (FarPack.pack_hello far) greeted.near answered.near greeted.far
          answered.far length_handshake Far.hello_handler c far_succeeds greets refl refl
          pack_hello-IsSized (omega (arith, key_fits))
          (near_read-turns near far c (FarPack.pack_hello far) length_handshake greeted.near
            answered.near pack_hello-IsSized refl near_greeted)
          refl

    exchange-IsSized : IsSized exchange
    unfolding make_packet
    exchange-IsSized =
        data_len-make_packet 0 (request_code RequestType.exchange) (length cipher) cipher
        ∙ omega (arith, cipher_fits)

    far_accepts :
        FarLeft.on_packet far d.answers
          (request_type exchange)
          (4 + length exchange.payload)
          exchange
          (record answered.far { issued = [] })
        ≡ (ok tt, keyed.far)
    unfolding make_packet FarLeft.on_packet request_type request_code
    far_accepts =
        exchange-accepted near far agrees number cipher encrypts (omega (arith, cipher_fits))
          auth_size d.answers (record answered.far { issued = [] }) exchange auth_text known refl
          (whole-Receives exchange)

    sends_exchange : Reach near far (accepted near far cmd port reply) keyed
    unfolding NearWorld.complete NearWorld.handler NearWorld.after_right NearRight.after_exchange
        make_packet
    sends_exchange =
        go_up near far exchange answered.near keyed.near answered.far keyed.far length_handshake
          Near.exchange_handler succeeds d answers_hello refl refl exchange-IsSized
          (omega (arith, cipher_fits)) refl
          (far_read-turns near far d exchange length_handshake answered.far keyed.far
            exchange-IsSized refl far_accepts)

    sealed-size : length (sealed near far key number) ≡ 42
    unfolding NearPack.generate_number
    sealed-size = omega (
      arith,
      agrees.down_length near.config.auth_key (key ++ number),
      length-append key number,
      length-generate d.answers.rand 32 (λ r. r % 255),
      length-generate c.rand 10 (λ r. r % 10 + 0x30),
    )

    exchange_reply-IsSized : IsSized (exchange_reply near far key number)
    unfolding make_packet
    exchange_reply-IsSized =
        data_len-make_packet 0 (reply_code ReplyType.exchange) (length (sealed near far key number))
          (sealed near far key number)
        ∙ omega (arith, sealed-size)

    near_verifies :
        NearRight.on_packet near c.rand
          (reply_type (exchange_reply near far key number))
          (4 + length (exchange_reply near far key number).payload)
          (exchange_reply near far key number)
          (record keyed.near { issued = [] })
        ≡ (ok tt, established.near)
    unfolding make_packet NearRight.on_packet reply_type reply_code
    near_verifies =
        let verified =
          exchange-verified near far key number (record keyed.near { issued = [] })
            (exchange_reply near far key number) agrees.down
            (length-generate d.answers.rand 32 (λ r. r % 255)) (omega (arith, sealed-size))
            (whole-Receives (exchange_reply near far key number)) refl in
        rw (bytes_eq_refl number) at verified

    -- From the accepted connections on, the two ends come to `status_data` together, with the same
    -- fresh data key: the local end then reads the greeting of its client, and the server the next
    -- packet. The key of the server and the cipher text of the exchange fit a read of the handshake,
    -- the authentication key has 32 bytes and no NUL and is in the server's set, and the ciphers keep
    -- what `Agrees` says.
    pub handshake-establishes : Reach near far (accepted near far cmd port reply) established
    unfolding FarWorld.complete FarWorld.handler FarWorld.after_left FarRight.after_exchange
        make_packet
    handshake-establishes =
        go_down near far (exchange_reply near far key number) keyed.near established.near keyed.far
          established.far length_handshake Far.exchange_handler c far_succeeds sends_exchange refl
          refl exchange_reply-IsSized (omega (arith, sealed-size))
          (near_read-turns near far c (exchange_reply near far key number) length_handshake
            keyed.near established.near exchange_reply-IsSized refl near_verifies)
          refl
