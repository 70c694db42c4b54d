-- ===== src/Local/Pack.antt =====
-- The packets that the local end makes, and how it takes those of the server apart. A packet that
-- passed the integrity check has at least `data_len` bytes of data.
use lproxy.Base.{
  ℕ, ◌+◌, ◌*◌, ◌%◌, ◌-◌, ltb, if◌then◌else◌, Bool, none, some, List, [], ◌++◌, length, take, drop,
  get_or, ◌||◌, generate, ok, throw, fault,
}
use lproxy.Base.Handler.{ret, lift, update, read, ◌>>=◌, ◌>>◌}
use lproxy.Packet.{Packet, RequestType, request_code, make_packet, data_len}
use lproxy.Session.{ℤ, sub_ℕ, Result, other_exception}
use lproxy.Local.State.{Session, M, Env}

unfoldable pub pack_hello : Packet
pack_hello = make_packet 0 (request_code RequestType.hello) 0 []

unfoldable pub pack_bad : Packet
pack_bad = make_packet 0 (request_code RequestType.bad) 0 []

-- `random_string::generate_number()`: ten decimal digits.
unfoldable pub generate_number : (ℕ → ℕ) → List ℕ
generate_number rand = generate rand 10 (λ r. r % 10 + 0x30)

-- The size and the bytes of the server's public key.
unfoldable pub unpack_reply_hello : Packet → Result (ℕ × List ℕ)
unpack_reply_hello reply =
    if ltb (data_len reply) 2 || ltb (length reply.payload) (data_len reply)
    then fault
    else ok (
      (get_or reply.payload 0 0 * 256) % 65536 + get_or reply.payload 1 0,
      take (data_len reply - 2) (drop 2 reply.payload),
    )

module _ (env : Env) where
  unfoldable pub pack_exchange : (ℕ → ℕ) → ℕ → List ℕ → M Packet
  unfolding generate_number
  pack_exchange rand keysize public_key = do
    let number = generate_number rand
    update (λ s. record s { random_str = number })
    cipher ← lift (elim (env.rsa_encrypt keysize public_key (env.config.auth_key ++ number)) [
      | none ↦ throw other_exception
      | some cipher ↦ ok cipher
    ])
    ret (make_packet 0 (request_code RequestType.exchange) (length cipher) cipher)

  -- The encryptor, which is made of the data key when it is first used.
  unfoldable pub ensure_encryptor : Session → Session
  ensure_encryptor s = elim s.aes_encryptor [
    | none ↦ record s { aes_encryptor = some s.data_key }
    | some key ↦ s
  ]

  -- The key of the encryptor.
  unfoldable pub encryptor_key : Session → List ℕ
  encryptor_key s = elim s.aes_encryptor [ none ↦ s.data_key | some key ↦ key ]

  -- The length field is that of the plain text.
  unfoldable pub pack_data : List ℕ → ℕ → M Packet
  unfolding ensure_encryptor encryptor_key
  pack_data data_left data_len_ = do
    update ensure_encryptor
    key ← read encryptor_key
    let cipher = env.aes_encrypt key (take data_len_ data_left)
    let type = if env.config.zip_on then RequestType.zipdata else RequestType.plain_data
    ret (make_packet 0 (request_code type) data_len_ cipher)

  -- The random string that the server sends back; the data key is set.
  unfoldable pub unpack_reply_exchange : Packet → M (List ℕ)
  unpack_reply_exchange reply =
      let plain = env.aes_decrypt env.config.auth_key (take (data_len reply) reply.payload) in
      if ltb (length plain) 32
      then lift fault
      else (do update (λ s. record s { data_key = take 32 plain }); ret (drop 32 plain))

  -- `is_zip` changes nothing yet.
  unfoldable pub unpack_reply_data : ℕ → Packet → Bool → M (List ℕ × ℤ)
  unfolding ensure_encryptor encryptor_key
  unpack_reply_data lss_length reply is_zip = do
    update ensure_encryptor
    key ← read encryptor_key
    ret (
      env.aes_decrypt key (take (data_len reply) reply.payload),
      sub_ℕ lss_length (4 + data_len reply),
    )
