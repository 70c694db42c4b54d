-- ===== src/Tunnel/Handshake.antt =====
-- The handshake: hello and exchange, from `on_hello` and `on_exchange` of one end to those of the
-- other.
use lproxy.Base.{
  Bool-cases, inl, inr, if◌then◌else◌, le→ltb, length-take, ℕ, suc, ◌+◌, ◌-◌, ◌≤◌, ◌<◌, ◌%◌, ◌≡◌,
  refl, ap, sym, ◌∙◌, true, some, List, [], ◌∷◌, ◌++◌, length, take, drop, get_or, ok, arith,
  bytes_eq, contains, c_string, generate, length-append, take-length-append, drop-length-append,
}
use lproxy.Packet.{Packet, data_len, make_packet, ReplyType, RequestType, reply_code, request_code}
use lproxy.Packet.Codec.{Receives, data_len-make_packet}
use lproxy.Session.{status_auth, status_data, max_length}
use lproxy.Local.State as Near
use lproxy.Server.State as Far
use lproxy.Local.Pack as NearPack
use lproxy.Server.Pack as FarPack
use lproxy.Local.Right as NearRight
use lproxy.Server.Left as FarLeft
use lproxy.Tunnel.Agreed.{Agrees}

-- A cipher text as it is received.
pub received :
    (p : Packet) (type : ℕ) (cipher : List ℕ)
    → Receives p (make_packet 0 type (length cipher) cipher)
    → length cipher < 65536
    → take (data_len p) p.payload ≡ cipher
unfolding make_packet
received p type cipher r h =
    let len : data_len p ≡ length cipher =
      r.data_len ∙ data_len-make_packet 0 type (length cipher) cipher ∙ omega arith in
    ap (λ k. take k p.payload) len ∙ r.payload

pub take-front : (n : ℕ) (xs ys : List ℕ) → length xs ≡ n → take n (xs ++ ys) ≡ xs
take-front n xs ys e = ap (λ k. take k (xs ++ ys)) (sym e) ∙ take-length-append xs ys

drop-front : (n : ℕ) (xs ys : List ℕ) → length xs ≡ n → drop n (xs ++ ys) ≡ ys
drop-front n xs ys e = ap (λ k. drop k (xs ++ ys)) (sym e) ∙ drop-length-append xs ys

two_bytes :
    (buf key : List ℕ) (high low : ℕ)
    → take (suc (suc (length key))) buf ≡ high ∷ low ∷ key
    → (get_or buf 0 0 ≡ high)
      × (get_or buf 1 0 ≡ low)
      × (take (length key) (drop 2 buf) ≡ key)
      × (suc (suc (length key)) ≤ length buf)
two_bytes [] key high low e = absurd (omega (arith, ap length e))
two_bytes (x ∷ []) key high low e = absurd (omega (arith, ap length e))
two_bytes (x ∷ y ∷ buf) key high low e =
    let rest : take (length key) buf ≡ key = cc in
    (cc, cc, rest, omega (arith, ap length rest, length-take (length key) buf))

module _ (near : Near.Env) (far : Far.Env) where
  -- The data key and the random string, encrypted under the authentication key, and the packet of it.
  abbrev pub sealed : List ℕ → List ℕ → List ℕ
  sealed key number = far.aes_encrypt near.config.auth_key (key ++ number)

  abbrev pub exchange_reply : List ℕ → List ℕ → Packet
  exchange_reply key number =
      make_packet 0 (reply_code ReplyType.exchange) (length (sealed key number)) (sealed key number)

  -- The local end reads the size and the bytes of the server's public key out of the hello, where
  -- both fit in their fields.
  pub hello-read :
      (p : Packet)
      → Receives p (FarPack.pack_hello far)
      → far.config.rsa_keysize < 65536
      → length far.config.rsa_publickey_hex + 2 < 65536
      → NearPack.unpack_reply_hello p ≡ ok (far.config.rsa_keysize, far.config.rsa_publickey_hex)
  unfolding NearPack.unpack_reply_hello FarPack.pack_hello FarPack.gen_hello_data make_packet
  hello-read p r k b =
      let n = suc (suc (length far.config.rsa_publickey_hex)) in
      let len : data_len p ≡ n =
        r.data_len
        ∙ data_len-make_packet 0 (reply_code ReplyType.hello) (length (FarPack.gen_hello_data far))
            (FarPack.gen_hello_data far)
        ∙ omega arith in
      let (high, low, rest, long) =
        two_bytes p.payload far.config.rsa_publickey_hex _ _ r.payload in
      let back : n - 2 ≡ length far.config.rsa_publickey_hex = omega arith in
      rw (len, le→ltb n 2 (omega arith), le→ltb (length p.payload) n long, high, low, back, rest)
        (ap (λ k. ok (k, far.config.rsa_publickey_hex)) (omega arith))

  module _ (agrees : Agrees near far) (number cipher : List ℕ)
      (e : near.rsa_encrypt far.config.rsa_keysize far.config.rsa_publickey_hex
          (near.config.auth_key ++ number)
        ≡ some cipher)
      (fits : length cipher < 65536) (k : length near.config.auth_key ≡ 32) where
    pub unpack_request_exchange-sent :
        (p : Packet)
        → Receives p (make_packet 0 (request_code RequestType.exchange) (length cipher) cipher)
        → FarPack.unpack_request_exchange far p ≡ ok (near.config.auth_key, number)
    unfolding FarPack.unpack_request_exchange
    unpack_request_exchange-sent p r =
        rw
          (
            FarPack.unpack_request_exchange,
            received p _ cipher r fits,
            agrees.exchange _ _ _ e,
            le→ltb _ 32 long,
            take-front 32 near.config.auth_key number k,
            drop-front 32 near.config.auth_key number k,
          )
          refl
      where
        long : 32 ≤ length (near.config.auth_key ++ number)
        long = omega (arith, length-append near.config.auth_key number)

    -- The exchange request holds the authentication key of the local end and a number, encrypted for
    -- the server's public key. In `status_auth` the server accepts it where the key is in the
    -- configured set: it stores a data key of 32 random bytes, and answers with that key and the
    -- number. The authentication key has 32 bytes and no NUL, the cipher text fits a packet, and the
    -- ciphers keep what `Agrees` says.
    pub exchange-accepted :
        (answers : Far.Answers) (s : Far.Session) (p : Packet)
        → c_string near.config.auth_key ≡ near.config.auth_key
        → contains far.config.cipher_auth_key_set near.config.auth_key ≡ true
        → s.status ≡ status_auth
        → Receives p (make_packet 0 (request_code RequestType.exchange) (length cipher) cipher)
        → let key = generate answers.rand 32 (λ r. r % 255) in
          FarLeft.on_exchange far answers p s ≡ (
            ok tt,
            record s {
              aes_encryptor = some key;
              issued =
                  s.issued ++ Far.write_left (exchange_reply key number) Far.exchange_handler ∷ [];
            },
          )
    unfolding FarLeft.on_exchange FarPack.pack_exchange
    exchange-accepted answers s p c m hs r =
        rw (hs, unpack_request_exchange-sent p r, m, k, c, k) refl

  -- An exchange reply is read in `status_auth`: the data key that the server sent is stored, and the
  -- session goes on to `status_data` and reads from the client if the random string is its own, and
  -- else cancels. The data key has 32 bytes, the reply fits a packet, and AES decryption undoes the
  -- server's encryption.
  pub exchange-verified :
      (key number : List ℕ) (l : Near.Session) (q : Packet)
      → ((key text : List ℕ) → near.aes_decrypt key (far.aes_encrypt key text) ≡ text)
      → length key ≡ 32
      → length (sealed key number) < 65536
      → Receives q (exchange_reply key number)
      → l.status ≡ status_auth
      → NearRight.on_exchange near q l ≡ (
          if bytes_eq number l.random_str
          then (
            ok tt,
            record l {
              data_key = key;
              status = status_data;
              issued = l.issued ++ Near.read_left max_length Near.left_read_socks5_step1 ∷ [];
            },
          )
          else (Near.cancel (record l { data_key = key })))
  unfolding NearRight.on_exchange NearPack.unpack_reply_exchange NearRight.verified
  exchange-verified key number l q a k b r hl =
      rw
        (
          hl,
          NearPack.unpack_reply_exchange,
          received q _ _ r b,
          a near.config.auth_key (key ++ number),
          le→ltb (length (key ++ number)) 32 (omega (arith, length-append key number)),
          take-front 32 key number k,
          drop-front 32 key number k,
        )
        (elim (Bool-cases (bytes_eq number l.random_str)) [ inl e ↦ rw e refl | inr e ↦ rw e refl ])
