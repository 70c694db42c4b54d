-- ===== src/Server/Pack.antt =====
-- The packets that the server makes, and how it takes those of the local end apart.
use lproxy.Base.{
  ℕ, ◌+◌, ◌/◌, ◌%◌, Bool, ltb, ◌==◌, if◌then◌else◌, Option, none, some, List, [], ◌∷◌, ◌++◌, length,
  take, drop, ok, throw, fault, c_string, generate,
}
use lproxy.Base.Handler.{ret, lift, update, read, ◌>>=◌, ◌>>◌}
use lproxy.Packet.{Packet, ReplyType, reply_code, make_packet, data_len}
use lproxy.Session.{ℤ, sub_ℕ, Result, other_exception}
use lproxy.Server.State.{M, Env, Answers, write_left, cancel_handler, issue}

abbrev pub empty_reply : ReplyType → Packet
empty_reply t = make_packet 0 (reply_code t) 0 []

unfoldable pub pack_bad : Packet
pack_bad = empty_reply ReplyType.bad

unfoldable pub pack_timeout : Packet
pack_timeout = empty_reply ReplyType.timeout

unfoldable pub pack_deny : Packet
pack_deny = empty_reply ReplyType.deny

-- `async_write(socket_left, p.buffers(), cancel)`.
abbrev pub say_and_cancel : Packet → M (Unit {0})
say_and_cancel p = issue (write_left p cancel_handler)

module _ (env : Env) where
  unfoldable pub gen_hello_data : List ℕ
  gen_hello_data =
      (env.config.rsa_keysize / 256) % 256
      ∷ env.config.rsa_keysize % 256
      ∷ env.config.rsa_publickey_hex

  unfoldable pub pack_hello : Packet
  unfolding gen_hello_data
  pack_hello = make_packet 0 (reply_code ReplyType.hello) (length gen_hello_data) gen_hello_data

  -- The two assertions on sizes of 32 are faults where they fail.
  unfoldable pub pack_exchange : Answers → List ℕ → List ℕ → M Packet
  pack_exchange answers auth_key random_str =
      if length auth_key == 32
      then (do
        let data_key = generate answers.rand 32 (λ r. r % 255)
        update (λ s. record s { aes_encryptor = some data_key })
        let plain = data_key ++ random_str
        let key = c_string auth_key
        cipher ← lift (if length key == 32 then ok (env.aes_encrypt key plain) else fault)
        ret (make_packet 0 (reply_code ReplyType.exchange) (length cipher) cipher))
      else lift fault

  unfoldable pub pack_data_with : Option (List ℕ) → List ℕ → ℕ → M Packet
  pack_data_with none text len = do say_and_cancel pack_deny; ret pack_deny
  pack_data_with (some key) text len =
      let cipher = env.aes_encrypt key (take len text) in
      let type = if env.config.zip_on then ReplyType.zipdata else ReplyType.plain_data in
      ret (make_packet 0 (reply_code type) (length cipher) cipher)

  unfoldable pub pack_data : List ℕ → ℕ → M Packet
  unfolding pack_data_with
  pack_data text len = do encryptor ← read (λ s. s.aes_encryptor); pack_data_with encryptor text len

  -- The authentication key and the random string of the local end.
  unfoldable pub unpack_request_exchange : Packet → Result (List ℕ × List ℕ)
  unpack_request_exchange request =
      elim (env.rsa_decrypt (take (data_len request) request.payload)) [
        | none ↦ throw other_exception
        | some plain ↦ if ltb (length plain) 32 then fault else ok (take 32 plain, drop 32 plain)
      ]

  -- Without an encryptor the call goes on through the null pointer.
  unfoldable pub unpack_data_with : Option (List ℕ) → ℕ → Packet → M (List ℕ × ℤ)
  unpack_data_with none lss_length request = do say_and_cancel pack_deny; lift fault
  unpack_data_with (some key) lss_length request =
      let cipher_len = data_len request in
      ret (env.aes_decrypt key (take cipher_len request.payload), sub_ℕ lss_length (4 + cipher_len))

  -- `is_zip` changes nothing yet.
  unfoldable pub unpack_data : ℕ → Packet → Bool → M (List ℕ × ℤ)
  unfolding unpack_data_with
  unpack_data lss_length request is_zip = do
    encryptor ← read (λ s. s.aes_encryptor)
    unpack_data_with encryptor lss_length request
