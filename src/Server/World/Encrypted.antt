-- ===== src/Server/World/Encrypted.antt =====
-- A session of the server that has come to `status_data` encrypts: neither `pack_data` nor
-- `unpack_data` meets a null encryptor.
use mathlib.Core.Bool.{true≢false}
use lproxy.Base.{
  sym, ℕ, ◌+◌, ◌≡◌, refl, if◌then◌else◌, Bool, true, Option, some, none, List, ok, take, length,
}
use lproxy.Packet.{Packet, make_packet, ReplyType, reply_code, data_len}
use lproxy.Session.{status_data, sub_ℕ}
use lproxy.Server.State.{Session, Env, Socks5Cmd}
use lproxy.Server.Pack.{pack_data, unpack_data}
use lproxy.Server.World.{started, Reach}
use lproxy.Server.World.Keyed.{Keyed, has_key}
use lproxy.Server.World.Reached.{Reach-Keyed}

pub keyed : (o : Option (List ℕ)) → has_key o ≡ true → (key : List ℕ) × (o ≡ some key)
keyed none h = absurd (true≢false (sym h))
keyed (some key) h = (key, refl)

pub started-Keyed : (cmd : Socks5Cmd) (port reply : ℕ) → Keyed (started cmd port reply)
unfolding started
started-Keyed cmd port reply = record { by_status = λ h. cc; by_exchange = λ h. cc }

-- Whatever the completions of the pending operations bring, and in whatever order they come, an
-- accepted connection that has come to `status_data` has a data key; packing data then leaves the
-- session as it is and gives a packet of the encrypted bytes, and unpacking leaves the session as
-- it is and gives the decrypted bytes of the packet and the count of what is left.
pub status_data-encrypts :
    (env : Env) (cmd : Socks5Cmd) (port reply : ℕ) (s : Session)
    → Reach env (started cmd port reply) s
    → s.status ≡ status_data
    → (key : List ℕ) × ((text : List ℕ) (n : ℕ)
        → let cipher = env.aes_encrypt key (take n text) in
          let type = if env.config.zip_on then ReplyType.zipdata else ReplyType.plain_data in
          pack_data env text n s ≡ (ok (make_packet 0 (reply_code type) (length cipher) cipher), s))
      × ((request : Packet) (n : ℕ) (is_zip : Bool)
          → unpack_data env n request is_zip s ≡ (
            ok (
              env.aes_decrypt key (take (data_len request) request.payload),
              sub_ℕ n (4 + data_len request),
            ),
            s,
          ))
unfolding pack_data unpack_data
status_data-encrypts env cmd port reply s r h =
    let k = Reach-Keyed env r (started-Keyed cmd port reply) in
    let (key, e) = keyed s.aes_encryptor (k.by_status h) in
    (key, λ text n. rw e refl, λ request n is_zip. rw e refl)
