-- ===== src/Local/World/Kept.antt =====
-- The handlers of the local end against `Sized`, one after the other.
use lproxy.Base.Handler.Keeps.{Keeps, if-Keeps}
use mathlib.Core.Bool.{true≢false}
use lproxy.Base.{
  drop, ◌==◌, ℕ, Bool, true, false, ltb, ltb→le, ◌≡◌, ap, List, [], ◌∷◌, length, take, arith,
  bytes_eq, Bool-cases, inl, inr, Option-cases, length-take, ok, throw, fault,
}
use lproxy.Base.Handler.{update, read, ◌>>=◌}
use lproxy.Packet.{Packet, ReplyType, data_len}
use lproxy.Session.{
  status_connected, status_hello, status_auth, status_code, illegal_data_type, unsupported_version,
  wrong_lss_status, wrong_packet_type, incomplete_data, other_exception, Exception, Status, Result,
}
use lproxy.Socks5.{IdentReq}
use lproxy.Local.State.{Env}
use lproxy.Local.World.Sized.{pieces, cancel-Keeps, leave-Keeps, Sized}
use lproxy.Local.Right.{
  after_hello, after_exchange, after_left_write, resolved, right_connected, check_status, on_hello,
  on_exchange, on_data, verified, on_packet, on_exception, handle_packet, right_read,
}
use lproxy.Local.Left.{
  greeted, socks5_step1_read, socks5_step1_written, after_right_write, left_read,
}
use lproxy.Local.Pack.{
  ensure_encryptor, pack_data, pack_exchange, unpack_reply_data, unpack_reply_exchange,
}

connected-Keeps : Keeps {E = Exception} Sized (update (λ s. record s { status = status_connected }))
unfolding status_code
connected-Keeps = leave-Keeps _ (λ s e. true≢false (ap (λ t. status_code t == 1) e))

hello-Keeps : Keeps {E = Exception} Sized (update (λ s. record s { status = status_hello }))
unfolding status_code
hello-Keeps = leave-Keeps _ (λ s e. true≢false (ap (λ t. status_code t == 2) e))

auth-Keeps : Keeps {E = Exception} Sized (update (λ s. record s { status = status_auth }))
unfolding status_code
auth-Keeps = leave-Keeps _ (λ s e. true≢false (ap (λ t. status_code t == 3) e))

pub after_hello-Keeps : (error : Bool) → Keeps Sized (after_hello error)
unfolding after_hello
after_hello-Keeps error = search (pieces, cancel-Keeps, hello-Keeps) depth 14

pub after_exchange-Keeps : (error : Bool) → Keeps Sized (after_exchange error)
unfolding after_exchange
after_exchange-Keeps error = search (pieces, cancel-Keeps, auth-Keeps) depth 14

pub after_left_write-Keeps : (error : Bool) → Keeps Sized (after_left_write error)
unfolding after_left_write
after_left_write-Keeps error = search (pieces, cancel-Keeps) depth 14

pub resolved-Keeps : (error : Bool) (es : List ℕ) → Keeps Sized (resolved error es)
unfolding resolved
resolved-Keeps error es = search (pieces, cancel-Keeps) depth 14

pub right_connected-Keeps : (error : Bool) (es : List ℕ) → Keeps Sized (right_connected error es)
unfolding right_connected
right_connected-Keeps false es = search (pieces, connected-Keeps) depth 14
right_connected-Keeps true (e ∷ es) = search pieces depth 14
right_connected-Keeps true [] = cancel-Keeps

check_status-Keeps : (wanted : Status) → Keeps Sized (check_status wanted)
unfolding check_status
check_status-Keeps wanted = search pieces depth 14

pub after_right_write-Keeps : (error : Bool) → Keeps Sized (after_right_write error)
unfolding after_right_write
after_right_write-Keeps error = search (pieces, cancel-Keeps) depth 14

greeted-Keeps : (r : Result IdentReq) → Keeps Sized (greeted r)
unfolding greeted
greeted-Keeps (ok ir) = search pieces
greeted-Keeps (throw illegal_data_type) = search pieces
greeted-Keeps (throw unsupported_version) = search pieces
greeted-Keeps (throw (wrong_lss_status wanted current)) = search pieces
greeted-Keeps (throw wrong_packet_type) = search pieces
greeted-Keeps (throw (incomplete_data less)) = search pieces
greeted-Keeps (throw other_exception) = search pieces
greeted-Keeps fault = search pieces

pub step1_read-Keeps :
    (error : Bool) (buffer : List ℕ) → Keeps Sized (socks5_step1_read error buffer)
unfolding socks5_step1_read
step1_read-Keeps error buffer = search (pieces, greeted-Keeps) depth 14

pub step1_written-Keeps : (error : Bool) → Keeps Sized (socks5_step1_written error)
unfolding socks5_step1_written
step1_written-Keeps error = search pieces depth 14

module _ (env : Env) where
  ensure-Keeps : Keeps {E = Exception} Sized (update (ensure_encryptor env))
  unfolding Keeps ensure_encryptor
  ensure-Keeps s h = elim (Option-cases s.aes_encryptor) [
    | inl e ↦ rw (ensure_encryptor, e) (record { by_status = h.by_status })
    | inr (k, e) ↦ rw (ensure_encryptor, e) (record { by_status = h.by_status })
  ]

  pack_data-Keeps : (text : List ℕ) (n : ℕ) → Keeps Sized (pack_data env text n)
  unfolding pack_data
  pack_data-Keeps text n = search (pieces, ensure-Keeps) depth 14

  pub left_read-Keeps :
      (error : Bool) (n : ℕ) (text : List ℕ) → Keeps Sized (left_read env error n text)
  unfolding left_read
  left_read-Keeps error n text = search (pieces, pack_data-Keeps) depth 14

  pack_exchange-Keeps :
      (rand : ℕ → ℕ) (size : ℕ) (key : List ℕ) → Keeps Sized (pack_exchange env rand size key)
  unfolding pack_exchange
  pack_exchange-Keeps rand size key = search pieces depth 14

  on_hello-Keeps : (rand : ℕ → ℕ) (reply : Packet) → Keeps Sized (on_hello env rand reply)
  unfolding on_hello
  on_hello-Keeps rand reply = search (pieces, check_status-Keeps, pack_exchange-Keeps) depth 14

  unpack_reply_data-Keeps :
      (n : ℕ) (reply : Packet) (is_zip : Bool) → Keeps Sized (unpack_reply_data env n reply is_zip)
  unfolding unpack_reply_data
  unpack_reply_data-Keeps n reply is_zip = search (pieces, ensure-Keeps) depth 14

  on_data-Keeps :
      (is_zip : Bool) (n : ℕ) (reply : Packet) → Keeps Sized (on_data env is_zip n reply)
  unfolding on_data
  on_data-Keeps is_zip n reply =
      search (pieces, check_status-Keeps, unpack_reply_data-Keeps) depth 14

  -- The data key is cut to 32 bytes before the random string is compared.
  verify-Keeps :
      (reply : Packet)
      → Keeps Sized (
          unpack_reply_exchange env reply >>= λ reply_random_str.
          read (λ s. s.random_str) >>= λ random_str. verified env reply_random_str random_str)
  unfolding unpack_reply_exchange verified Keeps
  verify-Keeps reply s h =
      let plain = env.aes_decrypt env.config.auth_key (take (data_len reply) reply.payload) in
      elim (Bool-cases (ltb (length plain) 32)) [
        | inl e ↦ rw e h
        | inr e ↦
            let size : length (take 32 plain) ≡ 32 =
              omega (arith, length-take 32 plain, ltb→le (length plain) 32 e) in
            let keyed = record s { data_key = take 32 plain } in
            elim (Bool-cases (bytes_eq (drop 32 plain) s.random_str)) [
              | inl q ↦ rw (e, q) (record { by_status = λ _. size })
              | inr q ↦ rw (e, q) (cancel-Keeps keyed (record { by_status = λ _. size }))
            ]
      ]

  on_exchange-Keeps : (reply : Packet) → Keeps Sized (on_exchange env reply)
  unfolding on_exchange
  on_exchange-Keeps reply = search (pieces, check_status-Keeps, verify-Keeps) depth 14

  on_exception-Keeps :
      (n : ℕ) (reply : Packet) (e : Exception) → Keeps Sized (on_exception env n reply e)
  unfolding on_exception
  on_exception-Keeps n reply (wrong_lss_status a b) = cancel-Keeps
  on_exception-Keeps n reply wrong_packet_type = cancel-Keeps
  on_exception-Keeps n reply (incomplete_data less) = search (pieces, cancel-Keeps) depth 14
  on_exception-Keeps n reply illegal_data_type = cancel-Keeps
  on_exception-Keeps n reply unsupported_version = cancel-Keeps
  on_exception-Keeps n reply other_exception = cancel-Keeps

  on_packet-Keeps :
      (rand : ℕ → ℕ) (t : ReplyType) (n : ℕ) (reply : Packet)
      → Keeps Sized (on_packet env rand t n reply)
  unfolding on_packet
  on_packet-Keeps rand ReplyType.hello n reply = on_hello-Keeps rand reply
  on_packet-Keeps rand ReplyType.exchange n reply = on_exchange-Keeps reply
  on_packet-Keeps rand ReplyType.deny n reply = cancel-Keeps
  on_packet-Keeps rand ReplyType.timeout n reply = cancel-Keeps
  on_packet-Keeps rand ReplyType.zipdata n reply = on_data-Keeps true n reply
  on_packet-Keeps rand ReplyType.plain_data n reply = on_data-Keeps false n reply
  on_packet-Keeps rand ReplyType.bad n reply = cancel-Keeps
  on_packet-Keeps rand (ReplyType.other c) n reply = cancel-Keeps

  handle_packet-Keeps :
      (rand : ℕ → ℕ) (n : ℕ) (reply : Packet) → Keeps Sized (handle_packet env rand n reply)
  unfolding handle_packet
  handle_packet-Keeps rand n reply = search (pieces, on_packet-Keeps, on_exception-Keeps) depth 14

  pub right_read-Keeps :
      (rand : ℕ → ℕ) (error : Bool) (n : ℕ) (reply : Packet) (rest : List ℕ)
      → Keeps Sized (right_read env rand error n reply rest)
  unfolding right_read
  right_read-Keeps rand error n reply rest =
      if-Keeps Sized error _ _ cancel-Keeps (handle_packet-Keeps rand _ _)
