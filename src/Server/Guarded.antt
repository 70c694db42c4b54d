-- ===== src/Server/Guarded.antt =====
-- What `left_read_handler` refuses: packets that are not whole, that come in the wrong status, or
-- that carry an authentication key outside of the configured set.
use lproxy.Base.{
  ltb→lt, ltb→le, zero, suc, Bool-cases, inl, inr, ◌==◌, if◌then◌else◌, ℕ, ◌+◌, ◌-◌, ◌≤◌, ◌<◌, ◌≡◌,
  ◌≢◌, refl, ap, sym, ◌∙◌, false, ltb, Option, some, none, List, [], ◌∷◌, ◌++◌, length, take,
  contains, ok, throw, arith, le→ltb, lt→ltb,
}
use lproxy.Packet.{Packet, RequestType, request_type, data_len}
use lproxy.Session.{
  status_connected, status_not_connected, Status, status_hello, status_auth, status_data,
  status_code, assert_status, wrong_lss_status, trim_incomplete,
}
use lproxy.Session.Framing.{integrity_check-ok, integrity_check-incomplete, integrity_check-short}
use lproxy.Server.State.{
  Session, Env, Answers, read_left_rest, write_left, cancel_handler, issue, cancel,
}
use lproxy.Server.Pack.{pack_bad, pack_deny, say_and_cancel, unpack_request_exchange}
use lproxy.Server.Left.{on_data, on_hello, handle_packet, on_packet, on_exchange, on_exception}

-- The status that a type of packet asks for.
abbrev pub required : RequestType → Option Status
required RequestType.hello = some status_hello
required RequestType.exchange = some status_auth
required RequestType.plain_data = some status_data
required RequestType.zipdata = some status_data
required RequestType.bad = none
required (RequestType.other c) = none

status_of : ℕ → Status
status_of zero = status_not_connected
status_of (suc zero) = status_connected
status_of (suc (suc zero)) = status_hello
status_of (suc (suc (suc zero))) = status_auth
status_of _ = status_data

status_of-status_code : (s : Status) → status_of (status_code s) ≡ s
unfolding status_of status_code
status_of-status_code status_not_connected = refl
status_of-status_code status_connected = refl
status_of-status_code status_hello = refl
status_of-status_code status_auth = refl
status_of-status_code status_data = refl

pub status_code-apart : (a b : Status) → a ≢ b → (status_code a == status_code b) ≡ false
status_code-apart a b h =
    let apart : status_code a ≢ status_code b =
      λ e. h (sym (status_of-status_code a) ∙ ap status_of e ∙ status_of-status_code b) in
    ground arith

assert_status-wrong :
    (current wanted : Status)
    → current ≢ wanted
    → assert_status current wanted ≡ throw (wrong_lss_status wanted current)
unfolding assert_status status_code
assert_status-wrong current wanted h = rw (status_code-apart current wanted h) refl

module _ (env : Env) (answers : Answers) where
  on_packet-wrong_status :
      (t : RequestType) (n : ℕ) (request : Packet) (wanted : Status) (s : Session)
      → required t ≡ some wanted
      → s.status ≢ wanted
      → on_packet env answers t n request s ≡ (throw (wrong_lss_status wanted s.status), s)
  unfolding on_packet on_hello on_exchange on_data
  on_packet-wrong_status RequestType.hello n request wanted s h k =
      let e : status_hello ≡ wanted = cc in
      rw (← e, status_code-apart s.status status_hello (λ q. k (q ∙ e))) refl
  on_packet-wrong_status RequestType.exchange n request wanted s h k =
      let e : status_auth ≡ wanted = cc in
      rw (← e, status_code-apart s.status status_auth (λ q. k (q ∙ e))) refl
  on_packet-wrong_status RequestType.plain_data n request wanted s h k =
      let e : status_data ≡ wanted = cc in
      rw (← e, status_code-apart s.status status_data (λ q. k (q ∙ e))) refl
  on_packet-wrong_status RequestType.zipdata n request wanted s h k =
      let e : status_data ≡ wanted = cc in
      rw (← e, status_code-apart s.status status_data (λ q. k (q ∙ e))) refl
  on_packet-wrong_status RequestType.bad n request wanted s h k = cc
  on_packet-wrong_status (RequestType.other c) n request wanted s h k = cc

  -- A whole packet that comes in another status than its type asks for starts the cancellations; it
  -- does nothing else to the session.
  pub handle_packet-wrong_status :
      (n : ℕ) (request : Packet) (wanted : Status) (s : Session)
      → 4 + data_len request ≤ n
      → required (request_type request) ≡ some wanted
      → s.status ≢ wanted
      → handle_packet env answers n request s ≡ cancel s
  unfolding handle_packet
  handle_packet-wrong_status n request wanted s whole h k =
      rw
        (
          integrity_check-ok n request whole,
          on_packet-wrong_status (request_type request) n request wanted s h k,
        )
        refl

  -- A packet that is not whole: where not even the header is there, a bad packet is sent before the
  -- session cancels; else the session reads on, for exactly the bytes that the packet lacks.
  pub handle_packet-not_whole :
      (n : ℕ) (request : Packet) (s : Session)
      → n < 4 + data_len request
      → handle_packet env answers n request s ≡ (
          if ltb n 4
          then say_and_cancel pack_bad s
          else issue (read_left_rest (data_len request + 4 - n) (trim_incomplete n request)) s)
  unfolding handle_packet
  handle_packet-not_whole n request s h = elim (Bool-cases (ltb n 4)) [
    | inl e ↦ rw (integrity_check-short n request (ltb→lt n 4 e), e) refl
    | inr e ↦
        rw
          (
            integrity_check-incomplete n request (ltb→le n 4 e) h,
            e,
            on_exception,
            lt→ltb 0 (data_len request + 4 - n) (omega arith),
          )
          refl
  ]

  -- An exchange that comes in `status_auth`, decrypts to at least 32 bytes, and has an authentication
  -- key outside of the configured set, is answered with a deny packet before the session cancels;
  -- nothing else of the session changes.
  pub on_exchange-denied :
      (request : Packet) (plain : List ℕ) (s : Session)
      → s.status ≡ status_auth
      → env.rsa_decrypt (take (data_len request) request.payload) ≡ some plain
      → 32 ≤ length plain
      → contains env.config.cipher_auth_key_set (take 32 plain) ≡ false
      → on_exchange env answers request s
        ≡ (ok tt, record s { issued = s.issued ++ write_left pack_deny cancel_handler ∷ [] })
  unfolding on_exchange unpack_request_exchange pack_deny
  on_exchange-denied request plain s h e long m =
      rw (h, unpack_request_exchange, e, le→ltb (length plain) 32 long, m) refl
