-- ===== src/Local/Refused.antt =====
-- What `right_read_handler` refuses, and what `left_read_socks5_step1` answers to a greeting.
use lproxy.Base.{
  ℕ, ◌+◌, ◌-◌, ◌<◌, ◌≡◌, ◌≢◌, refl, ◌∙◌, false, ltb, Option, some, none, List, [], ◌∷◌, ◌++◌,
  length, throw, arith, All, ◌⊎◌, lt→ltb, ltb→lt, ltb→le, Bool-cases, inl, inr, if◌then◌else◌,
}
use lproxy.Packet.{Packet, ReplyType, reply_type, data_len}
use lproxy.Session.{
  Status, status_hello, status_auth, status_data, wrong_lss_status, trim_incomplete,
}
use lproxy.Session.Framing.{integrity_check-ok, integrity_check-incomplete, integrity_check-short}
use lproxy.Server.Guarded.{status_code-apart}
use lproxy.Socks5.{ident_resp_pack}
use lproxy.Socks5.Ident.{greeting, ident_req-greeting, offers_cases}
use lproxy.Local.State.{
  Session, Env, read_right_rest, write_left, left_write_socks5_step1_handler, issue, cancel,
}
use lproxy.Local.Right.{handle_packet, on_packet, on_exception, on_hello, on_exchange, on_data}
use lproxy.Local.Left.{socks5_step1_read}

-- The status that a type of packet asks for.
abbrev pub required : ReplyType → Option Status
required ReplyType.hello = some status_hello
required ReplyType.exchange = some status_auth
required ReplyType.plain_data = some status_data
required ReplyType.zipdata = some status_data
required ReplyType.deny = none
required ReplyType.timeout = none
required ReplyType.bad = none
required (ReplyType.other c) = none

module _ (env : Env) (rand : ℕ → ℕ) where
  on_packet-wrong_status :
      (t : ReplyType) (n : ℕ) (reply : Packet) (wanted : Status) (s : Session)
      → required t ≡ some wanted
      → s.status ≢ wanted
      → on_packet env rand t n reply s ≡ (throw (wrong_lss_status wanted s.status), s)
  unfolding on_packet on_hello on_exchange on_data
  on_packet-wrong_status ReplyType.hello n reply wanted s h k =
      let e : status_hello ≡ wanted = cc in
      rw (← e, status_code-apart s.status status_hello (λ q. k (q ∙ e))) refl
  on_packet-wrong_status ReplyType.exchange n reply wanted s h k =
      let e : status_auth ≡ wanted = cc in
      rw (← e, status_code-apart s.status status_auth (λ q. k (q ∙ e))) refl
  on_packet-wrong_status ReplyType.plain_data n reply wanted s h k =
      let e : status_data ≡ wanted = cc in
      rw (← e, status_code-apart s.status status_data (λ q. k (q ∙ e))) refl
  on_packet-wrong_status ReplyType.zipdata n reply wanted s h k =
      let e : status_data ≡ wanted = cc in
      rw (← e, status_code-apart s.status status_data (λ q. k (q ∙ e))) refl
  on_packet-wrong_status ReplyType.deny n reply wanted s h k = cc
  on_packet-wrong_status ReplyType.timeout n reply wanted s h k = cc
  on_packet-wrong_status ReplyType.bad n reply wanted s h k = cc
  on_packet-wrong_status (ReplyType.other c) n reply wanted s h k = cc

  -- A packet of the server whose type asks for another status than the current one: where it is
  -- whole, or not even the header is there, the session of the local end cancels, and nothing else of
  -- it changes; else it reads on, for exactly the bytes that the packet lacks.
  pub unexpected-refused :
      (n : ℕ) (reply : Packet) (wanted : Status) (s : Session)
      → required (reply_type reply) ≡ some wanted
      → s.status ≢ wanted
      → handle_packet env rand n reply s ≡ (
          if ltb n (4 + data_len reply)
          then (if ltb n 4
              then cancel s
              else issue (read_right_rest (data_len reply + 4 - n) (trim_incomplete n reply)) s)
          else cancel s)
  unfolding handle_packet
  unexpected-refused n reply wanted s h k = elim (Bool-cases (ltb n (4 + data_len reply))) [
    | inl short ↦ elim (Bool-cases (ltb n 4)) [
      | inl e ↦ rw (integrity_check-short n reply (ltb→lt n 4 e), short, e) refl
      | inr e ↦
          rw
            (
              integrity_check-incomplete n reply (ltb→le n 4 e)
                  (ltb→lt n (4 + data_len reply) short),
              short,
              e,
              on_exception,
              lt→ltb 0 (data_len reply + 4 - n)
                  (omega (arith, ltb→lt n (4 + data_len reply) short)),
            )
            refl
    ]
    | inr whole ↦
        rw
          (
            integrity_check-ok n reply (ltb→le n (4 + data_len reply) whole),
            on_packet-wrong_status (reply_type reply) n reply wanted s h k,
            whole,
          )
          refl
  ]

-- The read of a text from the client is answered with a method.
abbrev pub AnsweredWith : List ℕ → Session → ℕ → Type 0
AnsweredWith text s method =
    socks5_step1_read false text s
    ≡ issue (write_left (5 ∷ method ∷ []) left_write_socks5_step1_handler) s

-- A greeting of RFC 1928, with what follows it at least 3 bytes, is answered with the method 0x00
-- where that is among its methods, and with 0xff where it is not, whatever the rest of the buffer
-- holds.
pub socks5_step1_read-answers :
    (methods rest : List ℕ) (s : Session)
    → 0 < length methods + length rest
    → All (λ m. m ≢ 0x00) methods × AnsweredWith (greeting methods ++ rest) s 0xff
      ⊎ ((before after : List ℕ) × (methods ≡ before ++ 0x00 ∷ after)
          × AnsweredWith (greeting methods ++ rest) s 0x00)
unfolding socks5_step1_read ident_resp_pack
socks5_step1_read-answers methods rest s h = elim (offers_cases methods) [
  | inl (e, others) ↦ inl (others, rw (ident_req-greeting methods rest h, e) refl)
  | inr (e, (before, after, split)) ↦
      inr (before, after, split, rw (ident_req-greeting methods rest h, e) refl)
]
