-- ===== src/Tunnel/Agreement/FarKept.antt =====
-- What the handlers of core/lss/session_server.cpp are made of, against `FarOpen`.
use lproxy.Base.{
  ℕ, ◌≡◌, ◌==◌, refl, ap, ◌∙◌, if◌then◌else◌, Bool, true, false, Option, some, none, List, [], ◌∷◌,
  ◌++◌, take, length, All, All-append, ok, throw, fault, Bool-cases, inl, inr,
}
use lproxy.Base.Handler.{update, ◌>>=◌}
use lproxy.Base.Handler.Keeps.{Keeps, parts}
use lproxy.Packet.{Packet, make_packet, reply_type, ReplyType, reply_code}
use lproxy.Session.{Exception}
use lproxy.Local.State as Near
use lproxy.Server.State.{Session, M, Op, Env, Answers, issue, cancel}
use lproxy.Server.Pack.{pack_data, pack_data_with, pack_bad, pack_deny, pack_timeout}
use lproxy.Server.Answer.{socks5_resp_to_local, process_cmd, socks5_request_processing}
use lproxy.Socks5.{Req}
use lproxy.Tunnel.Agreement.{PacketSound, FarSound, FarOpen, greets}

module _ (near : Near.Env) (far : Env) (encryptor : Option (List ℕ)) where
  pub bad-Sound : PacketSound near far encryptor pack_bad
  unfolding pack_bad make_packet reply_type reply_code
  bad-Sound = (λ h. cc, λ h. cc)

  pub deny-Sound : PacketSound near far encryptor pack_deny
  unfolding pack_deny make_packet reply_type reply_code
  deny-Sound = (λ h. cc, λ h. cc)

  pub timeout-Sound : PacketSound near far encryptor pack_timeout
  unfolding pack_timeout make_packet reply_type reply_code
  timeout-Sound = (λ h. cc, λ h. cc)

  pub data-Sound :
      (text : List ℕ)
      → PacketSound near far encryptor (
          make_packet 0
            (reply_code (if far.config.zip_on then ReplyType.zipdata else ReplyType.plain_data))
            (length text)
            text)
  unfolding make_packet reply_type reply_code
  data-Sound text = elim (Bool-cases far.config.zip_on) [
    | inl e ↦ rw e (λ h. cc, λ h. cc)
    | inr e ↦ rw e (λ h. cc, λ h. cc)
  ]

module _ (near : Near.Env) (far : Env) (key : List ℕ) where
  abbrev pub Ok : Session → Type 0
  Ok = FarOpen near far key

  pub issue-Keeps :
      (op : Op) → FarSound near far (some key) op → greets op ≡ false → Keeps Ok (issue op)
  unfolding Keeps
  issue-Keeps op sound e s h = record {
    held = h.held;
    status = h.status;
    sound = All-append (FarSound near far (some key)) s.issued (op ∷ []) h.sound (sound, tt);
    no_hello = All-append (λ op. greets op ≡ false) s.issued (op ∷ []) h.no_hello (e, tt);
  }

  pub members-Keeps :
      (f : Session → Session)
      → ((s : Session) → (f s).status ≡ s.status)
      → ((s : Session) → (f s).aes_encryptor ≡ s.aes_encryptor)
      → ((s : Session) → (f s).issued ≡ s.issued)
      → Keeps {E = Exception} Ok (update f)
  unfolding Keeps
  members-Keeps f st aes iss s h = record {
    held = aes s ∙ h.held;
    status = st s ∙ h.status;
    sound = rw (iss s) h.sound;
    no_hello = rw (iss s) h.no_hello;
  }

  pub trivial : Unit {0}
  trivial = tt

  pub ruleset rules =
      (parts, issue-Keeps, members-Keeps, trivial, refl, bad-Sound, deny-Sound, timeout-Sound)

  pub cancel-Keeps : Keeps Ok cancel
  unfolding cancel
  cancel-Keeps = search rules

  packed-FarOpen :
      (text : List ℕ) (n : ℕ) (f : Packet → M (Unit {0})) (o : Option (List ℕ)) (s : Session)
      → ((p : Packet) → PacketSound near far (some key) p → Keeps Ok (f p))
      → o ≡ some key
      → Ok s
      → Ok ((pack_data_with far o text n >>= f) s).1
  unfolding Keeps pack_data_with
  packed-FarOpen text n f o s k e h =
      rw e (k _ (data-Sound near far (some key) (far.aes_encrypt key (take n text))) s h)

  -- Data is packed with the key, and the session stays as it is.
  pub packed-Keeps :
      (text : List ℕ) (n : ℕ) (f : Packet → M (Unit {0}))
      → ((p : Packet) → PacketSound near far (some key) p → Keeps Ok (f p))
      → Keeps Ok (pack_data far text n >>= f)
  unfolding Keeps pack_data
  packed-Keeps text n f k s h = packed-FarOpen text n f s.aes_encryptor s k h.held h

  pub answer-Keeps : Keeps Ok (socks5_resp_to_local far)
  unfolding socks5_resp_to_local
  answer-Keeps = search (rules, packed-Keeps) depth 14

  process_cmd-Keeps :
      (answers : Answers) (cmd : ℕ) (name : List ℕ) (port : ℕ)
      → Keeps Ok (process_cmd far answers cmd name port)
  unfolding process_cmd
  process_cmd-Keeps answers cmd name port = search (rules, answer-Keeps) depth 14

  pub request-Keeps :
      (answers : Answers) (rq : Req) → Keeps Ok (socks5_request_processing far answers rq)
  unfolding socks5_request_processing
  request-Keeps answers rq = search (rules, process_cmd-Keeps) depth 14
