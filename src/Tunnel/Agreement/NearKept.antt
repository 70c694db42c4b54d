-- ===== src/Tunnel/Agreement/NearKept.antt =====
-- The handlers of core/lss/session_local.cpp against `NearOk`.
use mathlib.Core.Bool.{true≢false}
use lproxy.Base.{
  ℕ, ◌≡◌, ◌==◌, refl, ap, sym, ◌∙◌, if◌then◌else◌, Bool, true, false, Option, some, none, List, [],
  ◌∷◌, ◌++◌, All, All-append, ok, throw, fault, Bool-cases, Option-cases, inl, inr,
}
use lproxy.Base.Handler.{update}
use lproxy.Base.Handler.Keeps as Base
use lproxy.Base.Handler.Keeps.{Keeps, parts}
use lproxy.Packet.{make_packet, request_type, RequestType, request_code}
use lproxy.Session.{
  Status, status_code, illegal_data_type, unsupported_version, wrong_lss_status, wrong_packet_type,
  incomplete_data, other_exception, Exception, Result,
}
use lproxy.Socks5.{IdentReq}
use lproxy.Local.State as Near
use lproxy.Local.State.{Session, Op, issue, cancel}
use lproxy.Local.Pack.{ensure_encryptor, pack_data, pack_bad, pack_hello}
use lproxy.Local.Left.{
  greeted, socks5_step1_read, socks5_step1_written, after_right_write, left_read,
}
use lproxy.Local.Right.{
  after_hello, after_exchange, after_left_write, resolved, right_connected, check_status,
}
use lproxy.Server.State as Far
use lproxy.Tunnel.Agreement.{Genuine, NearSound, NearOk, reads_on}

module _ (near : Near.Env) (far : Far.Env) (encryptor : Option (List ℕ)) (key : List ℕ) where
  abbrev pub Ok : Session → Type 0
  Ok = NearOk near far encryptor key

  pub issue-Keeps : (op : Op) → NearSound near far encryptor key op → Keeps Ok (issue op)
  unfolding Keeps
  issue-Keeps op sound s h = record {
    sound = All-append (NearSound near far encryptor key) s.issued (op ∷ []) h.sound (sound, tt);
    data_key = h.data_key;
    agreed = h.agreed;
    own = h.own;
  }

  -- A change of the random string.
  pub members-Keeps :
      (f : Session → Session)
      → ((s : Session) → (f s).status ≡ s.status)
      → ((s : Session) → (f s).data_key ≡ s.data_key)
      → ((s : Session) → (f s).aes_encryptor ≡ s.aes_encryptor)
      → ((s : Session) → (f s).issued ≡ s.issued)
      → Keeps {E = Exception} Ok (update f)
  unfolding Keeps
  members-Keeps f st same aes iss s h = record {
    data_key = same s ∙ h.data_key;
    sound = rw (iss s) h.sound;
    agreed = rw (st s) h.agreed;
    own = rw (aes s) h.own;
  }

  -- A change to another status.
  pub leave-Keeps :
      (status : Status)
      → (status_code status == 4) ≡ false
      → Keeps {E = Exception} Ok (update (λ s. record s { status = status }))
  unfolding Keeps status_code
  leave-Keeps status e s h = record {
    data_key = h.data_key;
    own = h.own;
    sound = h.sound;
    agreed = λ d. absurd (true≢false (rw d at e));
  }

  pub never : false ≡ true → encryptor ≡ some key
  never e = absurd (true≢false (sym e))

  pub trivial : Unit {0}
  trivial = tt

  pub ruleset rules = (parts, issue-Keeps, members-Keeps, leave-Keeps, trivial, refl, never)

  pub cancel-Keeps : Keeps Ok cancel
  unfolding cancel
  cancel-Keeps = search rules

  pub after_hello-Keeps : (error : Bool) → Keeps Ok (after_hello error)
  unfolding after_hello status_code
  after_hello-Keeps error = search (rules, cancel-Keeps) depth 14

  pub after_exchange-Keeps : (error : Bool) → Keeps Ok (after_exchange error)
  unfolding after_exchange status_code
  after_exchange-Keeps error = search (rules, cancel-Keeps) depth 14

  pub after_left_write-Keeps : (error : Bool) → Keeps Ok (after_left_write error)
  unfolding after_left_write
  after_left_write-Keeps error = search (rules, cancel-Keeps) depth 14

  pub resolved-Keeps : (error : Bool) (es : List ℕ) → Keeps Ok (resolved error es)
  unfolding resolved
  resolved-Keeps error es = search (rules, cancel-Keeps) depth 14

  pub after_right_write-Keeps :
      (held : encryptor ≡ some key) → (error : Bool) → Keeps Ok (after_right_write error)
  unfolding after_right_write
  after_right_write-Keeps held error = search (rules, cancel-Keeps) depth 14

  hello-Sound : request_type pack_hello ≡ RequestType.exchange → Genuine near far pack_hello
  unfolding pack_hello make_packet request_type request_code
  hello-Sound e = cc

  hello-NearSound :
      NearSound near far encryptor key (Near.write_right pack_hello Near.hello_handler)
  hello-NearSound = (hello-Sound, never)

  pub bad-Sound : request_type pack_bad ≡ RequestType.exchange → Genuine near far pack_bad
  unfolding pack_bad make_packet request_type request_code
  bad-Sound e = cc

  pub right_connected-Keeps : (error : Bool) (es : List ℕ) → Keeps Ok (right_connected error es)
  unfolding right_connected status_code
  right_connected-Keeps false es = search (rules, hello-NearSound) depth 14
  right_connected-Keeps true (e ∷ es) = search rules depth 14
  right_connected-Keeps true [] = cancel-Keeps

  greeted-Keeps : (held : encryptor ≡ some key) → (r : Result IdentReq) → Keeps Ok (greeted r)
  unfolding greeted reads_on
  greeted-Keeps held (ok ir) = search rules
  greeted-Keeps held (throw illegal_data_type) = search (rules, bad-Sound)
  greeted-Keeps held (throw unsupported_version) = search (rules, bad-Sound)
  greeted-Keeps held (throw (wrong_lss_status wanted current)) = search rules
  greeted-Keeps held (throw wrong_packet_type) = search rules
  greeted-Keeps held (throw (incomplete_data less)) = search rules
  greeted-Keeps held (throw other_exception) = search rules
  greeted-Keeps held fault = search rules

  pub step1_read-Keeps :
      (held : encryptor ≡ some key) (error : Bool) (buffer : List ℕ)
      → Keeps Ok (socks5_step1_read error buffer)
  unfolding socks5_step1_read
  step1_read-Keeps held error buffer = search (rules, bad-Sound, greeted-Keeps) depth 14

  pub step1_written-Keeps :
      (held : encryptor ≡ some key) (error : Bool) → Keeps Ok (socks5_step1_written error)
  unfolding socks5_step1_written
  step1_written-Keeps held error = search (rules, bad-Sound) depth 14

  pub check_status-Keeps : (wanted : Status) → Keeps Ok (check_status wanted)
  unfolding check_status
  check_status-Keeps wanted = search rules depth 14

  pub ensure-Keeps :
      (held : encryptor ≡ some key) → Keeps {E = Exception} Ok (update (ensure_encryptor near))
  unfolding Keeps ensure_encryptor
  ensure-Keeps held s h = elim (Option-cases s.aes_encryptor) [
    | inl e ↦
        rw (ensure_encryptor, e)
          (record {
            data_key = h.data_key;
            sound = h.sound;
            agreed = h.agreed;
            own = λ k q. let d = h.data_key in cc;
          })
    | inr (k, e) ↦ rw (ensure_encryptor, e) h
  ]

  data-Sound :
      (text : List ℕ) (n : ℕ)
      → let p =
          make_packet 0
            (request_code
              (if near.config.zip_on then RequestType.zipdata else RequestType.plain_data))
            n
            text in
        request_type p ≡ RequestType.exchange → Genuine near far p
  unfolding make_packet request_type request_code
  data-Sound text n = elim (Bool-cases near.config.zip_on) [
    | inl e ↦ rw e (λ h. cc)
    | inr e ↦ rw e (λ h. cc)
  ]

  pub left_read-Keeps :
      (held : encryptor ≡ some key) (error : Bool) (n : ℕ) (text : List ℕ)
      → Keeps Ok (left_read near error n text)
  unfolding left_read pack_data Keeps
  left_read-Keeps held true n text s h = issue-Keeps _ (bad-Sound, λ e. cc) s h
  left_read-Keeps held false n text s h =
      issue-Keeps _ (data-Sound _ n, λ e. held) (ensure_encryptor near s) (ensure-Keeps held s h)
