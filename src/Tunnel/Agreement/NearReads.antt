-- ===== src/Tunnel/Agreement/NearReads.antt =====
-- `right_read_handler` of core/lss/session_local.cpp against `NearOk`, for a packet that the server wrote.
use mathlib.Core.Bool.{true≢false}
use mathlib.Core.Path.{subst}
use lproxy.Base.{
  All-map, ℕ, ◌+◌, ◌<◌, ◌%◌, ◌≡◌, ◌==◌, refl, ap, sym, ◌∙◌, Bool, true, false, Option, some, List,
  [], ◌++◌, length, Bool-cases, Option-cases, inl, inr, arith, bytes_eq, length-append,
  length-generate, append-nil,
}
use lproxy.Base.Handler.Keeps.{Keeps, try_catch-Keeps, then-Keeps, lift-Keeps, if-Keeps}
use lproxy.Packet.{
  Packet, make_packet, buffers, data_len, reply_type, ReplyType, RequestType, request_code,
}
use lproxy.Packet.Codec.{Holds, Receives, Holds-Receives}
use lproxy.Session.{
  max_length, Status, status_not_connected, status_connected, status_hello, status_auth,
  status_data, status_code, illegal_data_type, unsupported_version, wrong_lss_status,
  wrong_packet_type, incomplete_data, other_exception, Exception, sub_ℕ, pos, assert_status,
  is_negative, to_size, rectify, lss_pack_integrity_check,
}
use lproxy.Session.Framing.{sub_ℕ-pos}
use lproxy.Session.Stream.{announced}
use lproxy.Local.State as Near
use lproxy.Local.State.{M, Session, issue, cancel}
use lproxy.Local.Pack.{ensure_encryptor, pack_exchange, generate_number, unpack_reply_data}
use lproxy.Local.Right.{
  on_hello, on_exchange, on_data, on_packet, on_exception, handle_packet, right_read,
}
use lproxy.Server.State as Far
use lproxy.Server.Pack as FarPack
use lproxy.Tunnel.Agreed.{Agrees}
use lproxy.Tunnel.Handshake.{hello-read, exchange-verified, sealed}
use lproxy.Tunnel.Joint.{Brings}
use lproxy.Tunnel.Agreement.{NearSound, Genuine, Sealed, PacketSound, NearOk, reads_on}
use lproxy.Tunnel.Agreement.NearKept.{never, Ok, rules, issue-Keeps, cancel-Keeps, ensure-Keeps}

pub is_auth : (status : Status) → status_code status == 3 ≡ true → status ≡ status_auth
unfolding status_code
is_auth status_auth h = refl
is_auth status_not_connected h = absurd (true≢false (sym h))
is_auth status_connected h = absurd (true≢false (sym h))
is_auth status_hello h = absurd (true≢false (sym h))
is_auth status_data h = absurd (true≢false (sym h))

is_data : (status : Status) → status_code status == 4 ≡ true → status ≡ status_data
unfolding status_code
is_data status_data h = refl
is_data status_not_connected h = absurd (true≢false (sym h))
is_data status_connected h = absurd (true≢false (sym h))
is_data status_hello h = absurd (true≢false (sym h))
is_data status_auth h = absurd (true≢false (sym h))

module _ (near : Near.Env) (far : Far.Env) (agrees : Agrees near far)
    (key_size : far.config.rsa_keysize < 65536)
    (key_fits : length far.config.rsa_publickey_hex + 2 < 65536)
    (fits : (number cipher : List ℕ)
      → length number ≡ 10
      → near.rsa_encrypt far.config.rsa_keysize far.config.rsa_publickey_hex
          (near.config.auth_key ++ number)
        ≡ some cipher
      → length cipher < 65536)
    (encryptor : Option (List ℕ)) where
  on_exception-Keeps :
      (key : List ℕ) (n : ℕ) (reply : Packet) (e : Exception)
      → Keeps (Ok near far encryptor key) (on_exception near n reply e)
  unfolding on_exception
  on_exception-Keeps key n reply (wrong_lss_status a b) = cancel-Keeps near far encryptor key
  on_exception-Keeps key n reply wrong_packet_type = cancel-Keeps near far encryptor key
  on_exception-Keeps key n reply (incomplete_data less) = search (rules, cancel-Keeps) depth 14
  on_exception-Keeps key n reply illegal_data_type = cancel-Keeps near far encryptor key
  on_exception-Keeps key n reply unsupported_version = cancel-Keeps near far encryptor key
  on_exception-Keeps key n reply other_exception = cancel-Keeps near far encryptor key

  on_hello-Keeps :
      (key : List ℕ) (rand : ℕ → ℕ) (p : Packet)
      → Receives p (FarPack.pack_hello far)
      → Keeps (Ok near far encryptor key) (on_hello near rand p)
  unfolding Keeps on_hello pack_exchange assert_status status_code
  on_hello-Keeps key rand p r s h =
      let number = generate_number rand in
      let numbered = record s { random_str = number } in
      let ok : NearOk near far encryptor key numbered = record {
        data_key = h.data_key;
        sound = h.sound;
        agreed = h.agreed;
        own = h.own;
      } in
      elim (Bool-cases (status_code s.status == 2)) [
        | inl e ↦
            elim (Option-cases (
              near.rsa_encrypt far.config.rsa_keysize far.config.rsa_publickey_hex
                (near.config.auth_key ++ number))) [
                  | inl n ↦ rw (e, hello-read near far p r key_size key_fits, n) ok
                  | inr (cipher, m) ↦
                      let genuine : Genuine near far (
                          make_packet 0 (request_code RequestType.exchange) (length cipher)
                            cipher) =
                        record {
                          number = number;
                          cipher = cipher;
                          encrypts = m;
                          number_size = length-generate rand 10 (λ x. x % 10 + 0x30);
                          fits =
                              fits number cipher (length-generate rand 10 (λ x. x % 10 + 0x30)) m;
                          packet = refl;
                        } in
                      rw (e, hello-read near far p r key_size key_fits, m)
                        (issue-Keeps near far encryptor key _
                          ((λ _. genuine), never near far encryptor key) numbered ok)
                ]
        | inr e ↦ rw e h
      ]

  -- With the data key that the session has.
  abbrev pub AnyOk : Session → Type 0
  AnyOk s = NearOk near far encryptor s.data_key s

  pub own_key : (key : List ℕ) (s : Session) → NearOk near far encryptor key s → AnyOk s
  own_key key s h = subst (λ k. NearOk near far encryptor k s) (sym h.data_key) h

  any-Keeps :
      {A : Type 0} (m : M A)
      → ((key : List ℕ) → Keeps (Ok near far encryptor key) m)
      → Keeps AnyOk m
  unfolding Keeps
  any-Keeps m k s h = own_key s.data_key (m s).1 (k s.data_key s h)

  -- What is sound with the one data key is sound with that of the server.
  rekeyed :
      (key held : List ℕ) (op : Near.Op)
      → encryptor ≡ some held
      → NearSound near far encryptor key op
      → NearSound near far encryptor held op
  rekeyed key held (Near.write_right p bound) e (genuine, _) = (genuine, λ _. e)
  rekeyed key held (Near.write_left text bound) e (last, _) = (last, e)
  rekeyed key held (Near.read_left n bound) e h = e
  rekeyed key held _ e h = h

  -- The session behind an exchange that it waited for.
  verified-NearOk :
      (p q : Packet) (s : Session)
      → Receives p q
      → Sealed near far encryptor q
      → s.status ≡ status_auth
      → AnyOk s
      → AnyOk (on_exchange near p s).1
  unfolding Keeps cancel
  verified-NearOk p q s r m auth h =
      let size : length (sealed near far m.key m.number) ≡ 42 = omega (
        arith,
        agrees.down_length near.config.auth_key (m.key ++ m.number),
        length-append m.key m.number,
        m.key_size,
        m.number_size,
      ) in
      let verified =
        exchange-verified near far m.key m.number s p agrees.down m.key_size (omega (arith, size))
          (rw m.packet at r) auth in
      let sound = All-map s.issued (λ op. rekeyed s.data_key m.key op m.held) h.sound in
      let keyed : NearOk near far encryptor m.key (record s { data_key = m.key }) = record {
        data_key = refl;
        sound = sound;
        agreed = λ d. (m.held, m.known);
        own = h.own;
      } in
      let ready : NearOk near far encryptor m.key
          (record s { data_key = m.key; status = status_data }) =
        record { data_key = refl; sound = sound; agreed = λ d. (m.held, m.known); own = h.own } in
      elim (Bool-cases (bytes_eq m.number s.random_str)) [
        | inl e ↦
            rw (verified, e)
              (issue-Keeps near far encryptor m.key
                (Near.read_left max_length Near.left_read_socks5_step1) m.held
                (record s { data_key = m.key; status = status_data }) ready)
        | inr e ↦
            rw (verified, e)
              (cancel-Keeps near far encryptor m.key (record s { data_key = m.key }) keyed)
      ]

  on_exchange-Keeps :
      (p q : Packet) → Receives p q → Sealed near far encryptor q → Keeps AnyOk (on_exchange near p)
  unfolding Keeps on_exchange assert_status status_code
  on_exchange-Keeps p q r m s h = elim (Bool-cases (status_code s.status == 3)) [
    | inl e ↦ verified-NearOk p q s r m (is_auth s.status e) h
    | inr e ↦ rw e h
  ]

  -- A packet that was read as a whole leaves nothing behind it.
  on_data-Keeps :
      (key : List ℕ) (is_zip : Bool) (n : ℕ) (p : Packet)
      → sub_ℕ n (4 + data_len p) ≡ pos 0
      → Keeps (Ok near far encryptor key) (on_data near is_zip n p)
  unfolding Keeps on_data assert_status status_code unpack_reply_data is_negative to_size reads_on
  on_data-Keeps key is_zip n p e s h = elim (Bool-cases (status_code s.status == 4)) [
    | inl d ↦
        let held = (h.agreed (is_data s.status d)).0 in
        rw (d, e)
          (issue-Keeps near far encryptor key _ (refl, held) (ensure_encryptor near s)
            (ensure-Keeps near far encryptor key held s h))
    | inr d ↦ rw d h
  ]

  module _ (q p : Packet) (n : ℕ) (error : Bool) (bytes : ℕ) (b : Brings q n error bytes p)
      (sound : PacketSound near far encryptor q) where
    brought-Holds : Holds p bytes (buffers q ++ [])
    brought-Holds = rw (append-nil (buffers q)) b.held

    brought-Receives : Receives p q
    brought-Receives = Holds-Receives p q bytes [] brought-Holds

    nothing_left : sub_ℕ bytes (4 + data_len p) ≡ pos 0
    nothing_left =
        sub_ℕ-pos bytes (4 + data_len p) 0
          (omega (arith, b.size, announced p q bytes [] b.sized brought-Holds))

    same_type : reply_type p ≡ reply_type q
    unfolding reply_type
    same_type = ap (λ t. reply_type (record p { type = t })) brought-Receives.type

    on_packet-Keeps :
        (rand : ℕ → ℕ) (t : ReplyType)
        → reply_type p ≡ t
        → Keeps AnyOk (on_packet near rand t bytes p)
    unfolding on_packet
    on_packet-Keeps rand ReplyType.hello e =
        any-Keeps _
          (λ key. on_hello-Keeps key rand p (rw (sound.0 (sym same_type ∙ e)) at brought-Receives))
    on_packet-Keeps rand ReplyType.exchange e =
        on_exchange-Keeps p q brought-Receives (sound.1 (sym same_type ∙ e))
    on_packet-Keeps rand ReplyType.deny e = any-Keeps _ (cancel-Keeps near far encryptor)
    on_packet-Keeps rand ReplyType.timeout e = any-Keeps _ (cancel-Keeps near far encryptor)
    on_packet-Keeps rand ReplyType.zipdata e =
        any-Keeps _ (λ key. on_data-Keeps key true bytes p nothing_left)
    on_packet-Keeps rand ReplyType.plain_data e =
        any-Keeps _ (λ key. on_data-Keeps key false bytes p nothing_left)
    on_packet-Keeps rand ReplyType.bad e = any-Keeps _ (cancel-Keeps near far encryptor)
    on_packet-Keeps rand (ReplyType.other c) e = any-Keeps _ (cancel-Keeps near far encryptor)

    -- A read that brings a packet of the server.
    pub right_read-Keeps : (rand : ℕ → ℕ) → Keeps AnyOk (right_read near rand error bytes p [])
    unfolding right_read rectify handle_packet
    right_read-Keeps rand = if-Keeps _ error _ _ (any-Keeps _ (cancel-Keeps near far encryptor)) (
        try_catch-Keeps _ _ _
          (then-Keeps _ _ _ (lift-Keeps _ (lss_pack_integrity_check bytes p))
            (on_packet-Keeps rand (reply_type p) refl))
          (λ e. any-Keeps _ (λ key. on_exception-Keeps key bytes p e)))
