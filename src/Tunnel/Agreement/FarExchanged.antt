-- ===== src/Tunnel/Agreement/FarExchanged.antt =====
-- What a packet of the local end brings about in the handshake of core/lss/session_server.cpp.
use mathlib.Core.Bool.{true≢false}
use lproxy.Base.{
  ℕ, ◌%◌, ◌≡◌, ◌==◌, refl, sym, ap, ◌∙◌, Bool, true, false, some, none, List, [], ◌∷◌, ◌++◌, length,
  All-append, All-map, ok, throw, fault, Outcome, Bool-cases, inl, inr, contains, c_string,
  generate, length-generate, append-nil,
}
use lproxy.Base.Handler.{caught}
use lproxy.Base.Handler.Keeps.{Keeps}
use lproxy.Packet.{
  Packet, buffers, make_packet, data_len, request_type, reply_type, reply_code, RequestType,
  request_code,
}
use lproxy.Packet.Codec.{Holds, Receives, Holds-Receives}
use lproxy.Session.{Exception, status_code, assert_status, rectify, lss_pack_integrity_check}
use lproxy.Session.Stream.{whole_packet}
use lproxy.Local.State as Near
use lproxy.Server.State as Far
use lproxy.Server.State.{
  Session, Op, Env, Answers, write_left, cancel_handler, hello_handler, exchange_handler, issue,
  cancel,
}
use lproxy.Server.Pack.{pack_hello, pack_deny, say_and_cancel}
use lproxy.Server.Left.{
  on_hello, on_exchange, on_data, on_packet, on_exception, handle_packet, left_read, check_status,
}
use lproxy.Tunnel.Agreed.{Agrees}
use lproxy.Tunnel.Handshake.{exchange_reply, exchange-accepted, unpack_request_exchange-sent}
use lproxy.Tunnel.Joint.{Brings}
use lproxy.Tunnel.Agreement.{
  Genuine, Sealed, PacketSound, FarSound, FarQuiet, FarSealed, FarPhase, early, sealed, is_quiet,
  ends,
}
use lproxy.Tunnel.Agreement.FarKept.{deny-Sound}
use lproxy.Tunnel.Agreement.FarBegun.{
  cancel-Quiet, say-Quiet, quiet-early, issue-goes_on, on_exception-Phase,
}
use lproxy.Tunnel.Agreement.NearReads.{is_auth}

quiet-ends : (op : Op) → is_quiet op ≡ true → ends op ≡ true
quiet-ends (write_left p exchange_handler) e = refl
quiet-ends (write_left p hello_handler) e = absurd (true≢false (sym e))
quiet-ends (write_left p Far.left_write_handler) e = absurd (true≢false (sym e))
quiet-ends (write_left p cancel_handler) e = refl
quiet-ends _ e = e

module _ (near : Near.Env) (far : Env) (agrees : Agrees near far)
    (auth_size : length near.config.auth_key ≡ 32)
    (auth_text : c_string near.config.auth_key ≡ near.config.auth_key) where
  -- Where a packet leaves the session; an exception leaves it without an operation that goes on.
  abbrev Settles : Outcome Exception (Unit {0}) × Session → Type 0
  Settles r = FarPhase near far r.1 × ((e : Exception) → r.0 ≡ throw e → FarQuiet near far r.1)

  Settles-ok : (s : Session) → FarPhase near far s → Settles (ok tt, s)
  Settles-ok s h = (h, λ e q. cc)

  Settles-throw : (e : Exception) (s : Session) → FarQuiet near far s → Settles (throw e, s)
  Settles-throw e s h = (quiet-early near far s h, λ _ q. h)

  caught-Phase :
      (n : ℕ) (p : Packet) (r : Outcome Exception (Unit {0})) (s : Session)
      → Settles (r, s)
      → FarPhase near far (caught (on_exception far n p) r s).1
  caught-Phase n p (ok a) s h = h.0
  caught-Phase n p (throw e) s h = on_exception-Phase near far n p e s (h.1 e refl)
  caught-Phase n p fault s h = h.0

  pack_hello-Sound : PacketSound near far none (pack_hello far)
  unfolding pack_hello make_packet reply_type reply_code
  pack_hello-Sound = (λ h. refl, λ h. cc)

  on_hello-Settles : (p : Packet) (s : Session) → FarQuiet near far s → Settles (on_hello far p s)
  unfolding on_hello check_status assert_status status_code
  on_hello-Settles p s h = elim (Bool-cases (status_code s.status == 2)) [
    | inr e ↦ rw e (Settles-throw _ s h)
    | inl e ↦ elim (Bool-cases (data_len p == 0)) [
      | inl z ↦
          rw (e, z)
            (Settles-ok _ (
              early (
                issue-goes_on near far (write_left (pack_hello far) hello_handler) s
                  pack_hello-Sound refl h)))
      | inr z ↦ rw (e, z) (Settles-throw _ s h)
    ]
  ]

  -- With a key, what was sound without one is sound.
  keyed-Sound :
      (key : List ℕ) (op : Op) → FarSound near far none op → FarSound near far (some key) op
  keyed-Sound key (write_left p bound) (hello, exchange) = (hello, λ e. let m = exchange e in cc)
  keyed-Sound key _ h = h

  module _ (q p : Packet) (n : ℕ) (error : Bool) (bytes : ℕ) (b : Brings q n error bytes p)
      (genuine : request_type q ≡ RequestType.exchange → Genuine near far q) where
    brought-Holds : Holds p bytes (buffers q ++ [])
    brought-Holds = rw (append-nil (buffers q)) b.held

    brought-Receives : Receives p q
    brought-Receives = Holds-Receives p q bytes [] brought-Holds

    same_type : request_type p ≡ request_type q
    unfolding request_type
    same_type = ap (λ t. request_type (record p { type = t })) brought-Receives.type

    accepted-Sealed :
        (answers : Answers) (s : Session) (number : List ℕ)
        → length number ≡ 10
        → contains far.config.cipher_auth_key_set near.config.auth_key ≡ true
        → FarQuiet near far s
        → let key = generate answers.rand 32 (λ r. r % 255) in
          FarSealed near far key (record s {
            aes_encryptor = some key;
            issued =
                s.issued ++ write_left (exchange_reply near far key number) exchange_handler ∷ [];
          })
    unfolding make_packet reply_type reply_code
    accepted-Sealed answers s number size known h =
        let key = generate answers.rand 32 (λ r. r % 255) in
        let reply : Sealed near far (some key) (exchange_reply near far key number) = record {
          key = key;
          number = number;
          held = refl;
          known = known;
          key_size = length-generate answers.rand 32 (λ r. r % 255);
          number_size = size;
          packet = refl;
        } in
        record {
          held = refl;
          early = h.early;
          sound =
              All-append (FarSound near far (some key)) s.issued _
                (All-map s.issued (keyed-Sound key) h.sound) (((λ e. cc), (λ e. reply)), tt);
          last =
              All-append (λ op. ends op ≡ true) s.issued _ (All-map s.issued quiet-ends h.quiet)
                (refl, tt);
        }

    as_packed :
        (m : Genuine near far q)
        → Receives p (make_packet 0 (request_code RequestType.exchange) (length m.cipher) m.cipher)
    as_packed m = rw m.packet at brought-Receives

    denied :
        (answers : Answers) (s : Session) (m : Genuine near far q)
        → status_code s.status == 3 ≡ true
        → contains far.config.cipher_auth_key_set near.config.auth_key ≡ false
        → on_exchange far answers p s ≡ say_and_cancel pack_deny s
    unfolding on_exchange check_status assert_status status_code
    denied answers s m e k =
        let unpacked =
          unpack_request_exchange-sent near far agrees m.number m.cipher m.encrypts m.fits auth_size
            p (as_packed m) in
        rw (e, unpacked, k) refl

    authenticated-Settles :
        (answers : Answers) (s : Session) (m : Genuine near far q)
        → status_code s.status == 3 ≡ true
        → FarQuiet near far s
        → Settles (on_exchange far answers p s)
    unfolding Keeps
    authenticated-Settles answers s m e h =
        elim (Bool-cases (contains far.config.cipher_auth_key_set near.config.auth_key)) [
          | inl k ↦
              let accepted =
                exchange-accepted near far agrees m.number m.cipher m.encrypts m.fits auth_size
                  answers s p auth_text k (is_auth s.status e) (as_packed m) in
              rw accepted
                (Settles-ok _ (sealed _ (accepted-Sealed answers s m.number m.number_size k h)))
          | inr k ↦ rw (denied answers s m e k) (
              Settles-ok _ (
                quiet-early near far _
                  (say-Quiet near far pack_deny (deny-Sound near far none) s h)))
        ]

    on_exchange-Settles :
        (answers : Answers) (s : Session)
        → Genuine near far q
        → FarQuiet near far s
        → Settles (on_exchange far answers p s)
    unfolding on_exchange check_status assert_status status_code
    on_exchange-Settles answers s m h = elim (Bool-cases (status_code s.status == 3)) [
      | inl e ↦ authenticated-Settles answers s m e h
      | inr e ↦ rw e (Settles-throw _ s h)
    ]

    on_data-Settles :
        (answers : Answers) (is_zip : Bool) (s : Session)
        → FarQuiet near far s
        → Settles (on_data far answers is_zip bytes p s)
    unfolding on_data check_status assert_status status_code
    on_data-Settles answers is_zip s h = rw h.early (Settles-throw _ s h)

    on_packet-Settles :
        (answers : Answers) (t : RequestType) (s : Session)
        → request_type p ≡ t
        → FarQuiet near far s
        → Settles (on_packet far answers t bytes p s)
    unfolding on_packet Keeps
    on_packet-Settles answers RequestType.hello s e h = on_hello-Settles p s h
    on_packet-Settles answers RequestType.exchange s e h =
        on_exchange-Settles answers s (genuine (sym same_type ∙ e)) h
    on_packet-Settles answers RequestType.zipdata s e h = on_data-Settles answers true s h
    on_packet-Settles answers RequestType.plain_data s e h = on_data-Settles answers false s h
    on_packet-Settles answers RequestType.bad s e h =
        Settles-ok _ (quiet-early near far _ (cancel-Quiet near far s h))
    on_packet-Settles answers (RequestType.other c) s e h =
        Settles-ok _ (quiet-early near far _ (cancel-Quiet near far s h))

    -- A read that brings a packet of the local end.
    pub left_read-Phase :
        (answers : Answers) (s : Session)
        → FarQuiet near far s
        → FarPhase near far (left_read far answers error bytes p [] s).1
    unfolding left_read handle_packet rectify lss_pack_integrity_check
    left_read-Phase answers s h =
        rw (b.succeeds, whole_packet p q bytes [] b.sized brought-Holds)
          (caught-Phase bytes p _ _ (on_packet-Settles answers (request_type p) s refl h))
