-- ===== src/Tunnel/Agreement/Reached.antt =====
-- The two ends of a connection in all their steps: core/lss/session_local.cpp and session_server.cpp.
use mathlib.Core.Bool.{true≢false}
use lproxy.Base.{
  Option, [], All-map, All-append, Option-cases, ap, ℕ, ◌+◌, ◌<◌, ◌≡◌, refl, sym, ◌∙◌, true, some,
  List, ◌∷◌, ◌++◌, length, All, inl, inr, contains, c_string,
}
use lproxy.Base.Handler.Keeps.{Keeps}
use lproxy.Packet.{Packet, RequestType, request_type}
use lproxy.Session.{status_data, status_code}
use lproxy.Local.State as Near
use lproxy.Local.Pack.{encryptor_key}
use lproxy.Local.World as NearWorld
use lproxy.Server.State as Far
use lproxy.Server.World as FarWorld
use lproxy.Tunnel.Agreed.{Agrees}
use lproxy.Tunnel.Joint.{
  Joint, Brings, Step, near_turn, far_turn, near_sends, far_sends, near_receives, far_receives,
  Reach, here, next, accepted, far_reads,
}
use lproxy.Tunnel.Agreement.{
  Genuine, PacketSound, NearSound, FarSound, NearOk, FarPhase, early, sealed, opened,
}
use lproxy.Tunnel.Agreement.NearTurns.{All-without, near_turn-NearOk, without-NearOk}
use lproxy.Tunnel.Agreement.NearReads.{right_read-Keeps, own_key}
use lproxy.Tunnel.Agreement.FarTurns.{complete-FarOpen}
use lproxy.Tunnel.Agreement.FarExchanged.{left_read-Phase}
use lproxy.Tunnel.Agreement.FarPhases.{
  Later, from_early, complete-Later, without-Early, without-Sealed, reads,
}

module _ (near : Near.Env) (far : Far.Env) where
  abbrev pub UpSound : Packet → Type 0
  UpSound q = request_type q ≡ RequestType.exchange → Genuine near far q

  pub record Both (j : Joint) : Type 0 where
    pub key : List ℕ
    pub near_ok : NearOk near far j.far.aes_encryptor key j.near
    pub phase : FarPhase near far j.far
    pub going_up : All UpSound j.up
    pub going_down : All (PacketSound near far j.far.aes_encryptor) j.down

  -- The local end while the server goes on.
  Later-NearSound :
      (e e' : Option (List ℕ)) (key : List ℕ) (op : Near.Op)
      → ((k : List ℕ) → e ≡ some k → e' ≡ some k)
      → NearSound near far e key op
      → NearSound near far e' key op
  Later-NearSound e e' key (Near.write_right p bound) keeps (genuine, held) =
      (genuine, λ f. keeps key (held f))
  Later-NearSound e e' key (Near.write_left text bound) keeps (last, held) = (last, keeps key held)
  Later-NearSound e e' key (Near.read_left n bound) keeps held = keeps key held
  Later-NearSound e e' key _ keeps h = h

  Later-NearOk :
      (l : Near.Session) (key : List ℕ) (s t : Far.Session)
      → Later near far s t
      → NearOk near far s.aes_encryptor key l
      → NearOk near far t.aes_encryptor key l
  Later-NearOk l key s t later h = record {
    data_key = h.data_key;
    sound =
        All-map l.issued (λ op. Later-NearSound s.aes_encryptor t.aes_encryptor key op later.keeps)
          h.sound;
    agreed = λ e. let (held, known) = h.agreed e in (later.keeps key held, known);
    own = λ k e. later.keeps k (h.own k e);
  }

  -- A packet on its way to the local end while the server goes on.
  Later-PacketSound :
      (e e' : Option (List ℕ)) (q : Packet)
      → ((k : List ℕ) → e ≡ some k → e' ≡ some k)
      → PacketSound near far e q
      → PacketSound near far e' q
  Later-PacketSound e e' q keeps (hello, exchange) = (
    hello,
    λ t.
        let m = exchange t in
        record {
          key = m.key;
          number = m.number;
          held = keeps m.key m.held;
          known = m.known;
          key_size = m.key_size;
          number_size = m.number_size;
          packet = m.packet;
        },
  )

  Later-down :
      (qs : List Packet) (s t : Far.Session)
      → Later near far s t
      → All (PacketSound near far s.aes_encryptor) qs
      → All (PacketSound near far t.aes_encryptor) qs
  Later-down qs s t later =
      All-map qs (λ q. Later-PacketSound s.aes_encryptor t.aes_encryptor q later.keeps)

  -- What is pending at the server is sound.
  phase-Sound :
      (s : Far.Session) → FarPhase near far s → All (FarSound near far s.aes_encryptor) s.issued
  phase-Sound s (early h) = rw h.no_key h.sound
  phase-Sound s (sealed key h) = rw h.held h.sound
  phase-Sound s (opened key h) = rw h.held h.sound

  reads-far_reads : (op : Far.Op) → reads op ≡ true → far_reads op ≡ true
  unfolding far_reads
  reads-far_reads (Far.read_left n) e = refl
  reads-far_reads (Far.read_left_rest n packet) e = refl
  reads-far_reads _ e = absurd (true≢false (sym e))

  module _ (agrees : Agrees near far) (auth_size : length near.config.auth_key ≡ 32)
      (auth_text : c_string near.config.auth_key ≡ near.config.auth_key)
      (key_size : far.config.rsa_keysize < 65536)
      (key_fits : length far.config.rsa_publickey_hex + 2 < 65536)
      (fits : (number cipher : List ℕ)
        → length number ≡ 10
        → near.rsa_encrypt far.config.rsa_keysize far.config.rsa_publickey_hex
            (near.config.auth_key ++ number)
          ≡ some cipher
        → length cipher < 65536) where
    -- A read of the server that brings a packet of the local end.
    read-Later :
        (s : Far.Session) (before rest : List Far.Op) (n : ℕ) (d : FarWorld.Completion) (q : Packet)
        → s.issued ≡ before ++ Far.read_left n ∷ rest
        → Brings q n d.error d.bytes d.packet
        → UpSound q
        → FarPhase near far s
        → Later near far s (FarWorld.complete far s before (Far.read_left n) rest d).1
    unfolding FarWorld.complete FarWorld.handler
    read-Later s before rest n d q e b genuine (early h) =
        elim (without-Early near far s before (Far.read_left n) rest e h) [
          | inl (quiet, _) ↦ absurd (true≢false (sym quiet))
          | inr (_, others) ↦ from_early near far s _ h.no_key (
              left_read-Phase near far agrees auth_size auth_text q d.packet n d.error d.bytes b
                genuine d.answers (record s { issued = before ++ rest }) others)
        ]
    read-Later s before rest n d q e b genuine (sealed key h) =
        let (end, _) = without-Sealed near far key s before (Far.read_left n) rest e h in
        absurd (true≢false (sym end))
    read-Later s before rest n d q e b genuine (opened key h) =
        let h' = complete-FarOpen near far key s before (Far.read_left n) rest d e h in
        record { phase = opened key h'; keeps = λ x k. h'.held ∙ sym h.held ∙ k }

    Step-Both : {j k : Joint} → Step near far j k → Both j → Both k
    unfolding NearWorld.complete NearWorld.handler Keeps
    Step-Both (near_turn j before op rest c e alone sent) h = record {
      key = h.key;
      near_ok =
          near_turn-NearOk near far j.far.aes_encryptor h.key j.near before op rest c e alone
            h.near_ok;
      phase = h.phase;
      going_up = h.going_up;
      going_down = h.going_down;
    }
    Step-Both (far_turn j before op rest d e alone sent) h =
        let later =
          complete-Later near far j.far before op rest d e (λ r. alone (reads-far_reads op r))
            h.phase in
        record {
          key = h.key;
          near_ok = Later-NearOk j.near h.key j.far _ later h.near_ok;
          phase = later.phase;
          going_up = h.going_up;
          going_down = Later-down j.down j.far _ later h.going_down;
        }
    Step-Both (near_sends j q before rest bound i k) h =
        let (sound, _) =
          without-NearOk near far j.far.aes_encryptor h.key j.near before (Near.write_right q bound)
            rest i h.near_ok in
        record {
          key = h.key;
          near_ok = h.near_ok;
          phase = h.phase;
          going_up = All-append UpSound j.up (q ∷ []) h.going_up (sound.0, tt);
          going_down = h.going_down;
        }
    Step-Both (far_sends j q before rest bound i k) h =
        let Sound = PacketSound near far j.far.aes_encryptor in
        let (sound, _) =
          All-without (FarSound near far j.far.aes_encryptor) before rest (Far.write_left q bound)
            (rw i at (phase-Sound j.far h.phase)) in
        record {
          key = h.key;
          near_ok = h.near_ok;
          phase = h.phase;
          going_up = h.going_up;
          going_down = All-append Sound j.down (q ∷ []) h.going_down (sound, tt);
        }
    Step-Both (near_receives j q others n before rest c i d b) h =
        let (sound, going) = rw d at h.going_down in
        let (_, left) =
          without-NearOk near far j.far.aes_encryptor h.key j.near before (Near.read_right n) rest i
            h.near_ok in
        let l = record j.near { issued = before ++ rest } in
        record {
          key = _;
          near_ok =
              right_read-Keeps near far agrees key_size key_fits fits j.far.aes_encryptor q c.packet
                n c.error c.bytes b sound c.rand l
                (own_key near far agrees key_size key_fits fits j.far.aes_encryptor h.key l left);
          phase = h.phase;
          going_up = h.going_up;
          going_down = going;
        }
    Step-Both (far_receives j q others n before rest d i u b) h =
        let (genuine, going) = rw u at h.going_up in
        let later = read-Later j.far before rest n d q i b genuine h.phase in
        record {
          key = h.key;
          near_ok = Later-NearOk j.near h.key j.far _ later h.near_ok;
          phase = later.phase;
          going_up = going;
          going_down = Later-down j.down j.far _ later h.going_down;
        }

    accepted-Both : (cmd : Far.Socks5Cmd) (port reply : ℕ) → Both (accepted near far cmd port reply)
    unfolding NearWorld.started FarWorld.started status_code
    accepted-Both cmd port reply = record {
      key = [];
      near_ok = record { data_key = refl; sound = (tt, tt); agreed = λ e. cc; own = λ k e. cc };
      going_up = tt;
      going_down = tt;
      phase =
          early (record { no_key = refl; early = refl; sound = (tt, tt); one = inr (refl, tt) });
    }

    Reach-Both :
        (cmd : Far.Socks5Cmd) (port reply : ℕ) {j : Joint}
        → Reach near far (accepted near far cmd port reply) j
        → Both j
    Reach-Both cmd port reply here = accepted-Both cmd port reply
    Reach-Both cmd port reply (next r x) = Step-Both x (Reach-Both cmd port reply r)

    -- Whatever the two ends of a connection come to from the accepted connections on, in whatever
    -- order their operations complete and with whatever results, as `Step` has them: where the local
    -- end is in `status_data`, it encrypts with the data key of the server's encryptor, and the server
    -- knows its authentication key. A packet is handed over as a whole while its write is pending, and
    -- a read that succeeds brings one whole packet, in the order of each direction. The
    -- authentication key has 32 bytes and no NUL, the size of the server's public key, that key and
    -- the cipher text of the exchange fit their fields, and the ciphers keep what `Agrees` says.
    pub keys-agree :
        (cmd : Far.Socks5Cmd) (port reply : ℕ) (j : Joint)
        → Reach near far (accepted near far cmd port reply) j
        → j.near.status ≡ status_data
        → (j.far.aes_encryptor ≡ some (encryptor_key near j.near))
          × (contains far.config.cipher_auth_key_set near.config.auth_key ≡ true)
    unfolding encryptor_key
    keys-agree cmd port reply j r h =
        let both = Reach-Both cmd port reply r in
        let (held, known) = both.near_ok.agreed h in
        (
          elim (Option-cases j.near.aes_encryptor) [
            | inl e ↦ rw (encryptor_key, e) (held ∙ ap some (sym both.near_ok.data_key))
            | inr (k, e) ↦ rw (encryptor_key, e) (both.near_ok.own k e)
          ],
          known,
        )
