-- ===== src/Tunnel/Agreement/FarBegun.antt =====
-- The handshake of core/lss/session_server.cpp before the exchange is accepted, against `FarEarly`.
use lproxy.Base.{
  ℕ, ◌≡◌, refl, Bool, true, false, none, List, [], ◌∷◌, ◌++◌, All-append, Bool-cases, inl, inr, ◌⊎◌,
}
use lproxy.Base.Handler.Keeps.{Keeps, parts}
use lproxy.Packet.{Packet}
use lproxy.Session.{
  Exception, status_code, length_handshake, is_positive, to_size, other_exception,
  unsupported_version, illegal_data_type, incomplete_data, wrong_packet_type, wrong_lss_status,
  trim_incomplete,
}
use lproxy.Local.State as Near
use lproxy.Server.State.{
  Session, Op, Env, read_left, read_left_rest, write_left, cancel_handler, issue, cancel,
}
use lproxy.Server.Pack.{pack_bad, say_and_cancel}
use lproxy.Server.Left.{on_exception}
use lproxy.Server.Right.{after_hello}
use lproxy.Tunnel.Agreement.{
  PacketSound, FarSound, FarEarly, FarQuiet, FarPhase, early, is_quiet, goes_on, AllQuiet, One,
}
use lproxy.Tunnel.Agreement.FarKept.{bad-Sound}
use lproxy.Tunnel.Agreement.NearTurns.{All-without}

One-quiet : (ops : List Op) → AllQuiet ops → One ops
One-quiet [] h = tt
One-quiet (op ∷ ops) (e, h) = inl (e, One-quiet ops h)

One-append : (ops : List Op) (op : Op) → One ops → is_quiet op ≡ true → One (ops ++ op ∷ [])
One-append [] op h e = inl (e, tt)
One-append (x ∷ ops) op (inl (q, h)) e = inl (q, One-append ops op h e)
One-append (x ∷ ops) op (inr (q, h)) e =
    inr (q, All-append (λ op. is_quiet op ≡ true) ops (op ∷ []) h (e, tt))

One-goes_on : (ops : List Op) (op : Op) → AllQuiet ops → goes_on op ≡ true → One (ops ++ op ∷ [])
One-goes_on [] op h e = inr (e, tt)
One-goes_on (x ∷ ops) op (q, h) e = inl (q, One-goes_on ops op h e)

-- The operation that completes is quiet, or the one that goes on.
pub One-without :
    (before rest : List Op) (op : Op)
    → One (before ++ op ∷ rest)
    → (is_quiet op ≡ true) × One (before ++ rest) ⊎ (goes_on op ≡ true) × AllQuiet (before ++ rest)
One-without [] rest op h = h
One-without (x ∷ before) rest op (inl (q, h)) = elim (One-without before rest op h) [
  | inl (e, others) ↦ inl (e, inl (q, others))
  | inr (e, others) ↦ inr (e, (q, others))
]
One-without (x ∷ before) rest op (inr (q, h)) =
    let (a, b) = All-without (λ op. is_quiet op ≡ true) before rest op h in inl (a, inr (q, b))

module _ (near : Near.Env) (far : Env) where
  issue-Early :
      (op : Op)
      → FarSound near far none op
      → is_quiet op ≡ true
      → Keeps (FarEarly near far) (issue op)
  unfolding Keeps
  issue-Early op sound e s h = record {
    no_key = h.no_key;
    early = h.early;
    sound = All-append (FarSound near far none) s.issued (op ∷ []) h.sound (sound, tt);
    one = One-append s.issued op h.one e;
  }

  issue-Quiet :
      (op : Op)
      → FarSound near far none op
      → is_quiet op ≡ true
      → Keeps (FarQuiet near far) (issue op)
  unfolding Keeps
  issue-Quiet op sound e s h = record {
    no_key = h.no_key;
    early = h.early;
    sound = All-append (FarSound near far none) s.issued (op ∷ []) h.sound (sound, tt);
    quiet = All-append (λ op. is_quiet op ≡ true) s.issued (op ∷ []) h.quiet (e, tt);
  }

  trivial : Unit {0}
  trivial = tt

  pub cancel-Early : Keeps (FarEarly near far) cancel
  unfolding cancel
  cancel-Early = search (parts, issue-Early, trivial)

  pub cancel-Quiet : Keeps (FarQuiet near far) cancel
  unfolding cancel
  cancel-Quiet = search (parts, issue-Quiet, trivial)

  pub say-Quiet :
      (p : Packet) → PacketSound near far none p → Keeps (FarQuiet near far) (say_and_cancel p)
  say-Quiet p sound = issue-Quiet (write_left p cancel_handler) sound refl

  pub quiet-early : (s : Session) → FarQuiet near far s → FarPhase near far s
  quiet-early s h = early (record {
    no_key = h.no_key;
    early = h.early;
    sound = h.sound;
    one = One-quiet s.issued h.quiet;
  })

  -- The one operation that goes on is started.
  pub issue-goes_on :
      (op : Op) (s : Session)
      → FarSound near far none op
      → goes_on op ≡ true
      → FarQuiet near far s
      → FarEarly near far (issue op s).1
  issue-goes_on op s sound e h = record {
    no_key = h.no_key;
    early = h.early;
    sound = All-append (FarSound near far none) s.issued (op ∷ []) h.sound (sound, tt);
    one = One-goes_on s.issued op h.quiet e;
  }

  pub after_hello-Phase :
      (error : Bool) (s : Session) → FarQuiet near far s → FarPhase near far (after_hello error s).1
  unfolding after_hello Keeps status_code
  after_hello-Phase true s h = quiet-early _ (cancel-Quiet s h)
  after_hello-Phase false s h =
      let r = issue-goes_on (read_left length_handshake) s tt refl h in
      early (record { no_key = r.no_key; early = refl; sound = r.sound; one = r.one })

  -- What an exception of a read comes to.
  pub on_exception-Phase :
      (n : ℕ) (request : Packet) (e : Exception) (s : Session)
      → FarQuiet near far s
      → FarPhase near far (on_exception far n request e s).1
  unfolding on_exception Keeps
  on_exception-Phase n request (wrong_lss_status a b) s h = quiet-early _ (cancel-Quiet s h)
  on_exception-Phase n request wrong_packet_type s h =
      quiet-early _ (say-Quiet pack_bad (bad-Sound near far none) s h)
  on_exception-Phase n request (incomplete_data less) s h = elim (Bool-cases (is_positive less)) [
    | inl e ↦ rw e (
        early
          (issue-goes_on (read_left_rest (to_size less) (trim_incomplete n request)) s tt refl h))
    | inr e ↦ rw e (quiet-early _ (say-Quiet pack_bad (bad-Sound near far none) s h))
  ]
  on_exception-Phase n request illegal_data_type s h =
      quiet-early _ (say-Quiet pack_bad (bad-Sound near far none) s h)
  on_exception-Phase n request unsupported_version s h =
      quiet-early _ (say-Quiet pack_bad (bad-Sound near far none) s h)
  on_exception-Phase n request other_exception s h = quiet-early _ (cancel-Quiet s h)
