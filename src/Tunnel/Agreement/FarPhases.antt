-- ===== src/Tunnel/Agreement/FarPhases.antt =====
-- The completions of the server against `FarPhase`: before the exchange, after it, and in `status_data`.
use mathlib.Core.Bool.{true≢false}
use lproxy.Base.{
  ℕ, ◌≡◌, refl, sym, ◌∙◌, Bool, true, false, some, none, List, [], ◌∷◌, ◌++◌, All-append, All-map,
  inl, inr, ◌⊎◌,
}
use lproxy.Base.Handler.Keeps.{Keeps, parts}
use lproxy.Session.{length_handshake}
use lproxy.Local.State as Near
use lproxy.Server.State as Far
use lproxy.Server.State.{
  Session, Op, Env, read_left, read_left_rest, write_left, cancel_handler, hello_handler,
  exchange_handler, issue, cancel,
}
use lproxy.Server.Left.{left_read}
use lproxy.Server.Right.{after_exchange}
use lproxy.Server.World.{Completion, complete, handler, after_left}
use lproxy.Tunnel.Agreement.{
  FarSound, FarEarly, FarQuiet, FarSealed, FarPhase, early, sealed, opened, is_quiet, ends, goes_on,
  greets,
}
use lproxy.Tunnel.Agreement.NearTurns.{All-without}
use lproxy.Tunnel.Agreement.FarBegun.{
  One-without, cancel-Early, cancel-Quiet, quiet-early, after_hello-Phase,
}
use lproxy.Tunnel.Agreement.FarTurns.{complete-FarOpen}

-- Whether an operation reads from the local end.
abbrev pub reads : Op → Bool
reads (read_left n) = true
reads (read_left_rest n packet) = true
reads _ = false

ends-greets : (op : Op) → ends op ≡ true → greets op ≡ false
ends-greets (write_left p hello_handler) e = absurd (true≢false (sym e))
ends-greets _ e = refl

module _ (near : Near.Env) (far : Env) where
  -- Where a completion leads, without a change of the data key.
  pub record Later (s t : Session) : Type 0 where
    pub phase : FarPhase near far t
    pub keeps : (key : List ℕ) → s.aes_encryptor ≡ some key → t.aes_encryptor ≡ some key

  pub from_early : (s t : Session) → s.aes_encryptor ≡ none → FarPhase near far t → Later s t
  from_early s t e h = record { phase = h; keeps = λ key k. cc }

  quiet-Keeps :
      (op : Op) (c : Completion) → is_quiet op ≡ true → Keeps (FarEarly near far) (handler far op c)
  unfolding handler after_left Keeps
  quiet-Keeps (write_left p cancel_handler) c e s h = cancel-Early near far s h
  quiet-Keeps Far.cancel_timer c e s h = h
  quiet-Keeps Far.cancel_left c e s h = h
  quiet-Keeps Far.cancel_right_tcp c e s h = h
  quiet-Keeps Far.cancel_right_udp c e s h = h
  quiet-Keeps Far.close_left c e s h = h
  quiet-Keeps Far.close_right_tcp c e s h = h
  quiet-Keeps Far.close_right_udp c e s h = h
  quiet-Keeps _ c e s h = absurd (true≢false (sym e))

  goes_on-Phase :
      (op : Op) (c : Completion) (s : Session)
      → goes_on op ≡ true
      → (reads op ≡ true → c.error ≡ true)
      → FarQuiet near far s
      → FarPhase near far (handler far op c s).1
  unfolding handler after_left left_read Keeps
  goes_on-Phase (write_left p hello_handler) c s e alone h = after_hello-Phase near far c.error s h
  goes_on-Phase (read_left n) c s e alone h =
      rw (alone refl) (quiet-early near far _ (cancel-Quiet near far s h))
  goes_on-Phase (read_left_rest n packet) c s e alone h =
      rw (alone refl) (quiet-early near far _ (cancel-Quiet near far s h))
  goes_on-Phase _ c s e alone h = absurd (true≢false (sym e))

  -- The session without the operation that completes: that is quiet, or the one that goes on.
  pub without-Early :
      (s : Session) (before : List Op) (op : Op) (rest : List Op)
      → s.issued ≡ before ++ op ∷ rest
      → FarEarly near far s
      → (is_quiet op ≡ true) × FarEarly near far (record s { issued = before ++ rest })
        ⊎ (goes_on op ≡ true) × FarQuiet near far (record s { issued = before ++ rest })
  without-Early s before op rest e h =
      let (_, sound) = All-without (FarSound near far none) before rest op (rw e at h.sound) in
      elim (One-without before rest op (rw e at h.one)) [
        | inl (quiet, one) ↦
            inl (quiet, record { no_key = h.no_key; early = h.early; sound = sound; one = one })
        | inr (on, quiet) ↦
            inr (on, record { no_key = h.no_key; early = h.early; sound = sound; quiet = quiet })
      ]

  complete-Early :
      (s : Session) (before : List Op) (op : Op) (rest : List Op) (c : Completion)
      → s.issued ≡ before ++ op ∷ rest
      → (reads op ≡ true → c.error ≡ true)
      → FarEarly near far s
      → FarPhase near far (complete far s before op rest c).1
  unfolding complete Keeps
  complete-Early s before op rest c e alone h = elim (without-Early s before op rest e h) [
    | inl (quiet, others) ↦
        early (quiet-Keeps op c quiet (record s { issued = before ++ rest }) others)
    | inr (on, others) ↦ goes_on-Phase op c (record s { issued = before ++ rest }) on alone others
  ]

  module _ (key : List ℕ) where
    issue-Sealed :
        (op : Op)
        → FarSound near far (some key) op
        → ends op ≡ true
        → Keeps (FarSealed near far key) (issue op)
    unfolding Keeps
    issue-Sealed op sound e s h = record {
      held = h.held;
      early = h.early;
      sound = All-append (FarSound near far (some key)) s.issued (op ∷ []) h.sound (sound, tt);
      last = All-append (λ op. ends op ≡ true) s.issued (op ∷ []) h.last (e, tt);
    }

    trivial : Unit {0}
    trivial = tt

    cancel-Sealed : Keeps (FarSealed near far key) cancel
    unfolding cancel
    cancel-Sealed = search (parts, issue-Sealed, trivial)

    sealed-sealed :
        (s t : Session) → FarSealed near far key s → FarSealed near far key t → Later s t
    sealed-sealed s t h k = record { phase = sealed key k; keeps = λ x e. k.held ∙ sym h.held ∙ e }

    after_exchange-Later :
        (error : Bool) (s : Session) → FarSealed near far key s → Later s (after_exchange error s).1
    unfolding after_exchange Keeps
    after_exchange-Later true s h = sealed-sealed s _ h (cancel-Sealed s h)
    after_exchange-Later false s h = record {
      phase = opened key (record {
        held = h.held;
        status = refl;
        sound =
            All-append (FarSound near far (some key)) s.issued (read_left length_handshake ∷ [])
              h.sound (tt, tt);
        no_hello =
            All-append (λ op. greets op ≡ false) s.issued (read_left length_handshake ∷ [])
              (All-map s.issued ends-greets h.last) (refl, tt);
      });
      keeps = λ x e. e;
    }

    ends-Later :
        (op : Op) (c : Completion) (s : Session)
        → ends op ≡ true
        → FarSealed near far key s
        → Later s (handler far op c s).1
    unfolding handler after_left Keeps
    ends-Later (write_left p exchange_handler) c s e h = after_exchange-Later c.error s h
    ends-Later (write_left p cancel_handler) c s e h = sealed-sealed s _ h (cancel-Sealed s h)
    ends-Later Far.cancel_timer c s e h = sealed-sealed s s h h
    ends-Later Far.cancel_left c s e h = sealed-sealed s s h h
    ends-Later Far.cancel_right_tcp c s e h = sealed-sealed s s h h
    ends-Later Far.cancel_right_udp c s e h = sealed-sealed s s h h
    ends-Later Far.close_left c s e h = sealed-sealed s s h h
    ends-Later Far.close_right_tcp c s e h = sealed-sealed s s h h
    ends-Later Far.close_right_udp c s e h = sealed-sealed s s h h
    ends-Later _ c s e h = absurd (true≢false (sym e))

    -- The session without the operation that completes.
    pub without-Sealed :
        (s : Session) (before : List Op) (op : Op) (rest : List Op)
        → s.issued ≡ before ++ op ∷ rest
        → FarSealed near far key s
        → (ends op ≡ true) × FarSealed near far key (record s { issued = before ++ rest })
    without-Sealed s before op rest e h =
        let (_, sound) =
          All-without (FarSound near far (some key)) before rest op (rw e at h.sound) in
        let (end, last) = All-without (λ op. ends op ≡ true) before rest op (rw e at h.last) in
        (end, record { held = h.held; early = h.early; sound = sound; last = last })

  -- Every completion, where a read from the local end fails.
  pub complete-Later :
      (s : Session) (before : List Op) (op : Op) (rest : List Op) (c : Completion)
      → s.issued ≡ before ++ op ∷ rest
      → (reads op ≡ true → c.error ≡ true)
      → FarPhase near far s
      → Later s (complete far s before op rest c).1
  unfolding complete
  complete-Later s before op rest c e alone (early h) =
      from_early s _ h.no_key (complete-Early s before op rest c e alone h)
  complete-Later s before op rest c e alone (sealed key h) =
      let (end, others) = without-Sealed key s before op rest e h in
      let later = ends-Later key op c (record s { issued = before ++ rest }) end others in
      record { phase = later.phase; keeps = later.keeps }
  complete-Later s before op rest c e alone (opened key h) =
      let h' = complete-FarOpen near far key s before op rest c e h in
      record { phase = opened key h'; keeps = λ x k. h'.held ∙ sym h.held ∙ k }
