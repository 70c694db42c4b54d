-- ===== src/LssServer/Served.antt =====
-- What holds of every session of core/lss/lss_server.h, where the class of the sessions keeps it; and
-- that one session waits to be accepted.
use lproxy.Base.{
  All, All-append, All-front, ◌≡◌, refl, ap, Bool, true, false, if◌then◌else◌, [], ◌∷◌, ◌++◌,
  length, length-append, arith,
}
use lproxy.LssServer.{
  SessionClass, LssServer, new_server, start_accept, handle_accept, run, Step, Reach, accepted,
  handled, here, next,
}

module _ {SESSION : Type 0} (P : SESSION → Type 0) where
  either : (b : Bool) (x y : SESSION) → P x → P y → P (if b then x else y)
  either true x y p q = p
  either false x y p q = q

  module _ {A : Type 0} (class : SessionClass A SESSION)
      (SessionStep : SESSION → SESSION → Type 0) where
    -- What the class of the sessions keeps.
    pub record Keeps : Type 0 where
      pub made : (a : A) → P (class.new_session a)
      pub starts : (a : A) (x : SESSION) → P x → P (class.start a x)
      pub closes : (a : A) (x : SESSION) → P x → P (class.close a x)
      pub steps : (x y : SESSION) → SessionStep x y → P x → P y

    pub record Served (s : LssServer SESSION) : Type 0 where
      pub waiting : length s.accepting ≡ 1
      pub accepting : All P s.accepting
      pub sessions : All P s.sessions

    module _ (keeps : Keeps) where
      Step-Served : {s t : LssServer SESSION} → Step class SessionStep s t → Served s → Served t
      unfolding handle_accept start_accept
      Step-Served (accepted s before x rest error a running e) h =
          let (front, behind) = All-front P before (x ∷ rest) (rw e at h.accepting) in
          let others = All-append P before rest front behind.1 in
          let answered : P (if error then class.close a x else class.start a x) =
            either error (class.close a x) (class.start a x) (keeps.closes a x behind.0)
              (keeps.starts a x behind.0) in
          record {
            waiting = omega (
              arith,
              h.waiting,
              ap length e,
              length-append before (x ∷ rest),
              length-append before rest,
              length-append (before ++ rest) (class.new_session a ∷ []),
            );
            accepting = All-append P (before ++ rest) _ others (keeps.made a, tt);
            sessions = All-append P s.sessions _ h.sessions (answered, tt);
          }
      Step-Served (handled s before x y rest running e step) h =
          let (front, behind) = All-front P before (x ∷ rest) (rw e at h.sessions) in
          record {
            waiting = h.waiting;
            accepting = h.accepting;
            sessions =
                All-append P before (y ∷ rest) front (keeps.steps x y step behind.0, behind.1);
          }

      Reach-Served : {s t : LssServer SESSION} → Reach class SessionStep s t → Served s → Served t
      Reach-Served here h = h
      Reach-Served (next r x) h = Step-Served x (Reach-Served r h)

      pub run-Served :
          (a : A) (t : LssServer SESSION)
          → Reach class SessionStep (run class a false (new_server class)) t
          → Served t
      unfolding run new_server start_accept
      run-Served a t r =
          Reach-Served r (record { waiting = refl; accepting = (keeps.made a, tt); sessions = tt })
