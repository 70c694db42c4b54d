-- ===== src/Local/Served.antt =====
-- The sessions of core/lss/session_local.cpp in the server of lss_server.h that makes them, which the
-- local end is for its clients.
use lproxy.Base.Handler.Keeps as Handler
use mathlib.Core.Bool.{true≢false}
use lproxy.Base.{All-front, ◌==◌, ◌≡◌, ap, Bool, true, false, List, ◌∷◌, ◌++◌, length}
use lproxy.Session.{status_data, status_code}
use lproxy.Local.State.{Session, Env, new_session}
use lproxy.Local.Right.{start, close}
use lproxy.Local.World as World
use lproxy.Local.World.Sized.{Sized, pieces}
use lproxy.Local.World.Reached.{Step-Sized}
use lproxy.LssServer.{SessionClass, LssServer, new_server, run, Reach}
use lproxy.LssServer.Served.{Keeps, run-Served}

-- Whether the client is gone, and which sockets are open.
pub record Asked : Type 0 where
  pub endpoint_error : Bool
  pub left : Bool
  pub right : Bool

close-Keeps : (left right : Bool) → Handler.Keeps Sized (close left right)
unfolding close
close-Keeps left right = search pieces depth 14

module _ (env : Env) where
  unfoldable pub session_class : SessionClass Asked Session
  unfolding new_session start close
  session_class = record {
    new_session = λ a. new_session;
    start = λ a s. (start env a.endpoint_error s).1;
    close = λ a s. (close a.left a.right s).1;
  }

  start-Sized : (error : Bool) (s : Session) → Sized s → Sized (start env error s).1
  unfolding start
  start-Sized true s h = h
  start-Sized false s h = record { by_status = h.by_status }

  session_class-Keeps : Keeps Sized session_class (World.Step env)
  unfolding session_class new_session Handler.Keeps status_code
  session_class-Keeps = record {
    made = λ a. record { by_status = λ e. absurd (true≢false (ap (λ t. status_code t == 0) e)) };
    starts = λ a x h. start-Sized a.endpoint_error x h;
    closes = λ a x h. close-Keeps a.left a.right x h;
    steps = λ x y step h. Step-Sized env step h;
  }

  -- A local end that runs, after any accepts of clients, with errors or without, and any completions
  -- of the pending operations of its sessions, in any order: one session waits to be accepted, and
  -- each of the others that has come to `status_data` has a data key of 32 bytes, as AES asks for.
  pub sessions-sized :
      (a : Asked) (t : LssServer Session) (before rest : List Session) (s : Session)
      → Reach session_class
          (World.Step env)
          (run session_class a false (new_server session_class))
          t
      → t.sessions ≡ before ++ s ∷ rest
      → s.status ≡ status_data
      → (length t.accepting ≡ 1) × (length s.data_key ≡ 32)
  sessions-sized a t before rest s r e h =
      let served = run-Served Sized session_class (World.Step env) session_class-Keeps a t r in
      let (front, behind) = All-front Sized before (s ∷ rest) (rw e at served.sessions) in
      (served.waiting, behind.0.by_status h)
