-- ===== src/Server/Served.antt =====
-- The sessions of core/lss/session_server.cpp in the server of lss_server.h that makes them.
use lproxy.Base.Handler.Keeps as Handler
use lproxy.Base.{All-front, ℕ, ◌≡◌, Bool, true, false, some, List, [], ◌∷◌, ◌++◌, length, arith}
use lproxy.Session.{length_handshake, status_data}
use lproxy.Server.State.{Session, Env, Socks5Cmd, new_session, read_left}
use lproxy.Server.Left.{start}
use lproxy.Server.Right.{close}
use lproxy.Server.World as World
use lproxy.Server.World.Keyed.{Keyed, pieces, any_exchange-append}
use lproxy.Server.World.Reached.{Step-Keyed}
use lproxy.Server.World.Encrypted.{keyed}
use lproxy.LssServer.{SessionClass, LssServer, new_server, run, Reach}
use lproxy.LssServer.Served.{Keeps, run-Served}

-- What the members that are not initialised hold, whether the client is gone, and which sockets are
-- open.
pub record Asked : Type 0 where
  pub cmd : Socks5Cmd
  pub port : ℕ
  pub reply : ℕ
  pub endpoint_error : Bool
  pub left : Bool
  pub tcp : Bool
  pub udp : Bool

unfoldable pub session_class : SessionClass Asked Session
unfolding new_session start close
session_class = record {
  new_session = λ a. new_session a.cmd a.port a.reply;
  start = λ a s. (start a.endpoint_error s).1;
  close = λ a s. (close a.left a.tcp a.udp s).1;
}

close-Keeps : (left tcp udp : Bool) → Handler.Keeps Keyed (close left tcp udp)
unfolding close
close-Keeps left tcp udp = search pieces depth 14

start-Keyed : (error : Bool) (s : Session) → Keyed s → Keyed (start error s).1
unfolding start
start-Keyed true s h = h
start-Keyed false s h =
    ground (arith, any_exchange-append s.issued (read_left length_handshake ∷ []))

module _ (env : Env) where
  session_class-Keeps : Keeps Keyed session_class (World.Step env)
  unfolding session_class new_session Handler.Keeps
  session_class-Keeps = record {
    made = λ a. record { by_status = λ h. cc; by_exchange = λ h. cc };
    starts = λ a x h. start-Keyed a.endpoint_error x h;
    closes = λ a x h. close-Keeps a.left a.tcp a.udp x h;
    steps = λ x y step h. Step-Keyed env step h;
  }

  -- A server that runs, after any accepts, with errors or without, and any completions of the pending
  -- operations of its sessions, in any order: one session waits to be accepted, and each of the
  -- others that has come to `status_data` has a data key.
  pub sessions-keyed :
      (a : Asked) (t : LssServer Session) (before rest : List Session) (s : Session)
      → Reach session_class
          (World.Step env)
          (run session_class a false (new_server session_class))
          t
      → t.sessions ≡ before ++ s ∷ rest
      → s.status ≡ status_data
      → (length t.accepting ≡ 1) × ((key : List ℕ) × (s.aes_encryptor ≡ some key))
  sessions-keyed a t before rest s r e h =
      let served = run-Served Keyed session_class (World.Step env) session_class-Keeps a t r in
      let (front, behind) = All-front Keyed before (s ∷ rest) (rw e at served.sessions) in
      (served.waiting, keyed s.aes_encryptor (behind.0.by_status h))
