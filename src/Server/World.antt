-- ===== src/Server/World.antt =====
-- A session among its pending operations. The environment completes one of them at a time, in any
-- order and with any result; the handler that is bound to it runs, and what it starts is pending.
pub mod Keyed
pub mod Kept
pub mod Reached
pub mod Encrypted
use lproxy.Base.{ℕ, Bool, true, false, ◌≡◌, List, [], ◌∷◌, ◌++◌, ok, Outcome}
use lproxy.Base.Handler.{ret}
use lproxy.Packet.{Packet}
use lproxy.Session.{Exception}
use lproxy.Server.State.{
  Session, M, Env, Answers, Op, Socks5Cmd, new_session, AfterLeftWrite, AfterRightWrite, read_left,
  read_left_rest, write_left, write_right_tcp, send_right_udp, read_right_tcp, receive_right_udp,
  resolve_tcp, resolve_udp, connect_tcp, connect_udp, wait_timer, hello_handler, exchange_handler,
  left_write_handler, cancel_handler, left_read_handler, right_write_handler, cancel,
}
use lproxy.Server.Left.{start, left_read}
use lproxy.Server.Right.{
  after_hello, after_exchange, after_left_write, after_right_write, right_read, tcp_resolved,
  udp_resolved, tcp_connected, udp_connected, timer_expired,
}

-- What the completion of an operation brings.
pub record Completion : Type 0 where
  pub error : Bool
  pub bytes : ℕ
  pub packet : Packet  -- a fresh packet, as the read has filled it
  pub bytes_read : List ℕ  -- any other buffer, as the read has filled it
  pub endpoints : List ℕ
  pub address_of : ℕ → List ℕ
  pub expiry_moved : Bool
  pub answers : Answers

module _ (env : Env) where
  unfoldable pub after_left : AfterLeftWrite → Completion → M (Unit {0})
  unfolding after_hello after_exchange cancel
  after_left hello_handler c = after_hello c.error
  after_left exchange_handler c = after_exchange c.error
  after_left left_write_handler c = after_left_write env c.error
  after_left cancel_handler c = cancel

  unfoldable pub after_right : AfterRightWrite → Completion → M (Unit {0})
  after_right (left_read_handler n packet) c = left_read env c.answers c.error n packet []
  after_right right_write_handler c = after_right_write c.error

  -- The handler that is bound to an operation. What cancels or closes has none.
  unfoldable pub handler : Op → Completion → M (Unit {0})
  unfolding after_left after_right
  handler (read_left n) c = left_read env c.answers c.error c.bytes c.packet []
  handler (read_left_rest n packet) c = left_read env c.answers c.error c.bytes packet c.bytes_read
  handler (write_left packet next) c = after_left next c
  handler (write_right_tcp text next) c = after_right next c
  handler (send_right_udp text name port next) c = after_right next c
  handler (read_right_tcp n) c = right_read env c.error c.bytes c.bytes_read
  handler (receive_right_udp n name port) c = right_read env c.error c.bytes c.bytes_read
  handler (resolve_tcp name port) c = tcp_resolved env c.error c.endpoints
  handler (resolve_udp name port) c = udp_resolved env c.error c.endpoints
  handler (connect_tcp endpoint rest) c = tcp_connected env c.error rest
  handler (connect_udp endpoint rest) c = udp_connected env c.address_of c.answers c.error rest
  handler (wait_timer seconds) c = timer_expired env c.error c.expiry_moved
  handler _ c = ret tt

  -- `issued` holds all that is pending.
  unfoldable pub complete :
      Session → List Op → Op → List Op → Completion → Outcome Exception (Unit {0}) × Session
  complete s before op rest c = handler op c (record s { issued = before ++ rest })

  pub data Step : Session → Session → Type 0 where
    step :
        (s : Session) (before : List Op) (op : Op) (rest : List Op) (c : Completion)
        → s.issued ≡ before ++ op ∷ rest
        → Step s (complete s before op rest c).1

  pub data Reach (s : Session) : Session → Type 0 where
    here : Reach s s
    next : {t u : Session} → Reach s t → Step t u → Reach s u

-- An accepted connection.
unfoldable pub started : Socks5Cmd → ℕ → ℕ → Session
unfolding start new_session
started cmd port reply = (start false (new_session cmd port reply)).1
