-- ===== src/Local/World.antt =====
-- A session of the local end among its pending operations. The environment completes one of them
-- at a time, in any order and with any result.
pub mod Sized
pub mod Kept
pub mod Reached
use lproxy.Base.{false, ℕ, Bool, ◌≡◌, List, [], ◌∷◌, ◌++◌, Outcome}
use lproxy.Base.Handler.{ret}
use lproxy.Packet.{Packet}
use lproxy.Session.{Exception}
use lproxy.Local.State.{
  Session, M, Env, Op, AfterLeftWrite, AfterLeftRead, AfterRightWrite, new_session, resolve_right,
  connect_any, connect_right, read_right, read_right_rest, write_right, read_left, write_left,
  hello_handler, exchange_handler, right_write_handler, cancel_handler, left_read_socks5_step1,
  left_read_handler, left_write_socks5_step1_handler, left_write_handler, right_read_handler,
  cancel,
}
use lproxy.Local.Left.{socks5_step1_read, socks5_step1_written, after_right_write, left_read}
use lproxy.Local.Right.{
  start, resolved, right_connected, after_hello, after_exchange, after_left_write, right_read,
}

-- What the completion of an operation brings.
pub record Completion : Type 0 where
  pub error : Bool
  pub bytes : ℕ
  pub packet : Packet  -- a fresh packet, as the read has filled it
  pub bytes_read : List ℕ  -- any other buffer, as the read has filled it
  pub endpoints : List ℕ
  pub rand : ℕ → ℕ

module _ (env : Env) where
  unfoldable pub after_right : AfterRightWrite → Completion → M (Unit {0})
  unfolding after_hello after_exchange after_right_write cancel
  after_right hello_handler c = after_hello c.error
  after_right exchange_handler c = after_exchange c.error
  after_right right_write_handler c = after_right_write c.error
  after_right cancel_handler c = cancel

  unfoldable pub after_left : AfterLeftWrite → Completion → M (Unit {0})
  unfolding socks5_step1_written after_left_write
  after_left left_write_socks5_step1_handler c = socks5_step1_written c.error
  after_left left_write_handler c = after_left_write c.error
  after_left (right_read_handler n packet) c = right_read env c.rand c.error n packet []

  unfoldable pub left_has_read : AfterLeftRead → Completion → M (Unit {0})
  unfolding socks5_step1_read
  left_has_read left_read_socks5_step1 c = socks5_step1_read c.error c.bytes_read
  left_has_read left_read_handler c = left_read env c.error c.bytes c.bytes_read

  -- The handler that is bound to an operation. What cancels or closes has none.
  unfoldable pub handler : Op → Completion → M (Unit {0})
  unfolding after_right after_left left_has_read resolved right_connected
  handler (resolve_right name port) c = resolved c.error c.endpoints
  handler (connect_any endpoints) c = right_connected c.error c.endpoints
  handler (connect_right endpoint rest) c = right_connected c.error rest
  handler (read_right n) c = right_read env c.rand c.error c.bytes c.packet []
  handler (read_right_rest n packet) c = right_read env c.rand c.error c.bytes packet c.bytes_read
  handler (write_right packet bound) c = after_right bound c
  handler (read_left n bound) c = left_has_read bound c
  handler (write_left text bound) c = after_left bound c
  handler _ c = ret tt

  -- `issued` holds all that is pending.
  unfoldable pub complete :
      Session → List Op → Op → List Op → Completion → Outcome Exception (Unit {0}) × Session
  complete s before op rest c = handler op c (record s { issued = before ++ rest })

  pub data Step : Session → Session → Type 0 where
    step :
        (s : Session) (before : List Op) (op : Op) (rest : List Op) (c : Completion)
        → s.issued ≡ before ++ op ∷ rest
        → Step s (complete s before op rest c).1

  pub data Reach (s : Session) : Session → Type 0 where
    here : Reach s s
    next : {t u : Session} → Reach s t → Step t u → Reach s u

  -- An accepted client.
  unfoldable pub started : Session
  unfolding start new_session
  started = (start env false new_session).1
