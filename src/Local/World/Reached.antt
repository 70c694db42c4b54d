-- ===== src/Local/World/Reached.antt =====
-- The step relation of the local end against `Sized`.
use lproxy.Base.Handler.Keeps.{Keeps}
use lproxy.Base.{[]}
use lproxy.Local.World.{
  Completion, after_right, after_left, left_has_read, handler, complete, Step, step,
}
use lproxy.Local.State.{
  Session, Env, Op, AfterRightWrite, AfterLeftWrite, AfterLeftRead, hello_handler, exchange_handler,
  right_write_handler, cancel_handler, left_write_socks5_step1_handler, left_write_handler,
  right_read_handler, left_read_socks5_step1, left_read_handler, resolve_right, connect_any,
  connect_right, read_right, read_right_rest, write_right, read_left, write_left, cancel_left,
  cancel_right, close_left, close_right,
}
use lproxy.Local.World.Sized.{Sized, pieces, cancel-Keeps}
use lproxy.Local.World.Kept.{
  after_hello-Keeps, after_exchange-Keeps, after_left_write-Keeps, resolved-Keeps,
  right_connected-Keeps, after_right_write-Keeps, step1_read-Keeps, step1_written-Keeps,
  right_read-Keeps, left_read-Keeps,
}

module _ (env : Env) where
  after_right-Keeps :
      (bound : AfterRightWrite) (c : Completion) → Keeps Sized (after_right env bound c)
  unfolding after_right
  after_right-Keeps hello_handler c = after_hello-Keeps c.error
  after_right-Keeps exchange_handler c = after_exchange-Keeps c.error
  after_right-Keeps right_write_handler c = after_right_write-Keeps c.error
  after_right-Keeps cancel_handler c = cancel-Keeps

  after_left-Keeps :
      (bound : AfterLeftWrite) (c : Completion) → Keeps Sized (after_left env bound c)
  unfolding after_left
  after_left-Keeps left_write_socks5_step1_handler c = step1_written-Keeps c.error
  after_left-Keeps left_write_handler c = after_left_write-Keeps c.error
  after_left-Keeps (right_read_handler n packet) c = right_read-Keeps env c.rand c.error n packet []

  left_has_read-Keeps :
      (bound : AfterLeftRead) (c : Completion) → Keeps Sized (left_has_read env bound c)
  unfolding left_has_read
  left_has_read-Keeps left_read_socks5_step1 c = step1_read-Keeps c.error c.bytes_read
  left_has_read-Keeps left_read_handler c = left_read-Keeps env c.error c.bytes c.bytes_read

  handler-Keeps : (op : Op) (c : Completion) → Keeps Sized (handler env op c)
  unfolding handler
  handler-Keeps (resolve_right name port) c = resolved-Keeps c.error c.endpoints
  handler-Keeps (connect_any endpoints) c = right_connected-Keeps c.error c.endpoints
  handler-Keeps (connect_right endpoint rest) c = right_connected-Keeps c.error rest
  handler-Keeps (read_right n) c = right_read-Keeps env c.rand c.error c.bytes c.packet []
  handler-Keeps (read_right_rest n packet) c =
      right_read-Keeps env c.rand c.error c.bytes packet c.bytes_read
  handler-Keeps (write_right packet bound) c = after_right-Keeps bound c
  handler-Keeps (read_left n bound) c = left_has_read-Keeps bound c
  handler-Keeps (write_left text bound) c = after_left-Keeps bound c
  handler-Keeps cancel_left c = search pieces
  handler-Keeps cancel_right c = search pieces
  handler-Keeps close_left c = search pieces
  handler-Keeps close_right c = search pieces

  pub Step-Sized : {s t : Session} → Step env s t → Sized s → Sized t
  unfolding complete Keeps
  Step-Sized (step s before op rest c e) h =
      handler-Keeps op c _ (record { by_status = h.by_status })
