-- ===== src/Local/Left.antt =====
-- The handlers of the side of the client: `left_read_socks5_step1`,
-- `left_write_socks5_step1_handler`, `left_read_handler`, `left_read_timeout_handler` and
-- `right_write_handler`.
use lproxy.Base.{Bool, ℕ, if◌then◌else◌, some, List, ok, throw, fault}
use lproxy.Base.Handler.{lift, raise, ◌>>=◌, ◌>>◌}
use lproxy.Session.{
  max_length, length_handshake, illegal_data_type, unsupported_version, wrong_lss_status,
  wrong_packet_type, incomplete_data, other_exception, Result,
}
use lproxy.Socks5.{IdentReq, ident_req, ident_resp_pack}
use lproxy.Local.State.{
  M, Env, right_write_handler, cancel_handler, left_write_socks5_step1_handler, left_read_handler,
  read_right, write_right, read_left, write_left, issue, cancel,
}
use lproxy.Local.Pack.{pack_bad, pack_data}

-- `async_write(socket_right, pack_bad().buffers(), cancel)`.
abbrev pub say_bad_and_cancel : M (Unit {0})
say_bad_and_cancel = issue (write_right pack_bad cancel_handler)

-- The `try` block of `left_read_socks5_step1`: only the two exceptions of SOCKS are caught.
unfoldable pub greeted : Result IdentReq → M (Unit {0})
greeted (ok ir) = issue (write_left (ident_resp_pack (some ir)) left_write_socks5_step1_handler)
greeted (throw illegal_data_type) = say_bad_and_cancel
greeted (throw unsupported_version) = say_bad_and_cancel
greeted (throw (wrong_lss_status wanted current)) = raise (wrong_lss_status wanted current)
greeted (throw wrong_packet_type) = raise wrong_packet_type
greeted (throw (incomplete_data less)) = raise (incomplete_data less)
greeted (throw other_exception) = raise other_exception
greeted fault = lift fault

-- `data_left` is the whole buffer of `max_length` bytes, zeros behind what was read.
unfoldable pub socks5_step1_read : Bool → List ℕ → M (Unit {0})
unfolding greeted
socks5_step1_read error data_left =
    if error then say_bad_and_cancel else greeted (ident_req (some data_left))

unfoldable pub socks5_step1_written : Bool → M (Unit {0})
socks5_step1_written error =
    if error
    then say_bad_and_cancel
    else (do issue (read_left max_length left_read_handler); issue (read_right length_handshake))

-- `right_write_handler`.
unfoldable pub after_right_write : Bool → M (Unit {0})
unfolding cancel
after_right_write error = if error then cancel else issue (read_left max_length left_read_handler)

-- `left_read_timeout_handler`.
unfoldable pub left_read_timeout : M (Unit {0})
unfolding cancel
left_read_timeout = cancel

-- `left_read_handler`.
unfoldable pub left_read : Env → Bool → ℕ → List ℕ → M (Unit {0})
left_read env error bytes_transferred data_left = if error then say_bad_and_cancel else (do
  request ← pack_data env data_left bytes_transferred
  issue (write_right request right_write_handler))
