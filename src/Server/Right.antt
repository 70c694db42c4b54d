-- ===== src/Server/Right.antt =====
-- The handlers of the right side, and those bound to writes to the left: `hello_handler`,
-- `exchange_handler`, `left_write_handler`, `right_write_handler`, `right_read_handler`, the
-- resolvers, the connections and the timer.
use lproxy.Base.{
  cond, ℕ, Bool, true, false, not, ◌&&◌, leb, ◌==◌, if◌then◌else◌, List, [], ◌∷◌, Outcome, ok,
  fault,
}
use lproxy.Base.Handler.{ret, lift, raise, update, ◌>>=◌, ◌>>◌}
use lproxy.Session.{
  Exception, max_length, length_handshake, other_exception, status_auth, status_data, status_code,
}
use lproxy.Socks5.{Socks5State, opening, connecting, connected}
use lproxy.Server.State.{
  M, Env, Answers, Socks5Cmd, cmd_connect, cmd_bind, cmd_udp, cmd_unsupport, read_left, write_left,
  left_write_handler, read_right_tcp, receive_right_udp, connect_tcp, connect_udp, wait_timer,
  cancel_timer, close_left, close_right_tcp, close_right_udp, issue, cancel,
}
use lproxy.Server.Pack.{pack_bad, pack_timeout, pack_data, say_and_cancel}
use lproxy.Server.Answer.{socks5_resp_to_local}

-- `hello_handler`.
unfoldable pub after_hello : Bool → M (Unit {0})
unfolding cancel
after_hello error =
    if error
    then cancel
    else (do issue (read_left length_handshake); update (λ s. record s { status = status_auth }))

-- `exchange_handler`.
unfoldable pub after_exchange : Bool → M (Unit {0})
unfolding cancel
after_exchange error =
    if error
    then cancel
    else (do issue (read_left length_handshake); update (λ s. record s { status = status_data }))

-- The `switch` of `left_write_handler`, where the name must read as an address, and that of
-- `right_write_handler`.
unfoldable pub read_right : Env → Socks5Cmd → List ℕ → ℕ → M (Unit {0})
read_right env cmd_connect name port = issue (read_right_tcp max_length)
read_right env cmd_udp name port =
    if env.is_address name
    then issue (receive_right_udp max_length name port)
    else raise other_exception
read_right env cmd_bind name port = say_and_cancel pack_bad
read_right env cmd_unsupport name port = say_and_cancel pack_bad

unfoldable pub read_left_again : Socks5Cmd → M (Unit {0})
read_left_again cmd_connect = issue (read_left max_length)
read_left_again cmd_udp = issue (read_left max_length)
read_left_again cmd_bind = say_and_cancel pack_bad
read_left_again cmd_unsupport = say_and_cancel pack_bad

unfoldable pub is_connected : Socks5State → Bool
is_connected connected = true
is_connected opening = false
is_connected connecting = false

-- `left_write_handler`.
unfoldable pub after_left_write : Env → Bool → M (Unit {0})
unfolding cancel read_right is_connected status_code
after_left_write env error s =
    if error
    then cancel s
    else if leb (status_code status_data) (status_code s.status)
        && not (s.socks5_resp_reply == 0x00)
    then cancel s
    else if is_connected s.socks5_state
    then read_right env s.socks5_cmd s.dest_name s.dest_port s
    else issue (read_left length_handshake) s

-- `right_write_handler`.
unfoldable pub after_right_write : Bool → M (Unit {0})
unfolding read_left_again
after_right_write error s =
    if error then say_and_cancel pack_bad s else read_left_again s.socks5_cmd s

module _ (env : Env) where
  -- `right_read_handler`.
  unfoldable pub right_read : Bool → ℕ → List ℕ → M (Unit {0})
  right_read error bytes_transferred data_right = if error then say_and_cancel pack_bad else (do
    packet ← pack_data env data_right bytes_transferred
    issue (write_left packet left_write_handler))

  -- `right_read_timeout_handler`: whether the error is `operation_aborted`.
  unfoldable pub right_read_timeout : Bool → M (Unit {0})
  unfolding cancel
  right_read_timeout aborted = if aborted then cancel else say_and_cancel pack_timeout

  -- The lambda bound to the timer: an error, or an expiry that was moved, ends it.
  unfoldable pub timer_expired : Bool → Bool → M (Unit {0})
  timer_expired error moved =
      if error then ret tt else if moved then ret tt else say_and_cancel pack_timeout

  -- The reply code of a failure, and the answer to the local end.
  unfoldable pub answer_with : ℕ → M (Unit {0})
  answer_with reply = do
    update (λ s. record s { socks5_resp_reply = reply })
    socks5_resp_to_local env

  -- `tcp_resolve_handler`. On success asio gives at least one endpoint.
  unfoldable pub tcp_resolved : Bool → List ℕ → M (Unit {0})
  unfolding answer_with
  tcp_resolved true endpoints = do issue cancel_timer; answer_with 0x04
  tcp_resolved false [] = do issue cancel_timer; issue (wait_timer env.config.timeout); lift fault
  tcp_resolved false (endpoint ∷ rest) = do
    issue cancel_timer
    issue (wait_timer env.config.timeout)
    issue (connect_tcp endpoint rest)

  -- `udp_resolve_handler`.
  unfoldable pub udp_resolved : Bool → List ℕ → M (Unit {0})
  unfolding answer_with
  udp_resolved true endpoints = answer_with 0x04
  udp_resolved false [] = lift fault
  udp_resolved false (endpoint ∷ rest) = issue (connect_udp endpoint rest)

  -- `tcp_connect_handler`, with the endpoints that are left.
  unfoldable pub tcp_connected : Bool → List ℕ → M (Unit {0})
  unfolding answer_with
  tcp_connected false rest = do issue cancel_timer; answer_with 0x00
  tcp_connected true (endpoint ∷ rest) = do
    issue cancel_timer
    issue close_right_tcp
    issue (wait_timer env.config.timeout)
    issue (connect_tcp endpoint rest)
  tcp_connected true [] = do issue cancel_timer; answer_with 0x03

  -- `*endpoint_iterator`, which is not defined at the end.
  unfoldable pub dereferenced : List ℕ → Outcome Exception ℕ
  dereferenced [] = fault
  dereferenced (endpoint ∷ rest) = ok endpoint

  -- `udp_connect_handler`, with the endpoints from the iterator on; `address_of` is
  -- `endpoint.address().to_string()`.
  unfoldable pub udp_connected : (ℕ → List ℕ) → Answers → Bool → List ℕ → M (Unit {0})
  unfolding answer_with dereferenced
  udp_connected address_of answers false endpoints = do
    endpoint ← lift (dereferenced endpoints)
    update (λ s. record s { dest_name = address_of endpoint })
    answer_with (cond answers.udp_open_error 0x01 0x00)
  udp_connected address_of answers true (endpoint ∷ rest) = do
    issue close_right_udp
    issue (connect_udp endpoint rest)
  udp_connected address_of answers true [] = answer_with 0x03

-- `close`, with what `is_open` answers for the three sockets.
unfoldable pub close : Bool → Bool → Bool → M (Unit {0})
close left tcp udp = do
  issue cancel_timer
  cond left (issue close_left) (ret tt)
  cond tcp (issue close_right_tcp) (ret tt)
  cond udp (issue close_right_udp) (ret tt)
