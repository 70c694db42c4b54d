-- ===== src/Server/Left.antt =====
-- The handlers of the left side: `start`, `left_read_handler` with the packets that it tells
-- apart, and what is bound to the writes to the left.
use lproxy.Base.{
  cond, ℕ, ◌-◌, Bool, true, false, ltb, ◌==◌, ◌&&◌, if◌then◌else◌, some, List, contains,
}
use lproxy.Base.Handler.{ret, lift, raise, update, read, try_catch, ◌>>=◌, ◌>>◌}
use lproxy.Packet.{Packet, RequestType, request_type, data_len}
use lproxy.Session.{
  negated, length_handshake, Status, status_connected, status_hello, status_auth, status_data,
  Exception, wrong_lss_status, wrong_packet_type, incomplete_data, illegal_data_type,
  unsupported_version, other_exception, assert_status, lss_pack_integrity_check, cut_lss, rectify,
  trim_incomplete, is_positive, is_negative, to_size,
}
use lproxy.Socks5.{Socks5State, opening, connecting, connected, req}
use lproxy.Server.State.{
  AfterRightWrite, AfterRightWrite, M, Env, Answers, Socks5Cmd, cmd_connect, cmd_bind, cmd_udp,
  cmd_unsupport, read_left, read_left_rest, write_left, write_right_tcp, send_right_udp,
  left_read_handler, right_write_handler, hello_handler, exchange_handler, issue, cancel,
}
use lproxy.Server.Pack.{
  pack_bad, pack_deny, pack_hello, pack_exchange, unpack_request_exchange, unpack_data,
  say_and_cancel,
}
use lproxy.Server.Answer.{socks5_request_processing}

-- `remote_endpoint` fails where the client has gone.
unfoldable pub start : Bool → M (Unit {0})
start endpoint_error = if endpoint_error then ret tt else (do
  update (λ s. record s { status = status_connected })
  issue (read_left length_handshake)
  update (λ s. record s { status = status_hello }))

unfoldable pub check_status : Status → M (Unit {0})
unfolding assert_status
check_status wanted = do status ← read (λ s. s.status); lift (assert_status status wanted)

module _ (env : Env) where
  unfoldable pub on_hello : Packet → M (Unit {0})
  unfolding check_status
  on_hello request = do
    check_status status_hello
    cond (data_len request == 0) (issue (write_left (pack_hello env) hello_handler))
        (raise wrong_packet_type)

  unfoldable pub on_exchange : Answers → Packet → M (Unit {0})
  unfolding check_status
  on_exchange answers request = do
    check_status status_auth
    unpacked ← lift (unpack_request_exchange env request)
    cond (contains env.config.cipher_auth_key_set unpacked.0)
        (do
          packet ← pack_exchange env answers unpacked.0 unpacked.1
          issue (write_left packet exchange_handler))
        (say_and_cancel pack_deny)

  -- Plain data for the remote host, by command; `next` is what is bound to the write.
  unfoldable pub forward : Socks5Cmd → List ℕ → List ℕ → ℕ → AfterRightWrite → M (Unit {0})
  forward cmd_connect text name port next = issue (write_right_tcp text next)
  forward cmd_bind text name port next = say_and_cancel pack_bad
  forward cmd_udp text name port next =
      if env.is_address name
      then issue (send_right_udp text name port next)
      else raise other_exception
  forward cmd_unsupport text name port next = say_and_cancel pack_bad

  unfoldable pub on_connected_data : List ℕ → ℕ → ℕ → Packet → M (Unit {0})
  unfolding forward
  on_connected_data text rest bytes_transferred request = do
    cmd ← read (λ s. s.socks5_cmd)
    name ← read (λ s. s.dest_name)
    port ← read (λ s. s.dest_port)
    let cut = cut_lss (bytes_transferred - rest) bytes_transferred request
    forward cmd text name port
        (if ltb 0 rest && cut.0 then left_read_handler rest cut.1 else right_write_handler)

  -- In the state `opening` the code moves on to `connecting` and falls through.
  unfoldable pub on_plain_data : Answers → Socks5State → List ℕ → ℕ → ℕ → Packet → M (Unit {0})
  unfolding on_connected_data
  on_plain_data answers opening text rest bytes_transferred request = do
    update (λ s. record s { socks5_state = connecting })
    rq ← lift (req (some text))
    socks5_request_processing env answers rq
  on_plain_data answers connecting text rest bytes_transferred request = do
    rq ← lift (req (some text))
    socks5_request_processing env answers rq
  on_plain_data answers connected text rest bytes_transferred request =
      on_connected_data text rest bytes_transferred request

  unfoldable pub on_data : Answers → Bool → ℕ → Packet → M (Unit {0})
  unfolding check_status on_plain_data is_negative to_size
  on_data answers is_zip_data bytes_transferred request = do
    check_status status_data
    unpacked ← unpack_data env bytes_transferred request is_zip_data
    cond (is_negative unpacked.1) (raise (incomplete_data (negated unpacked.1))) (ret tt)
    state ← read (λ s. s.socks5_state)
    on_plain_data answers state unpacked.0 (to_size unpacked.1) bytes_transferred request

  -- The `switch` on the packet's type.
  unfoldable pub on_packet : Answers → RequestType → ℕ → Packet → M (Unit {0})
  unfolding on_hello on_exchange on_data cancel
  on_packet answers RequestType.hello n request = on_hello request
  on_packet answers RequestType.exchange n request = on_exchange answers request
  on_packet answers RequestType.zipdata n request = on_data answers true n request
  on_packet answers RequestType.plain_data n request = on_data answers false n request
  on_packet answers RequestType.bad n request = cancel
  on_packet answers (RequestType.other c) n request = cancel

  -- The `catch` clauses.
  unfoldable pub on_exception : ℕ → Packet → Exception → M (Unit {0})
  unfolding cancel is_positive to_size
  on_exception n request wrong_packet_type = say_and_cancel pack_bad
  on_exception n request (incomplete_data less) =
      if is_positive less
      then issue (read_left_rest (to_size less) (trim_incomplete n request))
      else say_and_cancel pack_bad
  on_exception n request illegal_data_type = say_and_cancel pack_bad
  on_exception n request unsupported_version = say_and_cancel pack_bad
  on_exception n request (wrong_lss_status wanted current) = cancel
  on_exception n request other_exception = cancel

  unfoldable pub handle_packet : Answers → ℕ → Packet → M (Unit {0})
  unfolding on_packet on_exception
  handle_packet answers n request =
      try_catch
        (do
          lift (lss_pack_integrity_check n request)
          on_packet answers (request_type request) n request)
        (on_exception n request)

  unfoldable pub left_read : Answers → Bool → ℕ → Packet → List ℕ → M (Unit {0})
  unfolding handle_packet cancel
  left_read answers error bytes_transferred request rest =
      let rectified = rectify bytes_transferred request rest in
      if error then cancel else handle_packet answers rectified.0 rectified.1
