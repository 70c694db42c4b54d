-- ===== src/Local/Right.antt =====
-- The handlers of the side of the server: `start`, `resolve_handler`, `connect_handler`, those
-- bound to writes, and `right_read_handler` with the packets that it tells apart.
use lproxy.Base.{cond, ℕ, ◌-◌, Bool, true, false, ltb, ◌&&◌, if◌then◌else◌, List, [], ◌∷◌, bytes_eq}
use lproxy.Base.Handler.{ret, lift, raise, update, read, try_catch, ◌>>=◌, ◌>>◌}
use lproxy.Packet.{Packet, ReplyType, reply_type}
use lproxy.Session.{
  negated, max_length, length_handshake, Status, status_connected, status_hello, status_auth,
  status_data, Exception, wrong_lss_status, wrong_packet_type, incomplete_data, illegal_data_type,
  unsupported_version, other_exception, assert_status, lss_pack_integrity_check, cut_lss, rectify,
  trim_incomplete, is_positive, is_negative, to_size,
}
use lproxy.Local.State.{
  M, Env, hello_handler, exchange_handler, left_write_handler, right_read_handler,
  left_read_socks5_step1, resolve_right, connect_any, connect_right, read_right, read_right_rest,
  write_right, read_left, write_left, close_left, close_right, issue, cancel,
}
use lproxy.Local.Pack.{
  pack_hello, pack_exchange, unpack_reply_hello, unpack_reply_exchange, unpack_reply_data,
}

-- `hello_handler`.
unfoldable pub after_hello : Bool → M (Unit {0})
unfolding cancel
after_hello error =
    if error
    then cancel
    else (do issue (read_right length_handshake); update (λ s. record s { status = status_hello }))

-- `exchange_handler`.
unfoldable pub after_exchange : Bool → M (Unit {0})
unfolding cancel
after_exchange error =
    if error
    then cancel
    else (do issue (read_right length_handshake); update (λ s. record s { status = status_auth }))

-- `left_write_handler`.
unfoldable pub after_left_write : Bool → M (Unit {0})
unfolding cancel
after_left_write error = if error then cancel else issue (read_right max_length)

-- `resolve_handler`; `async_connect` tries the endpoints one after the other.
unfoldable pub resolved : Bool → List ℕ → M (Unit {0})
unfolding cancel
resolved error endpoints = if error then cancel else issue (connect_any endpoints)

-- `connect_handler`, with the endpoints from its iterator on.
unfoldable pub right_connected : Bool → List ℕ → M (Unit {0})
unfolding cancel pack_hello
right_connected false endpoints = do
  update (λ s. record s { status = status_connected })
  issue (write_right pack_hello hello_handler)
right_connected true (endpoint ∷ rest) = do issue close_right; issue (connect_right endpoint rest)
right_connected true [] = cancel

-- `close`, with what `is_open` answers for the two sockets.
unfoldable pub close : Bool → Bool → M (Unit {0})
close left right = do cond left (issue close_left) (ret tt); cond right (issue close_right) (ret tt)

unfoldable pub check_status : Status → M (Unit {0})
unfolding assert_status
check_status wanted = do status ← read (λ s. s.status); lift (assert_status status wanted)

module _ (env : Env) where
  -- `start`.
  unfoldable pub start : Bool → M (Unit {0})
  start endpoint_error =
      if endpoint_error
      then ret tt
      else issue (resolve_right env.config.server_name env.config.server_port)

  unfoldable pub on_hello : (ℕ → ℕ) → Packet → M (Unit {0})
  unfolding check_status
  on_hello rand reply = do
    check_status status_hello
    unpacked ← lift (unpack_reply_hello reply)
    request ← pack_exchange env rand unpacked.0 unpacked.1
    issue (write_right request exchange_handler)

  -- The server is one that knows the key only if it sends the random string back.
  unfoldable pub verified : List ℕ → List ℕ → M (Unit {0})
  unfolding cancel
  verified reply_random_str random_str =
      if bytes_eq reply_random_str random_str
      then (do
        issue (read_left max_length left_read_socks5_step1)
        update (λ s. record s { status = status_data }))
      else cancel

  unfoldable pub on_exchange : Packet → M (Unit {0})
  unfolding check_status verified
  on_exchange reply = do
    check_status status_auth
    reply_random_str ← unpack_reply_exchange env reply
    random_str ← read (λ s. s.random_str)
    verified reply_random_str random_str

  unfoldable pub on_data : Bool → ℕ → Packet → M (Unit {0})
  unfolding check_status is_negative to_size
  on_data is_zip_data bytes_transferred reply = do
    check_status status_data
    unpacked ← unpack_reply_data env bytes_transferred reply is_zip_data
    cond (is_negative unpacked.1) (raise (incomplete_data (negated unpacked.1))) (ret tt)
    let rest = to_size unpacked.1
    let cut = cut_lss (bytes_transferred - rest) bytes_transferred reply
    issue (
        write_left unpacked.0
          (if ltb 0 rest && cut.0 then right_read_handler rest cut.1 else left_write_handler))

  -- The `switch` on the packet's type.
  unfoldable pub on_packet : (ℕ → ℕ) → ReplyType → ℕ → Packet → M (Unit {0})
  unfolding on_hello on_exchange on_data cancel
  on_packet rand ReplyType.hello n reply = on_hello rand reply
  on_packet rand ReplyType.exchange n reply = on_exchange reply
  on_packet rand ReplyType.deny n reply = cancel
  on_packet rand ReplyType.timeout n reply = cancel
  on_packet rand ReplyType.zipdata n reply = on_data true n reply
  on_packet rand ReplyType.plain_data n reply = on_data false n reply
  on_packet rand ReplyType.bad n reply = cancel
  on_packet rand (ReplyType.other c) n reply = cancel

  -- The `catch` clauses.
  unfoldable pub on_exception : ℕ → Packet → Exception → M (Unit {0})
  unfolding cancel is_positive to_size
  on_exception n reply wrong_packet_type = cancel
  on_exception n reply (incomplete_data less) =
      if is_positive less
      then issue (read_right_rest (to_size less) (trim_incomplete n reply))
      else cancel
  on_exception n reply (wrong_lss_status wanted current) = cancel
  on_exception n reply illegal_data_type = cancel
  on_exception n reply unsupported_version = cancel
  on_exception n reply other_exception = cancel

  unfoldable pub handle_packet : (ℕ → ℕ) → ℕ → Packet → M (Unit {0})
  unfolding on_packet on_exception
  handle_packet rand n reply =
      try_catch
        (do lift (lss_pack_integrity_check n reply); on_packet rand (reply_type reply) n reply)
        (on_exception n reply)

  -- `right_read_handler`.
  unfoldable pub right_read : (ℕ → ℕ) → Bool → ℕ → Packet → List ℕ → M (Unit {0})
  unfolding handle_packet cancel
  right_read rand error bytes_transferred reply rest =
      let rectified = rectify bytes_transferred reply rest in
      if error then cancel else handle_packet rand rectified.0 rectified.1
