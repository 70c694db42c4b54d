-- ===== src/Server/World/Kept.antt =====
-- Each handler keeps the invariant `Keyed`; `after_exchange` under what its operation promises.
use lproxy.Base.Handler.Keeps.{Keeps, if-Keeps, bind-Keeps, read-Keeps}
use lproxy.Server.Pack.{pack_exchange, unpack_data, unpack_data_with}
use lproxy.Server.Left.{
  handle_packet, left_read, on_packet, on_exception, on_exchange, on_data, on_plain_data,
  on_connected_data, forward, on_hello, check_status,
}
use lproxy.Server.Answer.{socks5_request_processing, process_cmd}
use lproxy.Session.{
  other_exception, unsupported_version, illegal_data_type, incomplete_data, wrong_packet_type,
  wrong_lss_status, Exception, Status,
}
use lproxy.Packet.{RequestType, Packet}
use lproxy.Socks5.{connected, connecting, opening, Socks5State, Req}
use lproxy.Server.World.Keyed.{
  cancel-Keeps, say_and_cancel-Keeps, socks5_resp_to_local-Keeps, pieces, Keyed,
}
use lproxy.Server.State.{
  exchange_handler, write_left, issue, cmd_unsupport, cmd_udp, cmd_bind, cmd_connect,
  AfterRightWrite, Socks5Cmd, Answers, Env,
}
use lproxy.Base.{ℕ, Bool, true, false, Option, none, some, List, arith}
use lproxy.Base.Handler.{◌>>=◌}

module _ (env : Env) where
  process_cmd-Keeps :
      (answers : Answers) (cmd : ℕ) (name : List ℕ) (port : ℕ)
      → Keeps Keyed (process_cmd env answers cmd name port)
  unfolding process_cmd
  process_cmd-Keeps answers cmd name port = search (pieces, socks5_resp_to_local-Keeps) depth 14

  request-Keeps :
      (answers : Answers) (rq : Req) → Keeps Keyed (socks5_request_processing env answers rq)
  unfolding socks5_request_processing
  request-Keeps answers rq = search (pieces, process_cmd-Keeps) depth 14

  check_status-Keeps : (wanted : Status) → Keeps Keyed (check_status wanted)
  unfolding check_status
  check_status-Keeps wanted = search pieces depth 14

  on_hello-Keeps : (request : Packet) → Keeps Keyed (on_hello env request)
  unfolding on_hello
  on_hello-Keeps request = search (pieces, check_status-Keeps) depth 14

  forward-Keeps :
      (cmd : Socks5Cmd) (text name : List ℕ) (port : ℕ) (next : AfterRightWrite)
      → Keeps Keyed (forward env cmd text name port next)
  unfolding forward
  forward-Keeps cmd_connect text name port next = search pieces
  forward-Keeps cmd_bind text name port next = search pieces
  forward-Keeps cmd_udp text name port next = search pieces
  forward-Keeps cmd_unsupport text name port next = search pieces

  on_connected_data-Keeps :
      (text : List ℕ) (rest n : ℕ) (request : Packet)
      → Keeps Keyed (on_connected_data env text rest n request)
  unfolding on_connected_data
  on_connected_data-Keeps text rest n request = search (pieces, forward-Keeps) depth 14

  on_plain_data-Keeps :
      (answers : Answers) (state : Socks5State) (text : List ℕ) (rest n : ℕ) (request : Packet)
      → Keeps Keyed (on_plain_data env answers state text rest n request)
  unfolding on_plain_data
  on_plain_data-Keeps answers opening text rest n request = search (pieces, request-Keeps) depth 14
  on_plain_data-Keeps answers connecting text rest n request =
      search (pieces, request-Keeps) depth 14
  on_plain_data-Keeps answers connected text rest n request =
      on_connected_data-Keeps text rest n request

  unpack_data_with-Keeps :
      (o : Option (List ℕ)) (n : ℕ) (request : Packet)
      → Keeps Keyed (unpack_data_with env o n request)
  unfolding unpack_data_with
  unpack_data_with-Keeps none n request = search (pieces, say_and_cancel-Keeps)
  unpack_data_with-Keeps (some key) n request = search pieces

  unpack_data-Keeps :
      (n : ℕ) (request : Packet) (is_zip : Bool) → Keeps Keyed (unpack_data env n request is_zip)
  unfolding unpack_data
  unpack_data-Keeps n request is_zip =
      bind-Keeps Keyed _ _ (read-Keeps Keyed _ _) (λ o. unpack_data_with-Keeps o n request)

  on_data-Keeps :
      (answers : Answers) (is_zip : Bool) (n : ℕ) (request : Packet)
      → Keeps Keyed (on_data env answers is_zip n request)
  unfolding on_data
  on_data-Keeps answers is_zip n request =
      search (pieces, check_status-Keeps, unpack_data-Keeps, on_plain_data-Keeps) depth 14

  -- The exchange stores the key before it starts the write that promises it.
  exchange-Keeps :
      (answers : Answers) (auth_key random_str : List ℕ)
      → Keeps Keyed (
          pack_exchange env answers auth_key random_str >>= λ packet.
          issue (write_left packet exchange_handler))
  unfolding pack_exchange Keeps
  exchange-Keeps answers auth_key random_str s h = ground arith

  on_exchange-Keeps :
      (answers : Answers) (request : Packet) → Keeps Keyed (on_exchange env answers request)
  unfolding on_exchange
  on_exchange-Keeps answers request =
      search (pieces, check_status-Keeps, exchange-Keeps, say_and_cancel-Keeps) depth 14

  on_exception-Keeps :
      (n : ℕ) (request : Packet) (e : Exception) → Keeps Keyed (on_exception env n request e)
  unfolding on_exception
  on_exception-Keeps n request (wrong_lss_status a b) = search (pieces, cancel-Keeps)
  on_exception-Keeps n request wrong_packet_type = search pieces
  on_exception-Keeps n request (incomplete_data less) = search (pieces, say_and_cancel-Keeps)
  on_exception-Keeps n request illegal_data_type = search pieces
  on_exception-Keeps n request unsupported_version = search pieces
  on_exception-Keeps n request other_exception = search (pieces, cancel-Keeps)

  on_packet-Keeps :
      (answers : Answers) (t : RequestType) (n : ℕ) (request : Packet)
      → Keeps Keyed (on_packet env answers t n request)
  unfolding on_packet
  on_packet-Keeps answers RequestType.hello n request = on_hello-Keeps request
  on_packet-Keeps answers RequestType.exchange n request = on_exchange-Keeps answers request
  on_packet-Keeps answers RequestType.zipdata n request = on_data-Keeps answers true n request
  on_packet-Keeps answers RequestType.plain_data n request = on_data-Keeps answers false n request
  on_packet-Keeps answers RequestType.bad n request = cancel-Keeps
  on_packet-Keeps answers (RequestType.other c) n request = cancel-Keeps

  handle_packet-Keeps :
      (answers : Answers) (n : ℕ) (request : Packet)
      → Keeps Keyed (handle_packet env answers n request)
  unfolding handle_packet
  handle_packet-Keeps answers n request =
      search (pieces, on_packet-Keeps, on_exception-Keeps) depth 14

  pub left_read-Keeps :
      (answers : Answers) (error : Bool) (n : ℕ) (request : Packet) (rest : List ℕ)
      → Keeps Keyed (left_read env answers error n request rest)
  unfolding left_read
  left_read-Keeps answers error n request rest =
      if-Keeps Keyed error _ _ cancel-Keeps (handle_packet-Keeps answers _ _)
