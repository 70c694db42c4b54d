-- ===== src/Tunnel/Agreement/FarReads.antt =====
-- The reads of core/lss/session_server.cpp from the local end, in `status_data`, against `FarOpen`.
use lproxy.Base.{ℕ, ◌≡◌, ◌==◌, ap, ◌∙◌, Option, Bool, true, false, some, List, refl}
use lproxy.Base.Handler.Keeps.{Keeps, if-Keeps}
use lproxy.Packet.{RequestType, Packet}
use lproxy.Session.{
  other_exception, unsupported_version, illegal_data_type, incomplete_data, wrong_packet_type,
  wrong_lss_status, Exception, Status, assert_status, status_code, status_hello, status_auth,
}
use lproxy.Socks5.{connected, connecting, opening, Socks5State}
use lproxy.Local.State as Near
use lproxy.Server.State.{
  cmd_unsupport, cmd_udp, cmd_bind, cmd_connect, AfterRightWrite, Socks5Cmd, Answers, Env, Session,
}
use lproxy.Server.Pack.{unpack_data, unpack_data_with}
use lproxy.Server.Left.{
  handle_packet, left_read, on_packet, on_exception, on_exchange, on_data, on_plain_data,
  on_connected_data, forward, on_hello, check_status,
}
use lproxy.Tunnel.Agreement.FarKept.{Ok, rules, cancel-Keeps, request-Keeps}

module _ (near : Near.Env) (far : Env) (key : List ℕ) where
  elsewhere :
      (s : Session)
      → Ok near far key s
      → (wanted : Status) → (4 == status_code wanted) ≡ false
      → (status_code s.status == status_code wanted) ≡ false
  unfolding status_code
  elsewhere s h wanted e = ap (λ t. status_code t == status_code wanted) h.status ∙ e

  -- In `status_data` neither a hello nor an exchange is taken.
  on_hello-Keeps : (request : Packet) → Keeps (Ok near far key) (on_hello far request)
  unfolding Keeps on_hello check_status assert_status status_code
  on_hello-Keeps request s h = rw (elsewhere s h status_hello refl) h

  on_exchange-Keeps :
      (answers : Answers) (request : Packet)
      → Keeps (Ok near far key) (on_exchange far answers request)
  unfolding Keeps on_exchange check_status assert_status status_code
  on_exchange-Keeps answers request s h = rw (elsewhere s h status_auth refl) h

  check_status-Keeps : (wanted : Status) → Keeps (Ok near far key) (check_status wanted)
  unfolding check_status
  check_status-Keeps wanted = search rules depth 14

  forward-Keeps :
      (cmd : Socks5Cmd) (text name : List ℕ) (port : ℕ) (next : AfterRightWrite)
      → Keeps (Ok near far key) (forward far cmd text name port next)
  unfolding forward
  forward-Keeps cmd_connect text name port next = search rules
  forward-Keeps cmd_bind text name port next = search rules
  forward-Keeps cmd_udp text name port next = search rules
  forward-Keeps cmd_unsupport text name port next = search rules

  on_connected_data-Keeps :
      (text : List ℕ) (rest n : ℕ) (request : Packet)
      → Keeps (Ok near far key) (on_connected_data far text rest n request)
  unfolding on_connected_data
  on_connected_data-Keeps text rest n request = search (rules, forward-Keeps) depth 14

  on_plain_data-Keeps :
      (answers : Answers) (state : Socks5State) (text : List ℕ) (rest n : ℕ) (request : Packet)
      → Keeps (Ok near far key) (on_plain_data far answers state text rest n request)
  unfolding on_plain_data
  on_plain_data-Keeps answers opening text rest n request = search (rules, request-Keeps) depth 14
  on_plain_data-Keeps answers connecting text rest n request =
      search (rules, request-Keeps) depth 14
  on_plain_data-Keeps answers connected text rest n request =
      on_connected_data-Keeps text rest n request

  unpacked-FarOpen :
      (n : ℕ) (request : Packet) (o : Option (List ℕ)) (s : Session)
      → o ≡ some key
      → Ok near far key s
      → Ok near far key (unpack_data_with far o n request s).1
  unfolding unpack_data_with
  unpacked-FarOpen n request o s e h = rw e h

  unpack_data-Keeps :
      (n : ℕ) (request : Packet) (is_zip : Bool)
      → Keeps (Ok near far key) (unpack_data far n request is_zip)
  unfolding Keeps unpack_data
  unpack_data-Keeps n request is_zip s h = unpacked-FarOpen n request s.aes_encryptor s h.held h

  on_data-Keeps :
      (answers : Answers) (is_zip : Bool) (n : ℕ) (request : Packet)
      → Keeps (Ok near far key) (on_data far answers is_zip n request)
  unfolding on_data
  on_data-Keeps answers is_zip n request =
      search (rules, check_status-Keeps, unpack_data-Keeps, on_plain_data-Keeps) depth 14

  on_exception-Keeps :
      (n : ℕ) (request : Packet) (e : Exception)
      → Keeps (Ok near far key) (on_exception far n request e)
  unfolding on_exception
  on_exception-Keeps n request (wrong_lss_status a b) = cancel-Keeps near far key
  on_exception-Keeps n request wrong_packet_type = search rules
  on_exception-Keeps n request (incomplete_data less) = search rules
  on_exception-Keeps n request illegal_data_type = search rules
  on_exception-Keeps n request unsupported_version = search rules
  on_exception-Keeps n request other_exception = cancel-Keeps near far key

  on_packet-Keeps :
      (answers : Answers) (t : RequestType) (n : ℕ) (request : Packet)
      → Keeps (Ok near far key) (on_packet far answers t n request)
  unfolding on_packet
  on_packet-Keeps answers RequestType.hello n request = on_hello-Keeps request
  on_packet-Keeps answers RequestType.exchange n request = on_exchange-Keeps answers request
  on_packet-Keeps answers RequestType.zipdata n request = on_data-Keeps answers true n request
  on_packet-Keeps answers RequestType.plain_data n request = on_data-Keeps answers false n request
  on_packet-Keeps answers RequestType.bad n request = cancel-Keeps near far key
  on_packet-Keeps answers (RequestType.other c) n request = cancel-Keeps near far key

  handle_packet-Keeps :
      (answers : Answers) (n : ℕ) (request : Packet)
      → Keeps (Ok near far key) (handle_packet far answers n request)
  unfolding handle_packet
  handle_packet-Keeps answers n request =
      search (rules, on_packet-Keeps, on_exception-Keeps) depth 14

  pub left_read-Keeps :
      (answers : Answers) (error : Bool) (n : ℕ) (request : Packet) (rest : List ℕ)
      → Keeps (Ok near far key) (left_read far answers error n request rest)
  unfolding left_read
  left_read-Keeps answers error n request rest =
      if-Keeps _ error _ _ (cancel-Keeps near far key) (handle_packet-Keeps answers _ _)
