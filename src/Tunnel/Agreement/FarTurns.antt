-- ===== src/Tunnel/Agreement/FarTurns.antt =====
-- The completions of the server in `status_data`, against `FarOpen`.
use mathlib.Core.Bool.{true≢false}
use lproxy.Base.{
  if◌then◌else◌, Outcome, leb, not, ◌==◌, ◌&&◌, ℕ, Bool, true, false, ◌≡◌, refl, some, List, [],
  ◌∷◌, ◌++◌,
}
use lproxy.Base.Handler.Keeps.{Keeps}
use lproxy.Packet.{Packet}
use lproxy.Session.{length_handshake, Exception, status_code, status_data}
use lproxy.Local.State as Near
use lproxy.Server.State.{
  close_right_udp, close_right_tcp, close_left, cancel_right_udp, cancel_right_tcp, cancel_left,
  cancel_timer, wait_timer, connect_udp, connect_tcp, resolve_udp, resolve_tcp, receive_right_udp,
  read_right_tcp, send_right_udp, write_right_tcp, write_left, read_left_rest, Op,
  right_write_handler, left_read_handler, cancel_handler, left_write_handler, exchange_handler,
  hello_handler, AfterRightWrite, AfterLeftWrite, cancel, issue, cmd_unsupport, cmd_bind, cmd_udp,
  cmd_connect, Socks5Cmd, read_left, Session, Answers, Env,
}
use lproxy.Server.Pack.{say_and_cancel, pack_bad}
use lproxy.Server.Right.{
  is_connected, read_right, read_left_again, timer_expired, udp_connected, tcp_connected,
  udp_resolved, tcp_resolved, answer_with, right_read, after_right_write, after_left_write,
  after_exchange,
}
use lproxy.Server.World.{complete, handler, after_right, after_left, Completion}
use lproxy.Tunnel.Agreement.{FarOpen, FarSound, greets}
use lproxy.Tunnel.Agreement.NearTurns.{All-without}
use lproxy.Tunnel.Agreement.FarKept.{
  Ok, rules, issue-Keeps, cancel-Keeps, answer-Keeps, packed-Keeps, bad-Sound,
}
use lproxy.Tunnel.Agreement.FarReads.{left_read-Keeps}

module _ (near : Near.Env) (far : Env) (key : List ℕ) where
  abbrev Ended : Type 0
  Ended = Outcome Exception (Unit {0}) × Session

  if-FarOpen :
      (b : Bool) (p q : Ended)
      → FarOpen near far key p.1
      → FarOpen near far key q.1
      → FarOpen near far key (if b then p else q).1
  if-FarOpen true p q hp hq = hp
  if-FarOpen false p q hp hq = hq

  say_bad-Keeps : Keeps (Ok near far key) (say_and_cancel pack_bad)
  say_bad-Keeps = issue-Keeps near far key _ (bad-Sound near far (some key)) refl

  after_exchange-Keeps : (error : Bool) → Keeps (Ok near far key) (after_exchange error)
  unfolding after_exchange Keeps
  after_exchange-Keeps true s h = cancel-Keeps near far key s h
  after_exchange-Keeps false s h =
      let r = issue-Keeps near far key (read_left length_handshake) tt refl s h in
      record { held = r.held; status = refl; sound = r.sound; no_hello = r.no_hello }

  read_left_again-Keeps : (cmd : Socks5Cmd) → Keeps (Ok near far key) (read_left_again cmd)
  unfolding read_left_again
  read_left_again-Keeps cmd_connect = search rules
  read_left_again-Keeps cmd_udp = search rules
  read_left_again-Keeps cmd_bind = say_bad-Keeps
  read_left_again-Keeps cmd_unsupport = say_bad-Keeps

  after_right_write-Keeps : (error : Bool) → Keeps (Ok near far key) (after_right_write error)
  unfolding after_right_write Keeps
  after_right_write-Keeps error s h =
      if-FarOpen error (say_and_cancel pack_bad s) (read_left_again s.socks5_cmd s)
        (say_bad-Keeps s h) (read_left_again-Keeps s.socks5_cmd s h)

  read_right-Keeps :
      (cmd : Socks5Cmd) (name : List ℕ) (port : ℕ)
      → Keeps (Ok near far key) (read_right far cmd name port)
  unfolding read_right
  read_right-Keeps cmd_connect name port = search rules
  read_right-Keeps cmd_udp name port = search rules
  read_right-Keeps cmd_bind name port = say_bad-Keeps
  read_right-Keeps cmd_unsupport name port = say_bad-Keeps

  after_left_write-Keeps : (error : Bool) → Keeps (Ok near far key) (after_left_write far error)
  unfolding after_left_write Keeps
  after_left_write-Keeps error s h =
      let told = read_right far s.socks5_cmd s.dest_name s.dest_port s in
      let again = issue (read_left length_handshake) s in
      let go = if is_connected s.socks5_state then told else again in
      let refused =
        leb (status_code status_data) (status_code s.status) && not (s.socks5_resp_reply == 0x00) in
      if-FarOpen error (cancel s) (if refused then cancel s else go) (cancel-Keeps near far key s h)
        (if-FarOpen refused (cancel s) go (cancel-Keeps near far key s h) (
          if-FarOpen (is_connected s.socks5_state) told again
            (read_right-Keeps s.socks5_cmd s.dest_name s.dest_port s h)
            (issue-Keeps near far key (read_left length_handshake) tt refl s h)))

  right_read-Keeps :
      (error : Bool) (n : ℕ) (text : List ℕ) → Keeps (Ok near far key) (right_read far error n text)
  unfolding right_read
  right_read-Keeps error n text = search (rules, packed-Keeps) depth 14

  answer_with-Keeps : (reply : ℕ) → Keeps (Ok near far key) (answer_with far reply)
  unfolding answer_with
  answer_with-Keeps reply = search (rules, answer-Keeps) depth 14

  tcp_resolved-Keeps :
      (error : Bool) (es : List ℕ) → Keeps (Ok near far key) (tcp_resolved far error es)
  unfolding tcp_resolved
  tcp_resolved-Keeps true es = search (rules, answer_with-Keeps) depth 14
  tcp_resolved-Keeps false [] = search rules depth 14
  tcp_resolved-Keeps false (e ∷ es) = search rules depth 14

  udp_resolved-Keeps :
      (error : Bool) (es : List ℕ) → Keeps (Ok near far key) (udp_resolved far error es)
  unfolding udp_resolved
  udp_resolved-Keeps true es = answer_with-Keeps 4
  udp_resolved-Keeps false [] = search rules
  udp_resolved-Keeps false (e ∷ es) = search rules

  tcp_connected-Keeps :
      (error : Bool) (es : List ℕ) → Keeps (Ok near far key) (tcp_connected far error es)
  unfolding tcp_connected
  tcp_connected-Keeps false es = search (rules, answer_with-Keeps) depth 14
  tcp_connected-Keeps true [] = search (rules, answer_with-Keeps) depth 14
  tcp_connected-Keeps true (e ∷ es) = search rules depth 14

  udp_connected-Keeps :
      (address_of : ℕ → List ℕ) (answers : Answers) (error : Bool) (es : List ℕ)
      → Keeps (Ok near far key) (udp_connected far address_of answers error es)
  unfolding udp_connected
  udp_connected-Keeps address_of answers false [] = search rules
  udp_connected-Keeps address_of answers false (e ∷ es) = search (rules, answer_with-Keeps) depth 14
  udp_connected-Keeps address_of answers true [] = answer_with-Keeps 3
  udp_connected-Keeps address_of answers true (e ∷ es) = search rules depth 14

  timer_expired-Keeps :
      (error moved : Bool) → Keeps (Ok near far key) (timer_expired far error moved)
  unfolding timer_expired
  timer_expired-Keeps error moved = search rules depth 14

  after_right-Keeps :
      (next : AfterRightWrite) (c : Completion) → Keeps (Ok near far key) (after_right far next c)
  unfolding after_right
  after_right-Keeps (left_read_handler n packet) c =
      left_read-Keeps near far key c.answers c.error n packet []
  after_right-Keeps right_write_handler c = after_right_write-Keeps c.error

  after_left-Keeps :
      (next : AfterLeftWrite) (p : Packet) (c : Completion)
      → greets (write_left p next) ≡ false
      → Keeps (Ok near far key) (after_left far next c)
  unfolding after_left
  after_left-Keeps hello_handler p c e = absurd (true≢false e)
  after_left-Keeps exchange_handler p c e = after_exchange-Keeps c.error
  after_left-Keeps left_write_handler p c e = after_left_write-Keeps c.error
  after_left-Keeps cancel_handler p c e = cancel-Keeps near far key

  handler-Keeps :
      (op : Op) (c : Completion) → greets op ≡ false → Keeps (Ok near far key) (handler far op c)
  unfolding handler
  handler-Keeps (read_left n) c k =
      left_read-Keeps near far key c.answers c.error c.bytes c.packet []
  handler-Keeps (read_left_rest n packet) c k =
      left_read-Keeps near far key c.answers c.error c.bytes packet c.bytes_read
  handler-Keeps (write_left packet bound) c k = after_left-Keeps bound packet c k
  handler-Keeps (write_right_tcp text bound) c k = after_right-Keeps bound c
  handler-Keeps (send_right_udp text name port bound) c k = after_right-Keeps bound c
  handler-Keeps (read_right_tcp n) c k = right_read-Keeps c.error c.bytes c.bytes_read
  handler-Keeps (receive_right_udp n name port) c k = right_read-Keeps c.error c.bytes c.bytes_read
  handler-Keeps (resolve_tcp name port) c k = tcp_resolved-Keeps c.error c.endpoints
  handler-Keeps (resolve_udp name port) c k = udp_resolved-Keeps c.error c.endpoints
  handler-Keeps (connect_tcp endpoint rest) c k = tcp_connected-Keeps c.error rest
  handler-Keeps (connect_udp endpoint rest) c k =
      udp_connected-Keeps c.address_of c.answers c.error rest
  handler-Keeps (wait_timer seconds) c k = timer_expired-Keeps c.error c.expiry_moved
  handler-Keeps cancel_timer c k = search rules
  handler-Keeps cancel_left c k = search rules
  handler-Keeps cancel_right_tcp c k = search rules
  handler-Keeps cancel_right_udp c k = search rules
  handler-Keeps close_left c k = search rules
  handler-Keeps close_right_tcp c k = search rules
  handler-Keeps close_right_udp c k = search rules

  -- In `status_data` every completion keeps the status, the data key and the soundness of what is
  -- pending.
  pub complete-FarOpen :
      (s : Session) (before : List Op) (op : Op) (rest : List Op) (c : Completion)
      → s.issued ≡ before ++ op ∷ rest
      → FarOpen near far key s
      → FarOpen near far key (complete far s before op rest c).1
  unfolding complete Keeps
  complete-FarOpen s before op rest c e h =
      let (_, sound) =
        All-without (FarSound near far (some key)) before rest op (rw e at h.sound) in
      let (quiet, no_hello) =
        All-without (λ op. greets op ≡ false) before rest op (rw e at h.no_hello) in
      handler-Keeps op c quiet (record s { issued = before ++ rest })
        (record { held = h.held; status = h.status; sound = sound; no_hello = no_hello })
