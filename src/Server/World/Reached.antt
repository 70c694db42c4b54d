-- ===== src/Server/World/Reached.antt =====
-- Every session that the environment can bring about is `Keyed`.
use lproxy.Base.Handler.Keeps.{Keeps}
use lproxy.Session.{length_handshake, Exception, status_code, status_data}
use lproxy.Server.World.Kept.{left_read-Keeps}
use lproxy.Server.World.{
  step, here, next, complete, Reach, Step, handler, after_right, after_left, Completion,
}
use lproxy.Server.Pack.{say_and_cancel, pack_bad, pack_bad}
use lproxy.Server.Right.{
  is_connected, read_right, read_left_again, read_left_again, timer_expired, udp_connected,
  tcp_connected, udp_resolved, tcp_resolved, answer_with, right_read, after_right_write, read_right,
  after_left_write, after_exchange, after_hello,
}
use lproxy.Server.World.Keyed.{
  any_exchange, is_exchange, answers_exchange, issue-Keeps, issue-Keeps, any_exchange-append,
  cancel-Keeps, say_and_cancel-Keeps, socks5_resp_to_local-Keeps, pack_data-Keeps, has_key, Keyed,
  pieces,
}
use lproxy.Server.State.{
  close_right_udp, close_right_tcp, close_left, cancel_right_udp, cancel_right_tcp, cancel_left,
  cancel_timer, wait_timer, connect_udp, connect_tcp, resolve_udp, resolve_tcp, receive_right_udp,
  read_right_tcp, send_right_udp, write_right_tcp, write_left, read_left_rest, Op,
  right_write_handler, left_read_handler, cancel_handler, left_write_handler, exchange_handler,
  hello_handler, AfterRightWrite, AfterLeftWrite, cancel, issue, cmd_unsupport, cmd_bind, cmd_udp,
  cmd_connect, Socks5Cmd, issue, cancel, Socks5Cmd, read_left, Session, Answers, Env,
}
use lproxy.Base.{
  if◌then◌else◌, Outcome, leb, not, ◌==◌, ◌&&◌, ℕ, Bool, true, false, ◌≡◌, refl, List, [], ◌∷◌,
  ◌++◌, arith,
}

after_hello-Keeps : (error : Bool) → Keeps Keyed (after_hello error)
unfolding after_hello Keeps
after_hello-Keeps true s h = cancel-Keeps s h
after_hello-Keeps false s h =
    ground (arith, any_exchange-append s.issued (read_left length_handshake ∷ []))

-- The completion of the exchange's write leaves `Keyed` where the key is there.
after_exchange-Keyed :
    (error : Bool) (s : Session)
    → Keyed s
    → has_key s.aes_encryptor ≡ true
    → Keyed (after_exchange error s).1
unfolding after_exchange Keeps
after_exchange-Keyed true s h k = cancel-Keeps s h
after_exchange-Keyed false s h k = ground arith

abbrev Ended : Type 0
Ended = Outcome Exception (Unit {0}) × Session

if-Keyed : (b : Bool) (p q : Ended) → Keyed p.1 → Keyed q.1 → Keyed (if b then p else q).1
if-Keyed true p q hp hq = hp
if-Keyed false p q hp hq = hq

read_left_again-Keeps : (cmd : Socks5Cmd) → Keeps Keyed (read_left_again cmd)
unfolding read_left_again
read_left_again-Keeps cmd_connect = search pieces
read_left_again-Keeps cmd_udp = search pieces
read_left_again-Keeps cmd_bind = search (pieces, say_and_cancel-Keeps)
read_left_again-Keeps cmd_unsupport = search (pieces, say_and_cancel-Keeps)

after_right_write-Keeps : (error : Bool) → Keeps Keyed (after_right_write error)
unfolding after_right_write Keeps
after_right_write-Keeps error s h =
    if-Keyed error (say_and_cancel pack_bad s) (read_left_again s.socks5_cmd s)
      (say_and_cancel-Keeps pack_bad s h) (read_left_again-Keeps s.socks5_cmd s h)

module _ (env : Env) where
  read_right-Keeps :
      (cmd : Socks5Cmd) (name : List ℕ) (port : ℕ) → Keeps Keyed (read_right env cmd name port)
  unfolding read_right
  read_right-Keeps cmd_connect name port = search pieces
  read_right-Keeps cmd_udp name port = search pieces
  read_right-Keeps cmd_bind name port = search (pieces, say_and_cancel-Keeps)
  read_right-Keeps cmd_unsupport name port = search (pieces, say_and_cancel-Keeps)

  after_left_write-Keeps : (error : Bool) → Keeps Keyed (after_left_write env error)
  unfolding after_left_write Keeps
  after_left_write-Keeps error s h =
      let told = read_right env s.socks5_cmd s.dest_name s.dest_port s in
      let again = issue (read_left length_handshake) s in
      let go = if is_connected s.socks5_state then told else again in
      let refused =
        leb (status_code status_data) (status_code s.status) && not (s.socks5_resp_reply == 0x00) in
      if-Keyed error (cancel s) (if refused then cancel s else go) (cancel-Keeps s h) (
        if-Keyed refused (cancel s) go (cancel-Keeps s h) (
          if-Keyed (is_connected s.socks5_state) told again
            (read_right-Keeps s.socks5_cmd s.dest_name s.dest_port s h)
            (issue-Keeps (read_left length_handshake) refl s h)))

  right_read-Keeps :
      (error : Bool) (n : ℕ) (text : List ℕ) → Keeps Keyed (right_read env error n text)
  unfolding right_read
  right_read-Keeps error n text = search (pieces, pack_data-Keeps) depth 14

  answer_with-Keeps : (reply : ℕ) → Keeps Keyed (answer_with env reply)
  unfolding answer_with
  answer_with-Keeps reply = search (pieces, socks5_resp_to_local-Keeps) depth 14

  tcp_resolved-Keeps : (error : Bool) (es : List ℕ) → Keeps Keyed (tcp_resolved env error es)
  unfolding tcp_resolved
  tcp_resolved-Keeps true es = search (pieces, answer_with-Keeps) depth 14
  tcp_resolved-Keeps false [] = search pieces depth 14
  tcp_resolved-Keeps false (e ∷ es) = search pieces depth 14

  udp_resolved-Keeps : (error : Bool) (es : List ℕ) → Keeps Keyed (udp_resolved env error es)
  unfolding udp_resolved
  udp_resolved-Keeps true es = answer_with-Keeps 4
  udp_resolved-Keeps false [] = search pieces
  udp_resolved-Keeps false (e ∷ es) = search pieces

  tcp_connected-Keeps : (error : Bool) (es : List ℕ) → Keeps Keyed (tcp_connected env error es)
  unfolding tcp_connected
  tcp_connected-Keeps false es = search (pieces, answer_with-Keeps) depth 14
  tcp_connected-Keeps true [] = search (pieces, answer_with-Keeps) depth 14
  tcp_connected-Keeps true (e ∷ es) = search pieces depth 14

  udp_connected-Keeps :
      (address_of : ℕ → List ℕ) (answers : Answers) (error : Bool) (es : List ℕ)
      → Keeps Keyed (udp_connected env address_of answers error es)
  unfolding udp_connected
  udp_connected-Keeps address_of answers false [] = search pieces
  udp_connected-Keeps address_of answers false (e ∷ es) =
      search (pieces, answer_with-Keeps) depth 14
  udp_connected-Keeps address_of answers true [] = answer_with-Keeps 3
  udp_connected-Keeps address_of answers true (e ∷ es) = search pieces depth 14

  timer_expired-Keeps : (error moved : Bool) → Keeps Keyed (timer_expired env error moved)
  unfolding timer_expired
  timer_expired-Keeps error moved = search (pieces, say_and_cancel-Keeps)

  after_left-Keyed :
      (next : AfterLeftWrite) (c : Completion) (s : Session)
      → Keyed s
      → (answers_exchange next ≡ true → has_key s.aes_encryptor ≡ true)
      → Keyed (after_left env next c s).1
  unfolding after_left Keeps
  after_left-Keyed hello_handler c s h k = after_hello-Keeps c.error s h
  after_left-Keyed exchange_handler c s h k = after_exchange-Keyed c.error s h (k refl)
  after_left-Keyed left_write_handler c s h k = after_left_write-Keeps c.error s h
  after_left-Keyed cancel_handler c s h k = cancel-Keeps s h

  after_right-Keeps :
      (next : AfterRightWrite) (c : Completion) → Keeps Keyed (after_right env next c)
  unfolding after_right
  after_right-Keeps (left_read_handler n packet) c =
      left_read-Keeps env c.answers c.error n packet []
  after_right-Keeps right_write_handler c = after_right_write-Keeps c.error

  handler-Keyed :
      (op : Op) (c : Completion) (s : Session)
      → Keyed s
      → (is_exchange op ≡ true → has_key s.aes_encryptor ≡ true)
      → Keyed (handler env op c s).1
  unfolding handler Keeps
  handler-Keyed (read_left n) c s h k =
      left_read-Keeps env c.answers c.error c.bytes c.packet [] s h
  handler-Keyed (read_left_rest n packet) c s h k =
      left_read-Keeps env c.answers c.error c.bytes packet c.bytes_read s h
  handler-Keyed (write_left packet bound) c s h k = after_left-Keyed bound c s h k
  handler-Keyed (write_right_tcp text bound) c s h k = after_right-Keeps bound c s h
  handler-Keyed (send_right_udp text name port bound) c s h k = after_right-Keeps bound c s h
  handler-Keyed (read_right_tcp n) c s h k = right_read-Keeps c.error c.bytes c.bytes_read s h
  handler-Keyed (receive_right_udp n name port) c s h k =
      right_read-Keeps c.error c.bytes c.bytes_read s h
  handler-Keyed (resolve_tcp name port) c s h k = tcp_resolved-Keeps c.error c.endpoints s h
  handler-Keyed (resolve_udp name port) c s h k = udp_resolved-Keeps c.error c.endpoints s h
  handler-Keyed (connect_tcp endpoint rest) c s h k = tcp_connected-Keeps c.error rest s h
  handler-Keyed (connect_udp endpoint rest) c s h k =
      udp_connected-Keeps c.address_of c.answers c.error rest s h
  handler-Keyed (wait_timer seconds) c s h k = timer_expired-Keeps c.error c.expiry_moved s h
  handler-Keyed cancel_timer c s h k = h
  handler-Keyed cancel_left c s h k = h
  handler-Keyed cancel_right_tcp c s h k = h
  handler-Keyed cancel_right_udp c s h k = h
  handler-Keyed close_left c s h k = h
  handler-Keyed close_right_tcp c s h k = h
  handler-Keyed close_right_udp c s h k = h

  any_exchange-split :
      (before : List Op) (op : Op) (rest : List Op) (k : Bool)
      → (any_exchange (before ++ op ∷ rest) ≡ true → k ≡ true)
      → (any_exchange (before ++ rest) ≡ true → k ≡ true) × (is_exchange op ≡ true → k ≡ true)
  any_exchange-split before op rest k h =
      let all = any_exchange-append before (op ∷ rest) in
      let left = any_exchange-append before rest in ground (arith, all, left)

  pub Step-Keyed : {s t : Session} → Step env s t → Keyed s → Keyed t
  unfolding complete
  Step-Keyed (step s before op rest c e) h =
      let both =
        any_exchange-split before op rest (has_key s.aes_encryptor) (λ x. h.by_exchange (rw e x)) in
      handler-Keyed op c _ (record { by_status = h.by_status; by_exchange = both.0 }) both.1

  pub Reach-Keyed : {s t : Session} → Reach env s t → Keyed s → Keyed t
  Reach-Keyed here h = h
  Reach-Keyed (next r x) h = Step-Keyed x (Reach-Keyed r h)
