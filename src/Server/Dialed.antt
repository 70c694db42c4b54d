-- ===== src/Server/Dialed.antt =====
-- The endpoints of a CONNECT request at the server: their connections, core/lss/session_server.cpp, and
-- the answer to the first success.
use lproxy.Base.{
  ℕ, ◌<◌, ◌≡◌, refl, true, false, some, List, [], ◌∷◌, ◌++◌, length, c_string, arith, if◌then◌else◌,
  append_assoc, append-nil,
}
use lproxy.Packet.{Packet, make_packet, ReplyType, reply_code}
use lproxy.Session.{max_length, status_data}
use lproxy.Socks5.{ipv4, domain, opening}
use lproxy.Socks5.Request.{request_bytes}
use lproxy.Socks5.Response.{response_bytes}
use lproxy.Server.State.{
  Session, Env, Answers, Op, cmd_connect, connect_tcp, resolve_tcp, cancel_timer, wait_timer,
  close_right_tcp, read_left, read_right_tcp, write_left, left_write_handler,
}
use lproxy.Server.Left.{on_plain_data}
use lproxy.Server.Right.{tcp_connected, tcp_resolved, after_left_write, read_right}
use lproxy.Server.World.{Completion, complete, handler, after_left}
use lproxy.Server.Streamed.{Forwards}
use lproxy.Server.Settled.{on_plain_data-connect, answer_with-answers}

module _ (env : Env) where
  -- Connections to the endpoints of a list fail, one after the other, each as `c` says.
  pub data Tries (c : Completion) : Session → List ℕ → Session → Type 0 where
    done : (s : Session) → Tries c s [] s
    try :
        (s t : Session) (before : List Op) (endpoint : ℕ) (rest others : List ℕ)
        → s.issued ≡ before ++ connect_tcp endpoint rest ∷ []
        → Tries c (complete env s before (connect_tcp endpoint rest) [] c).1 others t
        → Tries c s (endpoint ∷ others) t

  -- The connection to the first of some endpoints, in a session with a data key.
  abbrev pub first_of : List ℕ → ℕ → List ℕ → Op
  first_of [] endpoint more = connect_tcp endpoint more
  first_of (e ∷ es) endpoint more = connect_tcp e (es ++ endpoint ∷ more)

  pub record Dials (key : List ℕ) (s : Session) (before : List Op) (op : Op) : Type 0 where
    pub status : s.status ≡ status_data
    pub socks5_cmd : s.socks5_cmd ≡ cmd_connect
    pub aes_encryptor : s.aes_encryptor ≡ some key
    pub issued : s.issued ≡ before ++ op ∷ []

  abbrev pub redialed : List Op → List Op
  redialed before =
      ((before ++ cancel_timer ∷ []) ++ close_right_tcp ∷ []) ++ wait_timer env.config.timeout ∷ []

  pub redials :
      (c : Completion) (key : List ℕ) (s : Session) (before : List Op) (e endpoint : ℕ)
      (es more : List ℕ)
      → c.error ≡ true
      → Dials key s before (connect_tcp e (es ++ endpoint ∷ more))
      → Dials key
          (complete env s before (connect_tcp e (es ++ endpoint ∷ more)) [] c).1
          (redialed before)
          (first_of es endpoint more)
  unfolding complete handler tcp_connected
  redials c key s before e endpoint [] more bad d =
      rw (bad, append-nil before)
        (record {
          status = d.status;
          socks5_cmd = d.socks5_cmd;
          aes_encryptor = d.aes_encryptor;
          issued = refl;
        })
  redials c key s before e endpoint (e' ∷ es) more bad d =
      rw (bad, append-nil before)
        (record {
          status = d.status;
          socks5_cmd = d.socks5_cmd;
          aes_encryptor = d.aes_encryptor;
          issued = refl;
        })

  pub dialed :
      (c : Completion) (key : List ℕ) (s : Session) (before : List Op) (endpoint : ℕ)
      (failed more : List ℕ)
      → c.error ≡ true
      → Dials key s before (first_of failed endpoint more)
      → (u : Session) × Tries c s failed u
        × ((waiting : List Op) × Dials key u waiting (connect_tcp endpoint more))
  dialed c key s before endpoint [] more bad d = (s, done s, (before, d))
  dialed c key s before endpoint (e ∷ es) more bad d =
      let s' = (complete env s before (connect_tcp e (es ++ endpoint ∷ more)) [] c).1 in
      let (u, later, (waiting, dials)) =
        dialed c key s' (redialed before) endpoint es more bad
          (redials c key s before e endpoint es more bad d) in
      (u, try s u before e (es ++ endpoint ∷ more) es d.issued later, (waiting, dials))

  -- The answer to a success.
  abbrev pub answer : List ℕ → List ℕ → Packet
  answer key ip =
      let text = response_bytes 0 (ipv4 ip) env.config.bind_port in
      let cipher = env.aes_encrypt key text in
      let type = if env.config.zip_on then ReplyType.zipdata else ReplyType.plain_data in
      make_packet 0 (reply_code type) (length cipher) cipher

  pub connects :
      (c : Completion) (ip key : List ℕ) (u : Session) (waiting : List Op) (endpoint : ℕ)
      (more : List ℕ)
      → c.error ≡ false
      → env.v4_of_string (c_string env.config.bind_addr) ≡ some ip
      → length ip ≡ 4
      → Dials key u waiting (connect_tcp endpoint more)
      → let before = waiting ++ cancel_timer ∷ [] in
        let v = (complete env u waiting (connect_tcp endpoint more) [] c).1 in
        let w =
          (complete env v before
            (write_left (answer key ip) left_write_handler)
            (read_left max_length ∷ [])
            c).1 in
        (v.issued
          ≡ before ++ write_left (answer key ip) left_write_handler ∷ read_left max_length ∷ [])
        × (w.issued ≡ before ++ read_left max_length ∷ read_right_tcp max_length ∷ [])
        × (w.socks5_resp_reply ≡ 0)
        × Forwards key w
  unfolding complete handler tcp_connected after_left after_left_write read_right
  connects c ip key u waiting endpoint more good e h d =
      let s' = record u { issued = waiting ++ cancel_timer ∷ [] } in
      rw
        (
          good,
          append-nil waiting,
          answer_with-answers env ip key 0 s' e h (omega arith) d.aes_encryptor,
          d.status,
          d.socks5_cmd,
        )
        (
          append_assoc (waiting ++ cancel_timer ∷ [])
              (write_left (answer key ip) left_write_handler ∷ []) (read_left max_length ∷ []),
          append_assoc (waiting ++ cancel_timer ∷ []) (read_left max_length ∷ [])
              (read_right_tcp max_length ∷ []),
          refl,
          record {
            status = refl;
            socks5_state = refl;
            socks5_cmd = refl;
            aes_encryptor = d.aes_encryptor;
          },
        )

  -- The session behind the resolution of the name.
  pub resolves :
      (c : Completion) (answers : Answers) (name text key : List ℕ) (len port rest n endpoint : ℕ)
      (failed more : List ℕ) (request : Packet) (s : Session)
      → c.error ≡ false
      → c.endpoints ≡ failed ++ endpoint ∷ more
      → length name ≡ len
      → 0 < len
      → port < 65536
      → s.status ≡ status_data
      → s.aes_encryptor ≡ some key
      → let asked =
          (on_plain_data env answers opening
            (request_bytes 1 (domain len name) port text)
            rest
            n
            request
            s).1 in
        let before = s.issued ++ wait_timer env.config.timeout ∷ [] in
        (asked.issued ≡ before ++ resolve_tcp (c_string name) port ∷ [])
        × Dials key
            (complete env asked before (resolve_tcp (c_string name) port) [] c).1
            ((before ++ cancel_timer ∷ []) ++ wait_timer env.config.timeout ∷ [])
            (first_of failed endpoint more)
  unfolding complete handler tcp_resolved
  resolves c answers name text key len port rest n endpoint [] more request s good es e k h st enc =
      rw
        (
          on_plain_data-connect env answers name text len port rest n request s e k h,
          good,
          es,
          append-nil (s.issued ++ wait_timer env.config.timeout ∷ []),
        )
        (refl, record { status = st; socks5_cmd = refl; aes_encryptor = enc; issued = refl })
  resolves c answers name text key len port rest n endpoint (x ∷ failed) more request s good es e k
        h st enc =
      rw
        (
          on_plain_data-connect env answers name text len port rest n request s e k h,
          good,
          es,
          append-nil (s.issued ++ wait_timer env.config.timeout ∷ []),
        )
        (refl, record { status = st; socks5_cmd = refl; aes_encryptor = enc; issued = refl })
