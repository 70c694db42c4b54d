-- ===== src/Server/Connected.antt =====
-- A CONNECT request at the server, from its bytes to a session that carries data both ways: the
-- completions of the resolution, of the connections and of the answer, core/lss/session_server.cpp.
use lproxy.Base.{ℕ, ◌<◌, ◌≡◌, true, false, some, List, [], ◌∷◌, ◌++◌, length, c_string}
use lproxy.Packet.{Packet}
use lproxy.Session.{max_length, status_data}
use lproxy.Socks5.{domain, opening}
use lproxy.Socks5.Request.{request_bytes}
use lproxy.Server.State.{
  Session, Env, Answers, Op, connect_tcp, resolve_tcp, cancel_timer, wait_timer, read_left,
  read_right_tcp, write_left, left_write_handler,
}
use lproxy.Server.Left.{on_plain_data}
use lproxy.Server.World.{Completion, complete}
use lproxy.Server.Streamed.{Forwards}
use lproxy.Server.Dialed.{Tries, dialed, answer, connects, resolves}

module _ (env : Env) where
  -- The bytes of a CONNECT request to a domain that is not empty, in `status_data` with a data key:
  -- the name is resolved, and its endpoints are tried in their order. When some fail and the next one
  -- takes the connection, the session answers with the reply 0 of RFC 1928, encrypted, and, when the
  -- answer is written, it forwards both ways: it reads from the local end and from the remote host.
  -- The address that the configuration names reads as an IPv4 address.
  pub connect-Forwards :
      (resolved bad good : Completion) (answers : Answers) (ip name text key : List ℕ)
      (len port rest n endpoint : ℕ) (failed more : List ℕ) (request : Packet) (s : Session)
      → resolved.error ≡ false
      → resolved.endpoints ≡ failed ++ endpoint ∷ more
      → bad.error ≡ true
      → good.error ≡ false
      → length name ≡ len
      → 0 < len
      → port < 65536
      → env.v4_of_string (c_string env.config.bind_addr) ≡ some ip
      → length ip ≡ 4
      → s.status ≡ status_data
      → s.aes_encryptor ≡ some key
      → let asked =
          (on_plain_data env answers opening
            (request_bytes 1 (domain len name) port text)
            rest
            n
            request
            s).1 in
        let timed = s.issued ++ wait_timer env.config.timeout ∷ [] in
        let dialing = (complete env asked timed (resolve_tcp (c_string name) port) [] resolved).1 in
        (asked.issued ≡ timed ++ resolve_tcp (c_string name) port ∷ [])
        × ((u : Session) × Tries env bad dialing failed u
            × ((waiting : List Op) × (u.issued ≡ waiting ++ connect_tcp endpoint more ∷ [])
                × (let before = waiting ++ cancel_timer ∷ [] in
                    let v = (complete env u waiting (connect_tcp endpoint more) [] good).1 in
                    let w =
                      (complete env v before
                        (write_left (answer env key ip) left_write_handler)
                        (read_left max_length ∷ [])
                        good).1 in
                    (v.issued
                      ≡ before
                        ++ write_left (answer env key ip) left_write_handler
                          ∷ read_left max_length
                          ∷ [])
                    × (w.issued ≡ before ++ read_left max_length ∷ read_right_tcp max_length ∷ [])
                    × (w.socks5_resp_reply ≡ 0)
                    × Forwards key w)))
  connect-Forwards resolved bad good answers ip name text key len port rest n endpoint failed more
        request s he hs hb hg e k h hip h4 st enc =
      let (asks, dials) =
        resolves env resolved answers name text key len port rest n endpoint failed more request s
          he hs e k h st enc in
      let (u, tries, (waiting, dialing)) = dialed env bad key _ _ endpoint failed more hb dials in
      (
        asks,
        (
          u,
          tries,
          (
            waiting,
            dialing.issued,
            connects env good ip key u waiting endpoint more hg hip h4 dialing,
          ),
        ),
      )
