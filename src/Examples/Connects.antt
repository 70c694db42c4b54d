-- ===== src/Examples/Connects.antt =====
-- A run of the theorem on CONNECT requests: the first of two endpoints fails.
use lproxy.Base.{c_string, ◌≡◌, refl, arith, true, ℕ, List, [], ◌∷◌, ◌++◌}
use lproxy.Session.{max_length}
use lproxy.Socks5.{domain, opening}
use lproxy.Socks5.Request.{request_bytes}
use lproxy.Server.State.{
  Session, Op, connect_tcp, resolve_tcp, cancel_timer, wait_timer, read_left, read_right_tcp,
  write_left, left_write_handler,
}
use lproxy.Server.Left.{on_plain_data}
use lproxy.Server.World.{Completion, complete}
use lproxy.Server.Streamed.{Forwards}
use lproxy.Server.Dialed.{Tries, answer}
use lproxy.Server.Connected.{connect-Forwards}
use lproxy.Examples.Ends.{empty_packet, completed, far, answers, data_key, far_ready}

abbrev resolved : Completion
resolved = record (completed 0 empty_packet) { endpoints = 7 ∷ 8 ∷ [] }

abbrev bad : Completion
bad = record (completed 0 empty_packet) { error = true }

abbrev good : Completion
good = completed 0 empty_packet

abbrev name : List ℕ
name = 100 ∷ 108 ∷ []

abbrev ip : List ℕ
ip = 127 ∷ 0 ∷ 0 ∷ 1 ∷ []

abbrev timed : List Op
timed = wait_timer 30 ∷ []

-- The session that has taken the request.
abbrev asked : Session
asked =
    (on_plain_data far answers opening (request_bytes 1 (domain 2 name) 8088 []) 0 13 empty_packet
      far_ready).1

connect-Forwards_example :
    (asked.issued ≡ timed ++ resolve_tcp name 8088 ∷ [])
    × ((u : Session) × Tries far bad
          (complete far asked timed (resolve_tcp name 8088) [] resolved).1
          (7 ∷ [])
          u
        × ((waiting : List Op) × (u.issued ≡ waiting ++ connect_tcp 8 [] ∷ [])
            × (let before = waiting ++ cancel_timer ∷ [] in
                let v = (complete far u waiting (connect_tcp 8 []) [] good).1 in
                let w =
                  (complete far v before
                    (write_left (answer far data_key ip) left_write_handler)
                    (read_left max_length ∷ [])
                    good).1 in
                (v.issued
                  ≡ before
                    ++ write_left (answer far data_key ip) left_write_handler
                      ∷ read_left max_length
                      ∷ [])
                × (w.issued ≡ before ++ read_left max_length ∷ read_right_tcp max_length ∷ [])
                × (w.socks5_resp_reply ≡ 0)
                × Forwards data_key w)))
unfolding c_string
connect-Forwards_example =
    connect-Forwards far resolved bad good answers ip name [] data_key 2 8088 0 13 8 (7 ∷ []) []
      empty_packet far_ready refl refl refl refl refl (omega arith) (omega arith) refl refl refl
      refl
