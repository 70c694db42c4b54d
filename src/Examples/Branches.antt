-- ===== src/Examples/Branches.antt =====
-- Runs of the theorems on the requests of SOCKS clients: a connection over TCP, one over UDP, and a
-- greeting.
use lproxy.Server.Udp.{udp_connected-behind}
use lproxy.Base.{
  ℕ, cond, fault, ◌≡◌, ◌≢◌, ◌⊎◌, ◌++◌, List, All, refl, arith, false, [], ◌∷◌, ok, replicate,
}
use lproxy.Packet.{make_packet, reply_code}
use lproxy.Server.State as Far
use lproxy.Server.Right.{udp_resolved, answer_with}
use lproxy.Server.Settled.{answer_with-answers}
use lproxy.Server.World.{complete}
use lproxy.Local.Refused.{AnsweredWith, socks5_step1_read-answers}
use lproxy.Examples.Ends.{empty_packet, completed, far, near_auth, far_ready}

answer_with-answers_example : answer_with far 5 far_ready ≡ (
  ok tt,
  record far_ready {
    socks5_resp_reply = 5;
    issued =
        Far.write_left
          (make_packet 0 6 10 (5 ∷ 5 ∷ 0 ∷ 1 ∷ 127 ∷ 0 ∷ 0 ∷ 1 ∷ 0x1f ∷ 0x98 ∷ []))
          Far.left_write_handler
        ∷ [];
  },
)
unfolding reply_code
answer_with-answers_example =
    answer_with-answers far (127 ∷ 0 ∷ 0 ∷ 1 ∷ []) (replicate 32 7) 5 far_ready refl refl
      (omega arith) refl

socks5_step1_read-answers_example :
    All (λ (m : ℕ). m ≢ 0x00) (2 ∷ 0 ∷ []) × AnsweredWith (5 ∷ 2 ∷ 2 ∷ 0 ∷ []) near_auth 0xff
    ⊎ ((before after : List ℕ) × (2 ∷ 0 ∷ [] ≡ before ++ 0x00 ∷ after)
        × AnsweredWith (5 ∷ 2 ∷ 2 ∷ 0 ∷ []) near_auth 0x00)
socks5_step1_read-answers_example =
    socks5_step1_read-answers (2 ∷ 0 ∷ []) [] near_auth (omega arith)

udp_connected-behind_example :
    let one = (udp_resolved far false (7 ∷ []) far_ready).1 in
    let several = (udp_resolved far false (7 ∷ 8 ∷ []) far_ready).1 in
    let c = completed 0 empty_packet in
    let answer = answer_with far (cond c.answers.udp_open_error 0x01 0x00) in
    (one.issued ≡ Far.connect_udp 7 [] ∷ [])
    × ((complete far one [] (Far.connect_udp 7 []) [] c).0 ≡ fault)
    × (several.issued ≡ Far.connect_udp 7 (8 ∷ []) ∷ [])
    × (complete far several [] (Far.connect_udp 7 (8 ∷ [])) [] c
        ≡ answer (record far_ready { dest_name = c.address_of 8 }))
udp_connected-behind_example =
    udp_connected-behind far (completed 0 empty_packet) refl 7 8 [] far_ready
