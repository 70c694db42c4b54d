-- ===== src/Examples/Carries.antt =====
-- Runs of the theorems on data between the client and the remote host, in two reads.
use lproxy.Base.{false, ◌≡◌, refl, arith, List, ℕ, [], ◌∷◌, ◌++◌}
use lproxy.Packet.{Packet, make_packet, request_code, reply_code, buffers}
use lproxy.Packet.Codec.{Holds}
use lproxy.Session.{max_length}
use lproxy.Session.Stream.Delivery.{stream}
use lproxy.Socks5.{connected}
use lproxy.Local.State as Near
use lproxy.Local.Pack.{encryptor_key}
use lproxy.Local.World as NearWorld
use lproxy.Server.State as Far
use lproxy.Server.Left as FarLeft
use lproxy.Server.Streamed.{Forwards}
use lproxy.Server.Delivered.{Writes}
use lproxy.Tunnel.Carried.{Sends, reads-carried, packet_of}
use lproxy.Tunnel.Returned as Returned
use lproxy.Tunnel.Returned.{reads-returned}
use lproxy.Local.Delivered as Delivered
use lproxy.Local.Right as NearRight
use lproxy.Server.World as FarWorld
use lproxy.Examples.Ends.{
  near, far, near-far-Agrees, data_key, near_ready, far_ready, answers, empty_packet, completed,
}

-- Two bytes and then one, in a buffer of three.
abbrev reads : List ℕ → ℕ → NearWorld.Completion
reads text n = record {
  error = false;
  bytes = n;
  packet = empty_packet;
  bytes_read = text;
  endpoints = [];
  rand = λ i. i;
}

abbrev first : NearWorld.Completion
first = reads (1 ∷ 2 ∷ 0 ∷ []) 2

abbrev second : NearWorld.Completion
second = reads (3 ∷ 0 ∷ 0 ∷ []) 1

abbrev reading : Near.Session
reading = record near_ready { issued = Near.read_left max_length Near.left_read_handler ∷ [] }

abbrev forwarding : Far.Session
forwarding = record far_ready { socks5_state = connected }

forwarding-Forwards : Forwards data_key forwarding
forwarding-Forwards = record {
  status = refl;
  socks5_state = refl;
  socks5_cmd = refl;
  aes_encryptor = refl;
}

-- Both packets, and two bytes of the next one.
abbrev both : Packet
both = record empty_packet {
  type = 6;
  data_len_low_byte = 2;
  payload = 1 ∷ 2 ∷ 0 ∷ 6 ∷ 0 ∷ 1 ∷ 3 ∷ 0 ∷ 6 ∷ [];
}

both-Holds :
    Holds both 13
      (stream (packet_of near data_key first ∷ packet_of near data_key second ∷ []) ++ 0 ∷ 6 ∷ [])
unfolding buffers make_packet request_code
both-Holds = record { within = omega arith; read = refl }

reads-carried_example :
    ((l' : Near.Session) × Sends near first reading
        (first ∷ second ∷ [])
        (packet_of near data_key first ∷ packet_of near data_key second ∷ [])
        l'
      × (l'.issued ≡ Near.read_left max_length Near.left_read_handler ∷ []))
    × ((t : Far.Session) × Writes far
          (completed 0 empty_packet)
          (FarLeft.handle_packet far answers 13 both forwarding).1
          ((1 ∷ 2 ∷ []) ∷ (3 ∷ []) ∷ [])
          t
        × (t.issued ≡ Far.read_left max_length ∷ []))
unfolding encryptor_key
reads-carried_example =
    reads-carried near far near-far-Agrees first (completed 0 empty_packet) reading [] data_key
      first (second ∷ []) refl refl refl refl
      (refl, omega arith, omega arith, (refl, omega arith, omega arith, tt)) 13 both (0 ∷ 6 ∷ [])
      forwarding both-Holds (omega arith) forwarding-Forwards

-- The same bytes from the remote host.
abbrev from_host : List ℕ → ℕ → FarWorld.Completion
from_host text n = record (completed n empty_packet) { bytes_read = text }

abbrev reading_host : Far.Session
reading_host = record forwarding { issued = Far.read_right_tcp max_length ∷ [] }

reading_host-Returns : Returned.Returns far data_key reading_host
reading_host-Returns = record {
  forwards = record { status = refl; socks5_state = refl; socks5_cmd = refl; aes_encryptor = refl };
  reply = refl;
}

abbrev returned : List Packet
returned =
    Returned.packet_of far data_key (from_host (1 ∷ 2 ∷ 0 ∷ []) 2)
    ∷ Returned.packet_of far data_key (from_host (3 ∷ 0 ∷ 0 ∷ []) 1)
    ∷ []

returned-Holds : Holds both 13 (stream returned ++ 0 ∷ 6 ∷ [])
unfolding buffers make_packet reply_code
returned-Holds = record { within = omega arith; read = refl }

reads-returned_example :
    ((s' : Far.Session) × Returned.Sends far
        (completed 0 empty_packet)
        reading_host
        (from_host (1 ∷ 2 ∷ 0 ∷ []) 2 ∷ from_host (3 ∷ 0 ∷ 0 ∷ []) 1 ∷ [])
        returned
        s'
      × (s'.issued ≡ Far.read_right_tcp max_length ∷ []))
    × ((t : Near.Session) × Delivered.Writes near first
          (NearRight.handle_packet near (λ i. i) 13 both near_ready).1
          ((1 ∷ 2 ∷ []) ∷ (3 ∷ []) ∷ [])
          t
        × (t.issued ≡ Near.read_right max_length ∷ []))
unfolding encryptor_key
reads-returned_example =
    reads-returned far near near-far-Agrees (completed 0 empty_packet) first reading_host []
      data_key (from_host (1 ∷ 2 ∷ 0 ∷ []) 2) (from_host (3 ∷ 0 ∷ 0 ∷ []) 1 ∷ []) refl refl refl
      reading_host-Returns (refl, omega arith, omega arith, (refl, omega arith, omega arith, tt)) 13
      both (0 ∷ 6 ∷ []) near_ready returned-Holds (omega arith) refl refl
