-- ===== src/Examples/Streams.antt =====
-- Runs of the theorems on the framing of packets in a stream.
use lproxy.Base.{inl, false, ◌≡◌, refl, arith, [], ◌∷◌}
use lproxy.Packet.{Packet, data_len, buffers}
use lproxy.Packet.Codec.{Holds}
use lproxy.Session.Stream.{IsSized}
use lproxy.Local.State.{read_right, Session}
use lproxy.Local.Pack.{encryptor_key}
use lproxy.Local.Right.{handle_packet}
use lproxy.Local.Assembled.{Chunks, reads-assembled}
use lproxy.Server.Assembled as FarAssembled
use lproxy.Server.Assembled.{requests-assembled}
use lproxy.Local.Delivered.{Writes, reads-delivered}
use lproxy.Local.World.{Completion}
use lproxy.Session.{max_length}
use lproxy.Server.State as FarState
use lproxy.Server.World as FarWorld
use lproxy.Server.Left as FarLeft
use lproxy.Server.Delivered as FarDelivered
use lproxy.Server.Delivered.{reads-forwarded}
use lproxy.Server.Streamed.{Forwards}
use lproxy.Socks5.{connected}
use lproxy.Examples.Ends.{far, far_ready, answers, data_key, near, near_ready}

abbrev two_bytes_packet : Packet
two_bytes_packet = record {
  version = 0;
  type = 6;
  data_len_high_byte = 0;
  data_len_low_byte = 2;
  payload = 1 ∷ 2 ∷ [];
}

abbrev one_byte_packet : Packet
one_byte_packet = record two_bytes_packet { data_len_low_byte = 1; payload = 3 ∷ [] }

-- The two packets and two bytes of a third one, as one read brings them.
abbrev one_read : Packet
one_read = record two_bytes_packet { payload = 1 ∷ 2 ∷ 0 ∷ 6 ∷ 0 ∷ 1 ∷ 3 ∷ 0 ∷ 6 ∷ [] }

abbrev succeeded : Completion
succeeded = record {
  error = false;
  bytes = 0;
  packet = two_bytes_packet;
  bytes_read = [];
  endpoints = [];
  rand = λ i. i;
}

abbrev far_succeeded : FarWorld.Completion
far_succeeded = record {
  error = false;
  bytes = 0;
  packet = two_bytes_packet;
  bytes_read = [];
  endpoints = [];
  address_of = λ endpoint. [];
  expiry_moved = false;
  answers = answers;
}

two_bytes_packet-IsSized : IsSized two_bytes_packet
unfolding data_len
two_bytes_packet-IsSized = refl

one_byte_packet-IsSized : IsSized one_byte_packet
unfolding data_len
one_byte_packet-IsSized = refl

one_read-Holds : Holds one_read 13 (0 ∷ 6 ∷ 0 ∷ 2 ∷ 1 ∷ 2 ∷ 0 ∷ 6 ∷ 0 ∷ 1 ∷ 3 ∷ 0 ∷ 6 ∷ [])
unfolding buffers
one_read-Holds = record { within = omega arith; read = refl }

-- The header and one byte of the packet.
abbrev cut_packet : Packet
cut_packet = record two_bytes_packet { payload = 1 ∷ 0 ∷ 0 ∷ [] }

cut_packet-Holds : Holds cut_packet 5 (0 ∷ 6 ∷ 0 ∷ 2 ∷ 1 ∷ [])
unfolding buffers
cut_packet-Holds = record { within = omega arith; read = refl }

reads-assembled_example :
    (p' : Packet) × Holds p' 6 (buffers two_bytes_packet)
    × Chunks near succeeded
        (handle_packet near (λ i. i) 5 cut_packet near_ready).1
        ((2 ∷ []) ∷ [])
        (handle_packet near (λ i. i) 6 p' near_ready).1
unfolding buffers
reads-assembled_example =
    reads-assembled near succeeded ((2 ∷ []) ∷ []) 5 cut_packet two_bytes_packet
      (0 ∷ 6 ∷ 0 ∷ 2 ∷ 1 ∷ []) near_ready two_bytes_packet-IsSized (omega arith) cut_packet-Holds
      refl (omega arith, tt)

requests-assembled_example :
    (p' : Packet) × Holds p' 6 (buffers two_bytes_packet)
    × FarAssembled.Chunks far far_succeeded
        (FarLeft.handle_packet far answers 5 cut_packet far_ready).1
        ((2 ∷ []) ∷ [])
        (FarLeft.handle_packet far answers 6 p' far_ready).1
unfolding buffers
requests-assembled_example =
    requests-assembled far far_succeeded ((2 ∷ []) ∷ []) 5 cut_packet two_bytes_packet
      (0 ∷ 6 ∷ 0 ∷ 2 ∷ 1 ∷ []) far_ready two_bytes_packet-IsSized (omega arith) cut_packet-Holds
      refl (omega arith, tt)

reads-delivered_example :
    (t : Session) × Writes near succeeded
      (handle_packet near (λ i. i) 13 one_read near_ready).1
      ((1 ∷ 2 ∷ []) ∷ (3 ∷ []) ∷ [])
      t
    × (t.issued ≡ read_right max_length ∷ [])
unfolding buffers encryptor_key
reads-delivered_example =
    reads-delivered near succeeded refl 13 one_read two_bytes_packet (one_byte_packet ∷ [])
      (0 ∷ 6 ∷ []) data_key near_ready (two_bytes_packet-IsSized, (one_byte_packet-IsSized, tt))
      (inl refl, (inl refl, tt)) one_read-Holds (omega arith) refl refl

abbrev forwarding : FarState.Session
forwarding = record far_ready { socks5_state = connected }

forwarding-Forwards : Forwards data_key forwarding
forwarding-Forwards = record {
  status = refl;
  socks5_state = refl;
  socks5_cmd = refl;
  aes_encryptor = refl;
}

reads-forwarded_example :
    (t : FarState.Session) × FarDelivered.Writes far far_succeeded
      (FarLeft.handle_packet far answers 13 one_read forwarding).1
      ((1 ∷ 2 ∷ []) ∷ (3 ∷ []) ∷ [])
      t
    × (t.issued ≡ FarState.read_left max_length ∷ [])
unfolding buffers
reads-forwarded_example =
    reads-forwarded far far_succeeded refl 13 one_read two_bytes_packet (one_byte_packet ∷ [])
      (0 ∷ 6 ∷ []) data_key forwarding (two_bytes_packet-IsSized, (one_byte_packet-IsSized, tt))
      (inl refl, (inl refl, tt)) one_read-Holds (omega arith) forwarding-Forwards
