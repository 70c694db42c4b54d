-- ===== src/Examples/Tunnels.antt =====
-- Runs of the theorems on the two ends together.
use lproxy.Base.{ℕ, ◌≡◌, refl, arith, List, [], ◌∷◌, ◌++◌, ok, bytes_eq}
use lproxy.Packet.{Packet, make_packet, data_len, reply_code}
use lproxy.Packet.Codec.{Receives}
use lproxy.Session.{status_data, max_length}
use lproxy.Local.State as Near
use lproxy.Local.Right as NearRight
use lproxy.Tunnel.Handshake.{exchange-verified, exchange_reply}
use lproxy.Examples.Ends.{near, far, data_key, number, near_auth}

-- A packet as a read leaves it: three more bytes are in the buffer.
abbrev received_with : Packet → List ℕ → Packet
received_with p more = record p { payload = p.payload ++ more }

abbrev hello_packet : Packet
hello_packet = record {
  version = 0;
  type = 1;
  data_len_high_byte = 0;
  data_len_low_byte = 5;
  payload = 4 ∷ 0 ∷ 1 ∷ 2 ∷ 3 ∷ 0 ∷ 0 ∷ [];
}

abbrev key_packet : Packet
key_packet = record hello_packet {
  type = 3;
  data_len_high_byte = 0;
  data_len_low_byte = 42;
  payload = (data_key ++ number) ++ 0 ∷ [];
}

key_packet-Receives : Receives key_packet (exchange_reply near far data_key number)
unfolding make_packet data_len reply_code
key_packet-Receives = record { version = refl; type = refl; data_len = refl; payload = refl }

exchange-verified_example : NearRight.on_exchange near key_packet near_auth ≡ (
  ok tt,
  record near_auth {
    data_key = data_key;
    status = status_data;
    issued = Near.read_left max_length Near.left_read_socks5_step1 ∷ [];
  },
)
unfolding bytes_eq
exchange-verified_example =
    exchange-verified near far data_key number near_auth key_packet (λ key text. refl) refl
      (omega arith) key_packet-Receives refl
