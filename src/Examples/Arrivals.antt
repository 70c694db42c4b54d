-- ===== src/Examples/Arrivals.antt =====
-- The handshake of the local end, one completion after the other.
use lproxy.Base.{◌≡◌, ℕ, false, refl, [], ◌∷◌, ◌++◌, generate, bytes_eq, codes}
use lproxy.Packet.{Packet, make_packet, data_len, request_code, reply_type}
use lproxy.Session.{
  status_data, status_code, assert_status, length_handshake, lss_pack_integrity_check, rectify,
  is_positive, sub_ℕ,
}
use lproxy.Local.State.{
  Session, hello_handler, exchange_handler, resolve_right, connect_any, read_right, write_right,
  new_session,
}
use lproxy.Local.Pack.{
  pack_hello, pack_exchange, generate_number, unpack_reply_hello, unpack_reply_exchange,
}
use lproxy.Local.Right.{
  start, resolved, right_connected, after_hello, after_exchange, check_status, on_hello, verified,
  on_exchange, on_packet, handle_packet, right_read,
}
use lproxy.Local.World.{
  Completion, after_right, handler, complete, step, Reach, here, next, started,
}
use lproxy.Examples.Ends.{empty_packet, data_key, auth_key, number, near}

abbrev arrived : ℕ → Packet → Completion
arrived n packet = record {
  error = false;
  bytes = n;
  packet = packet;
  bytes_read = [];
  endpoints = 1 ∷ [];
  rand = λ i. 1;
}

-- The server's hello: a key of 1024 bits.
abbrev hello_packet : Packet
hello_packet = record empty_packet {
  type = 1;
  data_len_low_byte = 5;
  payload = 4 ∷ 0 ∷ 1 ∷ 2 ∷ 3 ∷ [];
}

abbrev key_packet : Packet
key_packet = record empty_packet { type = 3; data_len_low_byte = 42; payload = data_key ++ number }

abbrev request_packet : Packet
request_packet = make_packet 0 2 43 (1024 ∷ auth_key ++ number)

abbrev resolved_name : Session
resolved_name =
    (complete near (started near) [] (resolve_right (104 ∷ []) (codes "8088")) []
      (arrived 0 empty_packet)).1

abbrev connected : Session
connected = (complete near resolved_name [] (connect_any (1 ∷ [])) [] (arrived 0 empty_packet)).1

abbrev said_hello : Session
said_hello =
    (complete near connected [] (write_right pack_hello hello_handler) []
      (arrived 0 empty_packet)).1

abbrev read_hello : Session
read_hello =
    (complete near said_hello [] (read_right length_handshake) [] (arrived 9 hello_packet)).1

abbrev sent_exchange : Session
sent_exchange =
    (complete near read_hello [] (write_right request_packet exchange_handler) []
      (arrived 0 empty_packet)).1

abbrev pub has_key : Session
has_key =
    (complete near sent_exchange [] (read_right length_handshake) [] (arrived 46 key_packet)).1

started-issued : (started near).issued ≡ resolve_right (104 ∷ []) (codes "8088") ∷ []
unfolding started start new_session
started-issued = refl

resolved_name-issued : resolved_name.issued ≡ connect_any (1 ∷ []) ∷ []
unfolding complete handler resolved
resolved_name-issued = refl

connected-issued : connected.issued ≡ write_right pack_hello hello_handler ∷ []
unfolding complete handler right_connected
connected-issued = refl

said_hello-issued : said_hello.issued ≡ read_right length_handshake ∷ []
unfolding complete handler after_right after_hello
said_hello-issued = refl

read_hello-issued : read_hello.issued ≡ write_right request_packet exchange_handler ∷ []
unfolding complete handler after_right after_hello right_read rectify handle_packet
    lss_pack_integrity_check data_len reply_type on_packet on_hello check_status assert_status
    status_code unpack_reply_hello pack_exchange generate_number generate make_packet request_code
    sub_ℕ is_positive
read_hello-issued = refl

sent_exchange-issued : sent_exchange.issued ≡ read_right length_handshake ∷ []
unfolding complete handler after_right after_exchange
sent_exchange-issued = refl

pub has_key-status : has_key.status ≡ status_data
unfolding complete handler started new_session start resolved right_connected after_right
    after_hello after_exchange right_read rectify handle_packet lss_pack_integrity_check data_len
    reply_type on_packet on_hello on_exchange check_status assert_status status_code verified
    unpack_reply_hello unpack_reply_exchange pack_exchange generate_number generate make_packet
    bytes_eq sub_ℕ is_positive
has_key-status = refl

pub has_key-Reach : Reach near (started near) has_key
has_key-Reach =
    next
      (next
        (next
          (next
            (next (next here (step _ [] _ [] (arrived 0 empty_packet) started-issued))
              (step resolved_name [] _ [] (arrived 0 empty_packet) resolved_name-issued))
            (step connected [] _ [] (arrived 0 empty_packet) connected-issued))
          (step said_hello [] _ [] (arrived 9 hello_packet) said_hello-issued))
        (step read_hello [] _ [] (arrived 0 empty_packet) read_hello-issued))
      (step sent_exchange [] _ [] (arrived 46 key_packet) sent_exchange-issued)
