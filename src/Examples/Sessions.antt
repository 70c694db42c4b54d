-- ===== src/Examples/Sessions.antt =====
-- Runs of the theorems on the sessions: a handshake step by step, and what is refused.
use mathlib.Core.Bool.{true≢false}
use lproxy.Base.{
  ◌==◌, generate, c_string, ℕ, ◌+◌, ◌%◌, ◌≡◌, ◌≢◌, refl, arith, ap, Bool, List, [], ◌∷◌, ◌++◌, ok,
  length, take, contains, bytes_eq,
}
use lproxy.Packet.{Packet, make_packet, data_len, request_type, ReplyType, reply_code, reply_type}
use lproxy.Session.{
  status_hello, status_auth, status_data, status_code, trim_incomplete, sub_ℕ,
  lss_pack_integrity_check, assert_status, rectify, is_positive,
}
use lproxy.Local.State as Near
use lproxy.Server.State as Far
use lproxy.Server.Pack.{pack_data, unpack_data, pack_hello, pack_exchange, unpack_request_exchange}
use lproxy.Server.Left.{
  handle_packet, on_packet, on_exchange, on_hello, check_status, left_read, start,
}
use lproxy.Server.Right.{after_hello, after_exchange}
use lproxy.Server.Guarded.{handle_packet-wrong_status, handle_packet-not_whole}
use lproxy.Server.World.{Reach, here, next, step, complete, handler, after_left, started}
use lproxy.Server.World.Encrypted.{status_data-encrypts}
use lproxy.Local.Right as NearRight
use lproxy.Local.Refused.{unexpected-refused}
use lproxy.Examples.Ends.{
  empty_packet, completed, auth_key, number, near, far, answers, near_auth, far_auth, far_ready,
}

-- The exchange of `near`: 43 bytes of cipher text.
abbrev exchange_packet : Packet
exchange_packet = record empty_packet {
  type = 2;
  data_len_low_byte = 43;
  payload = 0 ∷ (auth_key ++ number);
}

abbrev greeted : Far.Session
greeted =
    (complete far (started Far.cmd_connect 0 0) [] (Far.read_left 1024) []
      (completed 4 empty_packet)).1

abbrev said_hello : Far.Session
said_hello =
    (complete far greeted [] (Far.write_left (pack_hello far) Far.hello_handler) []
      (completed 0 empty_packet)).1

abbrev sent_key : Far.Session
sent_key = (complete far said_hello [] (Far.read_left 1024) [] (completed 47 exchange_packet)).1

greeted-issued : greeted.issued ≡ Far.write_left (pack_hello far) Far.hello_handler ∷ []
unfolding complete handler left_read started start rectify handle_packet lss_pack_integrity_check
    data_len request_type on_packet on_hello check_status assert_status status_code sub_ℕ
    is_positive
greeted-issued = refl

said_hello-issued : said_hello.issued ≡ Far.read_left 1024 ∷ []
unfolding complete handler after_left after_hello
said_hello-issued = refl

said_hello-status : said_hello.status ≡ status_auth
unfolding complete handler after_left after_hello
said_hello-status = refl

-- What the server answers: its data key and the string of the local end.
abbrev key_packet : Packet
key_packet = record empty_packet {
  version = 0;
  type = 3;
  data_len_low_byte = 42;
  payload = generate answers.rand 32 (λ r. r % 255) ++ number;
}

sent_key-issued : sent_key.issued ≡ Far.write_left key_packet Far.exchange_handler ∷ []
unfolding complete handler left_read after_left after_hello rectify handle_packet
    lss_pack_integrity_check data_len request_type on_packet on_exchange check_status assert_status
    status_code sub_ℕ is_positive unpack_request_exchange pack_exchange contains bytes_eq c_string
    generate make_packet reply_code
sent_key-issued = refl

abbrev pub has_key : Far.Session
has_key =
    (complete far sent_key [] (Far.write_left key_packet Far.exchange_handler) []
      (completed 0 empty_packet)).1

pub has_key-status : has_key.status ≡ status_data
unfolding complete handler after_left after_exchange
has_key-status = refl

pub has_key-Reach : Reach far (started Far.cmd_connect 0 0) has_key
unfolding started start
has_key-Reach =
    next
      (next
        (next (next here (step _ [] _ [] (completed 4 empty_packet) refl))
          (step greeted [] _ [] (completed 0 empty_packet) greeted-issued))
        (step said_hello [] _ [] (completed 47 exchange_packet) said_hello-issued))
      (step sent_key [] _ [] (completed 0 empty_packet) sent_key-issued)

status_data-encrypts_example :
    (key : List ℕ) × ((text : List ℕ) (n : ℕ)
      → pack_data far text n has_key ≡ (
        ok (make_packet 0 (reply_code ReplyType.plain_data) (length (take n text)) (take n text)),
        has_key,
      ))
    × ((request : Packet) (n : ℕ) (is_zip : Bool)
        → unpack_data far n request is_zip has_key
          ≡ (ok (take (data_len request) request.payload, sub_ℕ n (4 + data_len request)), has_key))
status_data-encrypts_example =
    status_data-encrypts far Far.cmd_connect 0 0 has_key has_key-Reach has_key-status

data-hello : status_data ≢ status_hello
unfolding status_code
data-hello e = true≢false (ap (λ t. status_code t == 4) e)

auth-data : status_auth ≢ status_data
unfolding status_code
auth-data e = true≢false (ap (λ t. status_code t == 3) e)

-- A hello in `status_data`.
handle_packet-wrong_status_example :
    handle_packet far answers 4 empty_packet far_ready ≡ Far.cancel far_ready
unfolding data_len request_type
handle_packet-wrong_status_example =
    handle_packet-wrong_status far answers 4 empty_packet status_hello far_ready (omega arith) refl
      data-hello

handle_packet-not_whole_example :
    handle_packet far answers 10 exchange_packet far_auth
    ≡ Far.issue (Far.read_left_rest 37 (trim_incomplete 10 exchange_packet)) far_auth
unfolding data_len
handle_packet-not_whole_example =
    handle_packet-not_whole far answers 10 exchange_packet far_auth (omega arith)

-- Data of the server before the key is agreed on.
unexpected-refused_example :
    NearRight.handle_packet near
      (λ i. i)
      12
      (record empty_packet { type = 6; data_len_low_byte = 8 })
      near_auth
    ≡ Near.cancel near_auth
unfolding data_len reply_type
unexpected-refused_example =
    unexpected-refused near (λ i. i) 12 (record empty_packet { type = 6; data_len_low_byte = 8 })
      status_data near_auth refl auth-data
