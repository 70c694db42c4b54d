-- ===== src/Server/Settled.antt =====
-- From a request of the SOCKS client to the connection with the remote host, and the answer to it.
use lproxy.Base.{
  append-nil, length-append, ◌/◌, ◌%◌, ℕ, ◌≤◌, ◌<◌, ◌≡◌, refl, true, false, ◌==◌, some, List, [],
  ◌∷◌, ◌++◌, length, take_all, c_string, ok, arith, if◌then◌else◌, Bool-cases, inl, inr,
}
use lproxy.Packet.{make_packet, ReplyType, reply_code, Packet}
use lproxy.Session.{max_length, status_data}
use lproxy.Socks5.{ipv4, domain, connected, connecting, opening, Resp}
use lproxy.Socks5.Request.{request_bytes, req-request_bytes}
use lproxy.Socks5.Response.{response_bytes, resp_pack-ip}
use lproxy.Server.State.{
  cancel_timer, read_right_tcp, Session, Env, Answers, cmd_connect, wait_timer, resolve_tcp,
  write_left, read_left, left_write_handler, issue, cancel,
}
use lproxy.Server.Pack.{pack_data}
use lproxy.Server.Answer.{
  pack_socks5_resp, socks5_resp_to_local, socks5_request_processing, process_cmd, dest_name_of,
  addr_type_of,
}
use lproxy.Server.Left.{on_plain_data}
use lproxy.Server.Right.{answer_with, tcp_connected, after_left_write}

module _ (env : Env) where
  -- The first data packet with a CONNECT request to a domain that is not empty, as RFC 1928 lays it
  -- out, starts the timer and the resolution of that domain and port. These are stored with the
  -- command, and the session is connecting.
  pub on_plain_data-connect :
      (answers : Answers) (name text : List ℕ) (len port rest n : ℕ) (request : Packet)
      (s : Session)
      → length name ≡ len
      → 0 < len
      → port < 65536
      → on_plain_data env answers opening
          (request_bytes 1 (domain len name) port text)
          rest
          n
          request
          s
        ≡ (
          ok tt,
          record s {
            socks5_state = connecting;
            socks5_cmd = cmd_connect;
            dest_name = name;
            dest_port = port;
            issued =
                (s.issued ++ wait_timer env.config.timeout ∷ [])
                ++ resolve_tcp (c_string name) port ∷ [];
          },
        )
  unfolding on_plain_data socks5_request_processing dest_name_of process_cmd
  on_plain_data-connect answers name text len port rest n request s e k h =
      rw
        (req-request_bytes 1 port (domain len name) text (omega arith) (omega arith) e h
          (omega (arith, length-append name ((port / 256) % 256 ∷ port % 256 ∷ text))))
        refl

  pack_socks5_resp-bytes :
      (ip : List ℕ) (reply : ℕ)
      → env.v4_of_string (c_string env.config.bind_addr) ≡ some ip
      → length ip ≡ 4
      → reply ≤ 8
      → pack_socks5_resp env reply ≡ ok (response_bytes reply (ipv4 ip) env.config.bind_port)
  unfolding pack_socks5_resp
  pack_socks5_resp-bytes ip reply e h k =
      let resp : Resp = record {
        reply = reply;
        addr_type = addr_type_of env.config.bind_addr_type;
        bind_addr = ipv4 [];
        bind_port = 0;
      } in
      rw (pack_socks5_resp, e) ((resp_pack-ip resp ip env.config.bind_port k).0 h)

  -- A reply code of at most 8 is stored and answered with the bytes of RFC 1928, encrypted under the
  -- data key; code 0 also makes the session connected and reads from the left. The address that the
  -- configuration names reads as an IPv4 address.
  pub answer_with-answers :
      (ip key : List ℕ) (reply : ℕ) (s : Session)
      → env.v4_of_string (c_string env.config.bind_addr) ≡ some ip
      → length ip ≡ 4
      → reply ≤ 8
      → s.aes_encryptor ≡ some key
      → let text = response_bytes reply (ipv4 ip) env.config.bind_port in
        let cipher = env.aes_encrypt key text in
        let type = if env.config.zip_on then ReplyType.zipdata else ReplyType.plain_data in
        let packet = make_packet 0 (reply_code type) (length cipher) cipher in
        answer_with env reply s ≡ (
          ok tt,
          record s {
            socks5_resp_reply = reply;
            socks5_state = if reply == 0 then connected else s.socks5_state;
            issued =
                (s.issued ++ write_left packet left_write_handler ∷ [])
                ++ (if reply == 0 then read_left max_length ∷ [] else []);
          },
        )
  unfolding answer_with socks5_resp_to_local pack_data make_packet
  answer_with-answers ip key reply s e h k enc = elim (Bool-cases (reply == 0)) [
    | inl z ↦
        rw
          (
            pack_socks5_resp-bytes ip reply e h k,
            z,
            pack_data,
            enc,
            take_all (length (response_bytes reply (ipv4 ip) env.config.bind_port))
                (response_bytes reply (ipv4 ip) env.config.bind_port) (omega arith),
          )
          refl
    | inr z ↦
        rw
          (
            pack_socks5_resp-bytes ip reply e h k,
            z,
            pack_data,
            enc,
            take_all (length (response_bytes reply (ipv4 ip) env.config.bind_port))
                (response_bytes reply (ipv4 ip) env.config.bind_port) (omega arith),
            append-nil,
          )
          refl
  ]

  -- A CONNECT request in `status_data` is settled, when its answer is written: after a success the
  -- session reads from the remote host, after a failure at the last endpoint it cancels itself. There
  -- is a data key, and the address that the configuration names reads as an IPv4 address.
  pub tcp_connected-settles :
      (ip key rest : List ℕ) (s : Session)
      → env.v4_of_string (c_string env.config.bind_addr) ≡ some ip
      → length ip ≡ 4
      → s.aes_encryptor ≡ some key
      → s.status ≡ status_data
      → s.socks5_cmd ≡ cmd_connect
      → (let good = (tcp_connected env false rest s).1 in
          after_left_write env false good ≡ issue (read_right_tcp max_length) good)
        × (let bad = (tcp_connected env true [] s).1 in after_left_write env false bad ≡ cancel bad)
  unfolding tcp_connected after_left_write
  tcp_connected-settles ip key rest s e h enc st cmd =
      let s' = record s { issued = s.issued ++ cancel_timer ∷ [] } in
      (
        rw (answer_with-answers ip key 0 s' e h (omega arith) enc, st, cmd) refl,
        rw (answer_with-answers ip key 3 s' e h (omega arith) enc, st) refl,
      )
