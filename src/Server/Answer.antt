-- ===== src/Server/Answer.antt =====
-- The SOCKS answer to the local end, and the processing of a SOCKS request.
use lproxy.Base.{
  cond, ℕ, ◌==◌, if◌then◌else◌, none, some, List, [], ◌∷◌, length, ok, throw, c_string, bytes_eq,
}
use lproxy.Base.Handler.{ret, lift, update, read, ◌>>=◌, ◌>>◌}
use lproxy.Session.{max_length, Result, illegal_data_type, other_exception}
use lproxy.Socks5.{
  Address, ipv4, domain, ipv6, Req, Resp, resp_pack, set_ipv4, set_bind_port, connected,
}
use lproxy.Server.State.{
  M, Env, Answers, AddrTypeName, named_ipv4, named_ipv6, named_domain, named_otherwise, cmd_connect,
  cmd_udp, cmd_unsupport, read_left, write_left, left_write_handler, resolve_tcp, resolve_udp,
  wait_timer, issue,
}
use lproxy.Server.Pack.{pack_data}

unfoldable pub addr_type_of : AddrTypeName → ℕ
addr_type_of named_ipv4 = 0x01
addr_type_of named_ipv6 = 0x04
addr_type_of named_domain = 0x03
addr_type_of named_otherwise = 0x01

abbrev zero_address : List ℕ
zero_address = 0x30 ∷ 0x2e ∷ 0x30 ∷ 0x2e ∷ 0x30 ∷ 0x2e ∷ 0x30 ∷ []

module _ (env : Env) where
  -- The address type of the configuration is overwritten by `set_IPv4`.
  unfoldable pub pack_socks5_resp : ℕ → Result (List ℕ)
  unfolding addr_type_of set_ipv4 set_bind_port
  pack_socks5_resp reply = elim (env.v4_of_string (c_string env.config.bind_addr)) [
    | none ↦ throw other_exception
    | some ip ↦
        let resp : Resp = record {
          reply = reply;
          addr_type = addr_type_of env.config.bind_addr_type;
          bind_addr = ipv4 [];
          bind_port = 0;
        } in
        resp_pack (set_bind_port (set_ipv4 resp ip) env.config.bind_port)
  ]

  unfoldable pub socks5_resp_to_local : M (Unit {0})
  unfolding pack_socks5_resp
  socks5_resp_to_local = do
    reply ← read (λ s. s.socks5_resp_reply)
    text ← lift (pack_socks5_resp reply)
    if reply == 0x00 then update (λ s. record s { socks5_state = connected }) else ret tt
    packet ← pack_data env text (length text)
    issue (write_left packet left_write_handler)
    if reply == 0x00 then issue (read_left max_length) else ret tt

  unfoldable pub resolve_connect_tcp : List ℕ → ℕ → M (Unit {0})
  resolve_connect_tcp name port = do
    issue (wait_timer env.config.timeout)
    issue (resolve_tcp name port)

  unfoldable pub resolve_open_udp : List ℕ → ℕ → M (Unit {0})
  resolve_open_udp name port = issue (resolve_udp name port)

  -- The destination's name: `boost::get` throws where the type and the address do not agree.
  unfoldable pub dest_name_of : ℕ → Address → Result (List ℕ)
  dest_name_of addr_type addr =
      if addr_type == 0x01
      then (elim addr [ ipv4 ip ↦ ok (env.v4_to_string ip) | _ ↦ throw other_exception ])
      else if addr_type == 0x03
      then (elim addr [ domain len name ↦ ok name | _ ↦ throw other_exception ])
      else if addr_type == 0x04
      then (elim addr [ ipv6 ip ↦ ok (env.v6_to_string ip) | _ ↦ throw other_exception ])
      else throw illegal_data_type

  unfoldable pub process_cmd : Answers → ℕ → List ℕ → ℕ → M (Unit {0})
  unfolding resolve_connect_tcp resolve_open_udp
  process_cmd answers cmd name port =
      if cmd == 0x01
      then (do
        update (λ s. record s { socks5_cmd = cmd_connect })
        resolve_connect_tcp (c_string name) port)
      else if cmd == 0x02
      then (do
        update (λ s. record s { socks5_cmd = cmd_unsupport; socks5_resp_reply = 0x07 })
        socks5_resp_to_local)
      else if cmd == 0x03
      then (do
        update (λ s. record s { socks5_cmd = cmd_udp })
        cond (bytes_eq name zero_address)
            (do
              update (λ s. record s { socks5_resp_reply = cond answers.udp_open_error 0x01 0x00 })
              socks5_resp_to_local)
            (resolve_open_udp (c_string name) port))
      else (do
        update (λ s. record s { socks5_cmd = cmd_unsupport; socks5_resp_reply = 0x07 })
        socks5_resp_to_local)

  unfoldable pub socks5_request_processing : Answers → Req → M (Unit {0})
  unfolding dest_name_of process_cmd
  socks5_request_processing answers rq = do
    name ← lift (dest_name_of rq.addr_type rq.dest_addr)
    update (λ s. record s { dest_name = name; dest_port = rq.dest_port })
    process_cmd answers rq.cmd name rq.dest_port
