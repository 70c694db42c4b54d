-- ===== src/Examples/Messages.antt =====
-- Runs of the theorems on the messages of SOCKS5.
use lproxy.Base.{◌≡◌, refl, arith, inl, some, [], ◌∷◌, ok, fault}
use lproxy.Socks5.{domain, ipv4, req, resp_pack, set_domain, set_bind_port}
use lproxy.Socks5.Request.{req-request_bytes, req-cut_short}
use lproxy.Socks5.Response.{resp_pack-domain}

req-request_bytes_example :
    req (some (5 ∷ 1 ∷ 0 ∷ 3 ∷ 2 ∷ 100 ∷ 108 ∷ 0x1f ∷ 0x98 ∷ []))
    ≡ ok (record {
      version = 5;
      cmd = 1;
      reserved = 0;
      addr_type = 3;
      dest_addr = domain 2 (100 ∷ 108 ∷ []);
      dest_port = 8088;
    })
req-request_bytes_example =
    req-request_bytes 1 8088 (domain 2 (100 ∷ 108 ∷ [])) [] (omega arith) (omega arith) refl
      (omega arith) (omega arith)

req-cut_short_example : req (some (5 ∷ 1 ∷ 0 ∷ 1 ∷ 127 ∷ 0 ∷ 0 ∷ [])) ≡ fault
req-cut_short_example =
    req-cut_short 1 1 (127 ∷ 0 ∷ 0 ∷ []) (omega arith) (omega arith) (omega arith)
      (inl (refl, omega arith))

resp_pack-domain_example :
    resp_pack (
      set_bind_port
        (set_domain
          (record { reply = 0; addr_type = 1; bind_addr = ipv4 []; bind_port = 0 })
          (100 ∷ 108 ∷ []))
        8088)
    ≡ ok (5 ∷ 0 ∷ 0 ∷ 3 ∷ 2 ∷ 100 ∷ 108 ∷ 0x1f ∷ [])
resp_pack-domain_example =
    resp_pack-domain (record { reply = 0; addr_type = 1; bind_addr = ipv4 []; bind_port = 0 })
      (100 ∷ 108 ∷ []) 8088 (omega arith) (omega arith)
