-- ===== src/Socks5/Response.antt =====
-- The answer to a request, against the layout of RFC 1928.
use lproxy.Base.{
  lt→ltb, le→leb, ◌/◌, ◌%◌, take_all, ap, bytes_at, ℕ, suc, ◌+◌, ◌≤◌, ◌<◌, ◌≡◌, refl, List, [], ◌∷◌,
  ◌++◌, length, take, ok, arith, length-append,
}
use lproxy.Session.{Exception}
use lproxy.Socks5.{
  Address, ipv4, ipv6, Resp, resp_pack, resp_pack_addr, set_ipv4, set_ipv6, set_domain,
  set_bind_port, port_bytes,
}
use lproxy.Socks5.Request.{address_type, address_bytes}

abbrev pub response_bytes : ℕ → Address → ℕ → List ℕ
response_bytes reply addr port =
    5 ∷ reply ∷ 0 ∷ address_type addr ∷ (address_bytes addr ++ port_bytes port)

-- An answer with an IP address is laid out as RFC 1928 says.
pub resp_pack-ip :
    (r : Resp) (ip : List ℕ) (port : ℕ)
    → r.reply ≤ 8
    → (length ip ≡ 4
        → resp_pack (set_bind_port (set_ipv4 r ip) port)
          ≡ ok (response_bytes r.reply (ipv4 ip) port))
      × (length ip ≡ 16
          → resp_pack (set_bind_port (set_ipv6 r ip) port)
            ≡ ok (response_bytes r.reply (ipv6 ip) port))
unfolding resp_pack resp_pack_addr set_ipv4 set_ipv6 set_bind_port
resp_pack-ip r ip port h = (
  λ k. ground (
    arith,
    take_all 6 (ip ++ port_bytes port) (omega (arith, length-append ip (port_bytes port))),
  ),
  λ k. ground (
    arith,
    take_all 18 (ip ++ port_bytes port) (omega (arith, length-append ip (port_bytes port))),
  ),
)

bytes_at_all : (name : List ℕ) → bytes_at {E = Exception} name 0 (length name) ≡ ok name
unfolding bytes_at
bytes_at_all name = ground (arith, take_all (length name) name)

cut :
    (name : List ℕ) (high low : ℕ)
    → take (1 + length name) (name ++ high ∷ low ∷ []) ≡ name ++ high ∷ []
cut [] high low = refl
cut (x ∷ name) high low =
    let e : 1 + length (x ∷ name) ≡ suc (1 + length name) = omega arith in
    rw e (ap (◌∷◌ x) (cut name high low))

-- An answer of a defined code with a domain name of less than 256 bytes lacks its last byte, the low
-- byte of the port.
pub resp_pack-domain :
    (r : Resp) (name : List ℕ) (port : ℕ)
    → r.reply ≤ 8
    → length name < 256
    → resp_pack (set_bind_port (set_domain r name) port)
      ≡ ok (5 ∷ r.reply ∷ 0 ∷ 3 ∷ length name ∷ (name ++ (port / 256) % 256 ∷ []))
unfolding resp_pack resp_pack_addr set_domain set_bind_port
resp_pack-domain r name port h k =
    let e : length name % 256 ≡ length name = omega arith in
    let high = (port / 256) % 256 in
    let low = port % 256 in
    let six : 6 + length name ≡ suc (suc (suc (suc (suc (1 + length name))))) = omega arith in
    rw (
      e,
      le→leb r.reply 8 h,
      lt→ltb (6 + length name) 263 (omega arith),
      bytes_at_all name,
      six,
      cut name high low,
    )
