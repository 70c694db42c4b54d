-- ===== src/Socks5/Request.antt =====
-- The request of RFC 1928: version, command, reserved, address, port.
use lproxy.Base.{
  byte_at-append', byte_at-append, bytes_at-append, ℕ, ◌+◌, ◌/◌, ◌%◌, ◌≤◌, ◌<◌, ◌≡◌, refl, ap, ◌∙◌,
  ◌⊎◌, some, List, [], ◌∷◌, ◌++◌, length, get_or, ok, fault, arith,
}
use lproxy.Socks5.{Address, ipv4, domain, ipv6, req, req_addr, port_of}

-- An address as RFC 1928 lays it out, and its type.
abbrev pub address_type : Address → ℕ
address_type (ipv4 ip) = 1
address_type (domain len name) = 3
address_type (ipv6 ip) = 4

abbrev pub address_bytes : Address → List ℕ
address_bytes (ipv4 ip) = ip
address_bytes (domain len name) = len ∷ name
address_bytes (ipv6 ip) = ip

abbrev pub IsAddress : Address → Type 0
IsAddress (ipv4 ip) = length ip ≡ 4
IsAddress (domain len name) = length name ≡ len
IsAddress (ipv6 ip) = length ip ≡ 16

abbrev pub request_bytes : ℕ → Address → ℕ → List ℕ → List ℕ
request_bytes cmd addr port rest =
    5 ∷ cmd ∷ 0 ∷ address_type addr ∷ (address_bytes addr ++ (port / 256) % 256 ∷ port % 256 ∷ rest)

port_of-bytes : (port : ℕ) → port < 65536 → port_of ((port / 256) % 256) (port % 256) ≡ port
port_of-bytes port h = omega arith

module _ (a b c d high low : ℕ) (rest : List ℕ) where
  req_addr-address :
      (addr : Address)
      → IsAddress addr
      → req_addr (a ∷ b ∷ c ∷ d ∷ (address_bytes addr ++ high ∷ low ∷ rest)) (address_type addr)
        ≡ ok (addr, port_of high low)
  unfolding req_addr
  req_addr-address (ipv4 ip) h = rw (
    bytes_at-append (a ∷ b ∷ c ∷ d ∷ []) ip (high ∷ low ∷ rest) 4 4 refl (omega arith),
    byte_at-append (a ∷ b ∷ c ∷ d ∷ ip) high (low ∷ rest) 8 (omega arith),
    byte_at-append' (a ∷ b ∷ c ∷ d ∷ ip) high low rest 9 (omega arith),
  )
  req_addr-address (domain len name) h = rw (
    byte_at-append (a ∷ b ∷ c ∷ d ∷ []) len (name ++ high ∷ low ∷ rest) 4 refl,
    bytes_at-append (a ∷ b ∷ c ∷ d ∷ len ∷ []) name (high ∷ low ∷ rest) 5 len refl (omega arith),
    byte_at-append (a ∷ b ∷ c ∷ d ∷ len ∷ name) high (low ∷ rest) (5 + len) (omega arith),
    byte_at-append' (a ∷ b ∷ c ∷ d ∷ len ∷ name) high low rest (6 + len) (omega arith),
  )
  req_addr-address (ipv6 ip) h = rw (
    bytes_at-append (a ∷ b ∷ c ∷ d ∷ []) ip (high ∷ low ∷ rest) 4 16 refl (omega arith),
    byte_at-append (a ∷ b ∷ c ∷ d ∷ ip) high (low ∷ rest) 20 (omega arith),
    byte_at-append' (a ∷ b ∷ c ∷ d ∷ ip) high low rest 21 (omega arith),
  )

req-header :
    (cmd addr_type : ℕ) (rest : List ℕ) (dest : Address × ℕ)
    → 1 ≤ cmd
    → cmd ≤ 3
    → 3 ≤ length rest
    → req_addr (5 ∷ cmd ∷ 0 ∷ addr_type ∷ rest) addr_type ≡ ok dest
    → req (some (5 ∷ cmd ∷ 0 ∷ addr_type ∷ rest))
      ≡ ok (record {
        version = 5;
        cmd = cmd;
        reserved = 0;
        addr_type = addr_type;
        dest_addr = dest.0;
        dest_port = dest.1;
      })
unfolding req
req-header cmd addr_type rest dest lo hi len e = ground arith

-- A request of a known command in the layout of RFC 1928, with what follows it at least 7 bytes, is
-- read back to its command, address and port, for each kind of address.
pub req-request_bytes :
    (cmd port : ℕ) (addr : Address) (rest : List ℕ)
    → 1 ≤ cmd
    → cmd ≤ 3
    → IsAddress addr
    → port < 65536
    → 7 ≤ length (request_bytes cmd addr port rest)
    → req (some (request_bytes cmd addr port rest))
      ≡ ok (record {
        version = 5;
        cmd = cmd;
        reserved = 0;
        addr_type = address_type addr;
        dest_addr = addr;
        dest_port = port;
      })
req-request_bytes cmd port addr rest lo hi h k len =
    let high = (port / 256) % 256 in
    let low = port % 256 in
    req-header cmd (address_type addr) (address_bytes addr ++ high ∷ low ∷ rest) (addr, port) lo hi
      (omega arith)
      (req_addr-address 5 cmd 0 (address_type addr) high low rest addr h
        ∙ ap (λ n. ok (addr, n)) (port_of-bytes port k))

-- A request of a known command with at least 7 bytes, whose address or port is cut short, is not
-- refused: it is read past the length that was given.
pub req-cut_short :
    (cmd addr_type : ℕ) (rest : List ℕ)
    → 1 ≤ cmd
    → cmd ≤ 3
    → 3 ≤ length rest
    → (addr_type ≡ 1) × (length rest < 6)
      ⊎ (addr_type ≡ 4) × (length rest < 18)
      ⊎ (addr_type ≡ 3) × (length rest < 3 + get_or rest 0 0)
    → req (some (5 ∷ cmd ∷ 0 ∷ addr_type ∷ rest)) ≡ fault
unfolding req req_addr
req-cut_short cmd addr_type rest lo hi len h = ground arith
