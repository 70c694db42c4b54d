-- ===== src/Socks5.antt =====
-- core/lss/socks5_protocol.h: the greeting and the request of a SOCKS5 client, and the answers.
-- A constructor takes a pointer and a length: `none` is the null pointer, and a read past the
-- length is a fault.
pub mod Ident
pub mod Request
pub mod Response
use lproxy.Base.{
  ℕ, ◌+◌, ◌*◌, ◌/◌, ◌%◌, Bool, true, false, ◌||◌, ltb, leb, ◌==◌, if◌then◌else◌, Option, none, some,
  List, [], ◌∷◌, ◌++◌, length, take, Outcome, ok, throw, fault, ◌>>=◌, ◌>>◌, guard, byte_at,
  bytes_at,
}
use lproxy.Session.{Result, Exception, illegal_data_type, unsupported_version, other_exception}

abbrev pub socks_version : ℕ
socks_version = 5

-- The state of a session at the server.
pub data Socks5State : Type 0 where
  opening connecting connected : Socks5State

pub record IdentReq : Type 0 where
  pub version : ℕ
  pub number_of_methods : ℕ
  pub methods : List ℕ

unfoldable pub ident_req : Option (List ℕ) → Result IdentReq
unfolding byte_at bytes_at
ident_req none = throw illegal_data_type
ident_req (some buf) = do
  guard (leb 3 (length buf)) illegal_data_type
  version ← byte_at buf 0
  guard (version == socks_version) unsupported_version
  number ← byte_at buf 1
  methods ← bytes_at buf 2 number
  ok (record { version = version; number_of_methods = number; methods = methods })

-- Whether the loop over `Methods` meets 0x00, no authentication.
unfoldable pub offers_no_auth : List ℕ → Bool
offers_no_auth [] = false
offers_no_auth (v ∷ vs) = if v == 0 then true else offers_no_auth vs

unfoldable pub ident_resp_pack : Option IdentReq → List ℕ
unfolding offers_no_auth
ident_resp_pack none = 0x05 ∷ 0x00 ∷ []
ident_resp_pack (some r) =
    if offers_no_auth r.methods then r.version ∷ 0x00 ∷ [] else 0x05 ∷ 0xff ∷ []

-- `boost::variant<Ipv4_t, Domain_t, Ipv6_t>`.
pub data Address : Type 0 where
  ipv4 : List ℕ → Address
  domain : ℕ → List ℕ → Address
  ipv6 : List ℕ → Address

pub record Req : Type 0 where
  pub version : ℕ
  pub cmd : ℕ
  pub reserved : ℕ
  pub addr_type : ℕ
  pub dest_addr : Address
  pub dest_port : ℕ

-- `(high << 8) & 0xff00 | low`, for two bytes.
abbrev pub port_of : ℕ → ℕ → ℕ
port_of high low = (high * 256) % 65536 + low

-- The `switch` on `AddrType`: the address and the port behind it.
unfoldable pub req_addr : List ℕ → ℕ → Result (Address × ℕ)
unfolding byte_at bytes_at
req_addr buf addr_type =
    if addr_type == 0x01
    then (do
      ip ← bytes_at buf 4 4
      high ← byte_at buf 8
      low ← byte_at buf 9
      ok (ipv4 ip, port_of high low))
    else if addr_type == 0x03
    then (do
      domain_len ← byte_at buf 4
      name ← bytes_at buf 5 domain_len
      high ← byte_at buf (5 + domain_len)
      low ← byte_at buf (6 + domain_len)
      ok (domain domain_len name, port_of high low))
    else if addr_type == 0x04
    then (do
      ip ← bytes_at buf 4 16
      high ← byte_at buf 20
      low ← byte_at buf 21
      ok (ipv6 ip, port_of high low))
    else throw illegal_data_type

unfoldable pub req : Option (List ℕ) → Result Req
unfolding byte_at
req none = throw illegal_data_type
req (some buf) = do
  guard (leb 7 (length buf)) illegal_data_type
  version ← byte_at buf 0
  guard (version == socks_version) unsupported_version
  cmd ← byte_at buf 1
  guard (cmd == 0x01 || cmd == 0x02 || cmd == 0x03) illegal_data_type
  reserved ← byte_at buf 2
  guard (reserved == 0x00) illegal_data_type
  addr_type ← byte_at buf 3
  dest ← req_addr buf addr_type
  ok (record {
    version = version;
    cmd = cmd;
    reserved = reserved;
    addr_type = addr_type;
    dest_addr = dest.0;
    dest_port = dest.1;
  })

pub record Resp : Type 0 where
  pub reply : ℕ
  pub addr_type : ℕ
  pub bind_addr : Address
  pub bind_port : ℕ

unfoldable pub set_ipv4 : Resp → List ℕ → Resp
set_ipv4 r ip = record r { addr_type = 0x01; bind_addr = ipv4 ip }

unfoldable pub set_ipv6 : Resp → List ℕ → Resp
set_ipv6 r ip = record r { addr_type = 0x04; bind_addr = ipv6 ip }

-- `(byte)name.size()`.
unfoldable pub set_domain : Resp → List ℕ → Resp
set_domain r name = record r { addr_type = 0x03; bind_addr = domain (length name % 256) name }

unfoldable pub set_bind_port : Resp → ℕ → Resp
set_bind_port r port = record r { bind_port = port }

-- `(BindPort >> 8) & 0xff` and `BindPort & 0xff`.
abbrev pub port_bytes : ℕ → List ℕ
port_bytes port = (port / 256) % 256 ∷ port % 256 ∷ []

-- The array is written from its start without a gap, so that what is assigned to `data` is a
-- beginning of what was written. `boost::get` throws on another alternative.
unfoldable pub resp_pack_addr : Address → ℕ → List ℕ → ℕ → Result (List ℕ)
unfolding bytes_at
resp_pack_addr addr addr_type header port =
    if addr_type == 0x01
    then (elim addr [
      | ipv4 ip ↦ ok (take 10 (header ++ ip ++ port_bytes port))
      | _ ↦ throw other_exception
    ])
    else if addr_type == 0x03
    then (elim addr [
      | domain len name ↦ do
        guard (ltb (6 + len) 263) illegal_data_type
        written ← bytes_at name 0 len
        ok (take (6 + len) (header ++ len ∷ (written ++ port_bytes port)))
      | _ ↦ throw other_exception
    ])
    else if addr_type == 0x04
    then (elim addr [
      | ipv6 ip ↦ ok (take 22 (header ++ ip ++ port_bytes port))
      | _ ↦ throw other_exception
    ])
    else throw illegal_data_type

unfoldable pub resp_pack : Resp → Result (List ℕ)
resp_pack r = do
  guard (leb r.reply 0x08) illegal_data_type
  resp_pack_addr r.bind_addr r.addr_type (0x05 ∷ r.reply ∷ 0x00 ∷ r.addr_type ∷ []) r.bind_port
