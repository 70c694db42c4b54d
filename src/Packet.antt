-- ===== src/Packet.antt =====
-- core/lss/lss_packet.h: the packet that local and server exchange, its types, and the five
-- buffers (version, type, length high, length low, payload) that asio reads into and writes from.
-- A byte is a native number; `data_len_t` is 16 bits wide, and so are the shifts on it.
pub mod Codec
use lproxy.Base.{
  ℕ, ◌+◌, ◌-◌, ◌*◌, ◌/◌, ◌%◌, ◌==◌, if◌then◌else◌, List, [], ◌∷◌, ◌++◌, length, take, drop,
  replicate,
}

pub record Packet : Type 0 where
  pub version : ℕ
  pub type : ℕ
  pub data_len_high_byte : ℕ
  pub data_len_low_byte : ℕ
  pub payload : List ℕ

-- `data_t(data_initial_length, 0)` under a header that no peer sends: a packet to read into.
unfoldable pub fresh_packet : ℕ → Packet
fresh_packet data_initial_length = record {
  version = 0xff;
  type = 0xff;
  data_len_high_byte = 0;
  data_len_low_byte = 0;
  payload = replicate data_initial_length 0;
}

-- A size that is passed as a `data_len_t` keeps its low 16 bits.
abbrev pub to_data_len : ℕ → ℕ
to_data_len n = n % 65536

-- `__packet(version_, pack_type_, data_len_, data_)`.
unfoldable pub make_packet : ℕ → ℕ → ℕ → List ℕ → Packet
make_packet version_ pack_type data_len_ data_ = record {
  version = version_;
  type = pack_type;
  data_len_high_byte = (to_data_len data_len_ / 256) % 256;
  data_len_low_byte = to_data_len data_len_ % 256;
  payload = data_;
}

-- The low byte has 8 bits, so that `|` adds it to the shifted high byte.
unfoldable pub data_len : Packet → ℕ
data_len p = (p.data_len_high_byte * 256) % 65536 + p.data_len_low_byte

-- `get_vdata_from_lss_pack`: the five buffers, one after the other.
unfoldable pub buffers : Packet → List ℕ
buffers p = p.version ∷ p.type ∷ p.data_len_high_byte ∷ p.data_len_low_byte ∷ p.payload

-- `data.resize(size)`: cut, or filled up with zeros.
unfoldable pub resize : ℕ → List ℕ → List ℕ
resize n d = take n d ++ replicate (n - length d) 0

-- The values of the two `PackType` enumerations; `other` is a byte outside of them.
pub data RequestType : Type 0 where
  hello exchange plain_data zipdata bad : RequestType
  other : ℕ → RequestType

pub data ReplyType : Type 0 where
  hello exchange deny timeout plain_data zipdata bad : ReplyType
  other : ℕ → ReplyType

unfoldable pub request_code : RequestType → ℕ
request_code RequestType.hello = 0x00
request_code RequestType.exchange = 0x02
request_code RequestType.plain_data = 0x06
request_code RequestType.zipdata = 0x17
request_code RequestType.bad = 0xff
request_code (RequestType.other c) = c

unfoldable pub reply_code : ReplyType → ℕ
reply_code ReplyType.hello = 0x01
reply_code ReplyType.exchange = 0x03
reply_code ReplyType.deny = 0x04
reply_code ReplyType.timeout = 0x05
reply_code ReplyType.plain_data = 0x06
reply_code ReplyType.zipdata = 0x17
reply_code ReplyType.bad = 0xff
reply_code (ReplyType.other c) = c

-- `(request::PackType)pack.type`, as the `switch` on it tells the values apart.
unfoldable pub request_type : Packet → RequestType
request_type p =
    if p.type == 0x00
    then RequestType.hello
    else if p.type == 0x02
    then RequestType.exchange
    else if p.type == 0x06
    then RequestType.plain_data
    else if p.type == 0x17
    then RequestType.zipdata
    else if p.type == 0xff
    then RequestType.bad
    else RequestType.other p.type

unfoldable pub reply_type : Packet → ReplyType
reply_type p =
    if p.type == 0x01
    then ReplyType.hello
    else if p.type == 0x03
    then ReplyType.exchange
    else if p.type == 0x04
    then ReplyType.deny
    else if p.type == 0x05
    then ReplyType.timeout
    else if p.type == 0x06
    then ReplyType.plain_data
    else if p.type == 0x17
    then ReplyType.zipdata
    else if p.type == 0xff
    then ReplyType.bad
    else ReplyType.other p.type
