-- ===== src/Packet/Codec.antt =====
-- What one end writes through the buffers of a packet is what the other end reads back.
use lproxy.Base.{ℕ, zero, suc, ◌+◌, ◌%◌, ◌≤◌, ◌≡◌, refl, List, [], ◌∷◌, ◌++◌, length, take, arith}
use lproxy.Packet.{Packet, make_packet, data_len, buffers}

-- The first `n` bytes of the packet's buffers are `stream`.
pub record Holds (p : Packet) (n : ℕ) (stream : List ℕ) : Type 0 where
  pub within : n ≤ 4 + length p.payload
  pub read : take n (buffers p) ≡ stream

-- The length field of a packet is the size given to it, modulo 2^16.
pub data_len-make_packet :
    (version type len : ℕ) (payload : List ℕ)
    → data_len (make_packet version type len payload) ≡ len % 65536
unfolding data_len make_packet
data_len-make_packet version type len payload = omega arith

pub take_prefix : (n : ℕ) (xs ys zs : List ℕ) → take n zs ≡ xs ++ ys → take (length xs) zs ≡ xs
take_prefix n [] ys zs h = refl
take_prefix zero (x ∷ xs) ys zs h = cc
take_prefix (suc n) (x ∷ xs) ys [] h = cc
take_prefix (suc n) (x ∷ xs) ys (z ∷ zs) h = ground (arith, take_prefix n xs ys zs)

-- A packet whose buffers hold a written packet, and perhaps more, has its header and its payload.
pub record Receives (p q : Packet) : Type 0 where
  pub version : p.version ≡ q.version
  pub type : p.type ≡ q.type
  pub data_len : data_len p ≡ data_len q
  pub payload : take (length q.payload) p.payload ≡ q.payload

pub Holds-Receives :
    (p q : Packet) (n : ℕ) (more : List ℕ) → Holds p n (buffers q ++ more) → Receives p q
unfolding buffers data_len
Holds-Receives p q n more h = ground (arith, take_prefix n (buffers q) more (buffers p) h.read)
