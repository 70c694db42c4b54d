-- ===== src/Session/Stream.antt =====
-- A packet buffer that holds a whole packet and bytes behind it, as `left_read_handler`
-- (session_server.cpp) and `right_read_handler` (session_local.cpp) find it.
pub mod Delivery
use lproxy.Base.{
  ℕ, zero, suc, ◌+◌, ◌-◌, ◌≤◌, ◌<◌, ◌≡◌, refl, ap, sym, ◌∙◌, Bool, true, false, ltb, Bool-cases,
  inl, inr, ◌&&◌, if◌then◌else◌, List, [], ◌∷◌, ◌++◌, length, take, drop, length-append,
  length-take, drop-length-append, arith, Outcome, ok, throw, fault, le→ltb, lt→ltb,
}
use lproxy.Packet.{Packet, data_len, buffers}
use lproxy.Packet.Codec.{Holds, Receives, Holds-Receives}
use lproxy.Session.{
  Result, pos, negsuc, is_positive, to_size, incomplete_data, other_exception,
  lss_pack_integrity_check, cut_lss, rectify, trim_incomplete,
}
use lproxy.Session.Framing.{
  rest_buffer, integrity_check-ok, integrity_check-incomplete, trim_incomplete-Holds, rectify-Holds,
  cut_lss-Holds,
}

pub length-Holds : (p : Packet) (n : ℕ) (s : List ℕ) → Holds p n s → n ≡ length s
unfolding buffers
length-Holds p n s h = omega (arith, ap length h.read, length-take n (buffers p))

-- A packet whose header announces the payload that it has.
abbrev pub IsSized : Packet → Type 0
IsSized q = data_len q ≡ length q.payload

module _ (p q : Packet) (n : ℕ) (tail : List ℕ) (sized : IsSized q)
    (h : Holds p n (buffers q ++ tail)) where
  pub size : n ≡ 4 + length q.payload + length tail
  unfolding buffers
  size = omega (arith, length-Holds p n (buffers q ++ tail) h, length-append q.payload tail)

  pub announced : data_len p ≡ length q.payload
  announced = (Holds-Receives p q n tail h).data_len ∙ sized

  pub whole_packet : lss_pack_integrity_check n p ≡ ok tt
  whole_packet = integrity_check-ok n p (omega (arith, size, announced))

  start : n - (n - (4 + data_len p)) ≡ 4 + length q.payload
  start = omega (arith, size, announced)

  rest : n - (4 + data_len p) ≡ length tail
  rest = omega (arith, size, announced)

  pub left_over : n - (4 + length q.payload) ≡ length tail
  left_over = omega (arith, size)

  pub behind : drop (4 + length q.payload) (buffers q ++ tail) ≡ tail
  unfolding buffers
  behind =
      let e : 4 + length q.payload ≡ length (buffers q) = omega arith in
      ap (λ k. drop k (buffers q ++ tail)) e ∙ drop-length-append (buffers q) tail

  pub payload : take (data_len p) p.payload ≡ q.payload
  payload = ap (λ k. take k p.payload) announced ∙ (Holds-Receives p q n tail h).payload
