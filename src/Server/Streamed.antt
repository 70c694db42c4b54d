-- ===== src/Server/Streamed.antt =====
-- The data branch of `left_read_handler` over the bytes of the stream from the local end, in a
-- connected CONNECT session.
use lproxy.Base.{
  ℕ, ◌+◌, ◌-◌, ◌≤◌, ◌<◌, ◌≡◌, refl, ◌==◌, Bool, true, ltb, some, List, ◌++◌, length, ok, arith, inl,
  inr, lt→ltb, Bool-cases,
}
use lproxy.Packet.{Packet, buffers, data_len}
use lproxy.Packet.Codec.{Holds}
use lproxy.Session.{status_data, status_code, pos, cut_lss}
use lproxy.Session.Framing.{sub_ℕ-pos, cut_lss-Holds}
use lproxy.Session.Stream.{IsSized, size, announced, payload, behind, left_over}
use lproxy.Socks5.{connected}
use lproxy.Server.State.{
  Session, Env, Answers, cmd_connect, write_right_tcp, left_read_handler, right_write_handler,
  issue,
}
use lproxy.Server.Pack.{unpack_data}
use lproxy.Server.Left.{on_data, on_plain_data, on_connected_data, forward}

-- A session that forwards to a remote host over TCP.
pub record Forwards (key : List ℕ) (s : Session) : Type 0 where
  pub status : s.status ≡ status_data
  pub socks5_state : s.socks5_state ≡ connected
  pub socks5_cmd : s.socks5_cmd ≡ cmd_connect
  pub aes_encryptor : s.aes_encryptor ≡ some key

module _ (env : Env) where
  module _ (answers : Answers) (n : ℕ) (p q : Packet) (tail key : List ℕ) (s : Session)
      (sized : IsSized q) (h : Holds p n (buffers q ++ tail)) (f : Forwards key s) where
    passes : (status_code s.status == status_code status_data) ≡ true
    unfolding status_code
    passes = rw f.status refl

    unpacked :
        (is_zip : Bool)
        → unpack_data env n p is_zip s ≡ (ok (env.aes_decrypt key q.payload, pos (length tail)), s)
    unfolding unpack_data
    unpacked is_zip =
        rw
          (
            f.aes_encryptor,
            payload p q n tail sized h,
            sub_ℕ-pos n (4 + data_len p) (length tail)
                (omega (arith, size p q n tail sized h, announced p q n tail sized h)),
          )
          refl

    start : n - length tail ≡ 4 + length q.payload
    start = omega (arith, size p q n tail sized h)

    pub on_data-more :
        (is_zip : Bool)
        → 4 ≤ length tail
        → (p' : Packet) × Holds p' (length tail) tail
          × (on_data env answers is_zip n p s
              ≡ issue
                  (write_right_tcp
                    (env.aes_decrypt key q.payload)
                    (left_read_handler (length tail) p'))
                  s)
    unfolding on_data on_plain_data on_connected_data forward
    on_data-more is_zip k =
        let (more, kept) =
          cut_lss-Holds (4 + length q.payload) n p (buffers q ++ tail) h
            (omega (arith, size p q n tail sized h)) in
        (
          (cut_lss (4 + length q.payload) n p).1,
          rw (left_over p q n tail sized h, behind p q n tail sized h) at kept,
          rw
              (
                passes,
                unpacked is_zip,
                f.socks5_state,
                f.socks5_cmd,
                start,
                more,
                lt→ltb 0 (length tail) (omega arith),
              )
              refl,
        )

    pub on_data-last :
        (is_zip : Bool)
        → length tail < 4
        → on_data env answers is_zip n p s
          ≡ issue (write_right_tcp (env.aes_decrypt key q.payload) right_write_handler) s
    unfolding on_data on_plain_data on_connected_data forward cut_lss
    on_data-last is_zip k =
        let short = lt→ltb n (4 + length q.payload + 4) (omega (arith, size p q n tail sized h)) in
        elim (Bool-cases (ltb 0 (length tail))) [
          | inl e ↦ rw (passes, unpacked is_zip, f.socks5_state, f.socks5_cmd, start, short, e) refl
          | inr e ↦ rw (passes, unpacked is_zip, f.socks5_state, f.socks5_cmd, start, short, e) refl
        ]
