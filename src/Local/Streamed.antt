-- ===== src/Local/Streamed.antt =====
-- The data branch of `right_read_handler` over the bytes of the stream from the server.
use lproxy.Base.{
  Bool-cases, inl, inr, ◌==◌, ℕ, ◌+◌, ◌-◌, ◌≤◌, ◌<◌, ◌≡◌, refl, Bool, true, ltb, List, ◌++◌, length,
  ok, arith, lt→ltb,
}
use lproxy.Packet.{Packet, data_len, buffers}
use lproxy.Packet.Codec.{Holds}
use lproxy.Session.{status_code, pos, status_data, cut_lss}
use lproxy.Session.Framing.{sub_ℕ-pos, cut_lss-Holds}
use lproxy.Session.Stream.{IsSized, size, announced, payload, behind, left_over}
use lproxy.Local.State.{Session, Env, write_left, left_write_handler, right_read_handler, issue}
use lproxy.Local.Pack.{encryptor_key, ensure_encryptor, unpack_reply_data}
use lproxy.Local.Right.{on_data}

module _ (env : Env) (is_zip : Bool) (n : ℕ) (p q : Packet) (tail : List ℕ) (l : Session)
    (sized : IsSized q) (h : Holds p n (buffers q ++ tail)) (st : l.status ≡ status_data) where
  unpacked : unpack_reply_data env n p is_zip l ≡ (
    ok (env.aes_decrypt (encryptor_key env (ensure_encryptor env l)) q.payload, pos (length tail)),
    ensure_encryptor env l,
  )
  unfolding unpack_reply_data
  unpacked =
      rw
        (
          payload p q n tail sized h,
          sub_ℕ-pos n (4 + data_len p) (length tail)
              (omega (arith, size p q n tail sized h, announced p q n tail sized h)),
        )
        refl

  passes : (status_code l.status == status_code status_data) ≡ true
  unfolding status_code
  passes = rw st refl

  start : n - length tail ≡ 4 + length q.payload
  start = omega (arith, size p q n tail sized h)

  -- In `status_data`, with the header of another packet behind the packet, the data branch writes the decrypted
  -- payload to the client, and binds to that write the handling of exactly the bytes behind it.
  pub on_data-more :
      4 ≤ length tail
      → (p' : Packet) × Holds p' (length tail) tail
        × (on_data env is_zip n p l
            ≡ issue
                (write_left
                  (env.aes_decrypt (encryptor_key env (ensure_encryptor env l)) q.payload)
                  (right_read_handler (length tail) p'))
                (ensure_encryptor env l))
  unfolding on_data
  on_data-more k =
      let (more, kept) =
        cut_lss-Holds (4 + length q.payload) n p (buffers q ++ tail) h
          (omega (arith, size p q n tail sized h)) in
      (
        (cut_lss (4 + length q.payload) n p).1,
        rw (left_over p q n tail sized h, behind p q n tail sized h) at kept,
        rw (passes, unpacked, start, more, lt→ltb 0 (length tail) (omega arith)) refl,
      )

  -- In `status_data`, with fewer than four bytes behind the packet, the data branch writes the decrypted payload to
  -- the client, binds the end of the read to that write, and so forgets these bytes.
  pub on_data-last :
      length tail < 4
      → on_data env is_zip n p l
        ≡ issue
            (write_left
              (env.aes_decrypt (encryptor_key env (ensure_encryptor env l)) q.payload)
              left_write_handler)
            (ensure_encryptor env l)
  unfolding on_data cut_lss
  on_data-last k =
      let short = lt→ltb n (4 + length q.payload + 4) (omega (arith, size p q n tail sized h)) in
      elim (Bool-cases (ltb 0 (length tail))) [
        | inl e ↦ rw (passes, unpacked, start, short, e) refl
        | inr e ↦ rw (passes, unpacked, start, short, e) refl
      ]
