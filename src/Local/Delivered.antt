-- ===== src/Local/Delivered.antt =====
-- The reads of the local end from the server, run by its handlers: `right_read_handler`, the writes
-- to the client, and what is bound to these.
use lproxy.Base.{
  ℕ, ◌≤◌, ◌<◌, ◌≡◌, refl, ap, sym, ◌∙◌, true, false, List, [], ◌∷◌, ◌++◌, length, map, arith, inl,
  inr, append_assoc, append-nil, Option-cases,
}
use lproxy.Packet.{Packet, ReplyType, reply_type, buffers}
use lproxy.Packet.Codec.{Holds, Holds-Receives}
use lproxy.Session.{rectify, status_data, max_length}
use lproxy.Session.Stream.{IsSized, whole_packet}
use lproxy.Session.Stream.Delivery.{IsData, AllData, stream, AllSized}
use lproxy.Local.State.{
  Session, Env, Op, AfterLeftWrite, write_left, read_right, left_write_handler, right_read_handler,
  issue,
}
use lproxy.Local.Pack.{encryptor_key, ensure_encryptor}
use lproxy.Local.Right.{handle_packet, on_packet, right_read, after_left_write}
use lproxy.Local.World.{Completion, complete, handler, after_left}
use lproxy.Local.Streamed.{on_data-more, on_data-last}

module _ (env : Env) where
  abbrev pub decrypted : List ℕ → List Packet → List (List ℕ)
  decrypted key = map (λ q. env.aes_decrypt key q.payload)

  -- Writes to the client complete, one after the other, each as `c` says, and the handlers that are
  -- bound to them run; the texts are those that were written.
  pub data Writes (c : Completion) : Session → List (List ℕ) → Session → Type 0 where
    done : (s : Session) → Writes c s [] s
    write :
        (s t : Session) (before rest : List Op) (text : List ℕ) (bound : AfterLeftWrite)
        (texts : List (List ℕ))
        → s.issued ≡ before ++ write_left text bound ∷ rest
        → Writes c (complete env s before (write_left text bound) rest c).1 texts t
        → Writes c s (text ∷ texts) t

  ensured-key : (l : Session) → encryptor_key env (ensure_encryptor env l) ≡ encryptor_key env l
  unfolding encryptor_key ensure_encryptor
  ensured-key l = elim (Option-cases l.aes_encryptor) [ inl e ↦ rw e refl | inr (k, e) ↦ rw e refl ]

  ensured-same :
      (l : Session)
      → ((ensure_encryptor env l).issued ≡ l.issued) × ((ensure_encryptor env l).status ≡ l.status)
  unfolding ensure_encryptor
  ensured-same l = elim (Option-cases l.aes_encryptor) [
    | inl e ↦ (rw (ensure_encryptor, e) refl, rw (ensure_encryptor, e) refl)
    | inr (k, e) ↦ (rw (ensure_encryptor, e) refl, rw (ensure_encryptor, e) refl)
  ]

  plain-type : (p : Packet) → p.type ≡ 0x06 → reply_type p ≡ ReplyType.plain_data
  unfolding reply_type
  plain-type p h = rw h refl

  zip-type : (p : Packet) → p.type ≡ 0x17 → reply_type p ≡ ReplyType.zipdata
  unfolding reply_type
  zip-type p h = rw h refl

  module _ (rand : ℕ → ℕ) (n : ℕ) (p q : Packet) (tail : List ℕ) (l : Session) (sized : IsSized q)
      (h : Holds p n (buffers q ++ tail)) (st : l.status ≡ status_data) where
    text : List ℕ
    text = env.aes_decrypt (encryptor_key env (ensure_encryptor env l)) q.payload

    handle-more :
        IsData q
        → 4 ≤ length tail
        → (p' : Packet) × Holds p' (length tail) tail
          × (handle_packet env rand n p l
              ≡ issue
                  (write_left text (right_read_handler (length tail) p'))
                  (ensure_encryptor env l))
    unfolding handle_packet text
    handle-more (inl t) k =
        let (p', held, e) = on_data-more env false n p q tail l sized h st k in
        let type = plain-type p ((Holds-Receives p q n tail h).type ∙ t) in
        (p', held, rw (whole_packet p q n tail sized h, type, on_packet, e) refl)
    handle-more (inr t) k =
        let (p', held, e) = on_data-more env true n p q tail l sized h st k in
        let type = zip-type p ((Holds-Receives p q n tail h).type ∙ t) in
        (p', held, rw (whole_packet p q n tail sized h, type, on_packet, e) refl)

    handle-last :
        IsData q
        → length tail < 4
        → handle_packet env rand n p l
          ≡ issue (write_left text left_write_handler) (ensure_encryptor env l)
    unfolding handle_packet text
    handle-last (inl t) k =
        let e = on_data-last env false n p q tail l sized h st k in
        let type = plain-type p ((Holds-Receives p q n tail h).type ∙ t) in
        rw (whole_packet p q n tail sized h, type, on_packet, e) refl
    handle-last (inr t) k =
        let e = on_data-last env true n p q tail l sized h st k in
        let type = zip-type p ((Holds-Receives p q n tail h).type ∙ t) in
        rw (whole_packet p q n tail sized h, type, on_packet, e) refl

  module _ (c : Completion) (good : c.error ≡ false) where
    last-reads :
        (s : Session) (before : List Op) (text : List ℕ)
        → (complete env s before (write_left text left_write_handler) [] c).1
          ≡ record s { issued = before ++ read_right max_length ∷ [] }
    unfolding complete handler after_left after_left_write
    last-reads s before text = rw (good, append-nil before) refl

    more-handles :
        (s : Session) (before : List Op) (text : List ℕ) (m : ℕ) (p' : Packet)
        → (complete env s before (write_left text (right_read_handler m p')) [] c).1
          ≡ (handle_packet env c.rand m p' (record s { issued = before })).1
    unfolding complete handler after_left right_read rectify
    more-handles s before text m p' = rw (good, append-nil before) refl

    four_bytes : (q : Packet) (s : List ℕ) → 4 ≤ length (buffers q ++ s)
    unfolding buffers
    four_bytes q s = omega arith

    -- A read in `status_data` that holds whole data packets and fewer than four bytes behind them,
    -- when the writes to the client succeed: the handlers write the decrypted payload of every
    -- packet to the client, in order, and nothing else, and then read from the server again. The
    -- other pending operations stay as they are.
    pub reads-delivered :
        (n : ℕ) (p q : Packet) (qs : List Packet) (tail key : List ℕ) (l : Session)
        → AllSized (q ∷ qs)
        → AllData (q ∷ qs)
        → Holds p n (buffers q ++ (stream qs ++ tail))
        → length tail < 4
        → l.status ≡ status_data
        → encryptor_key env l ≡ key
        → (t : Session) × Writes c (handle_packet env c.rand n p l).1 (decrypted key (q ∷ qs)) t
          × (t.issued ≡ l.issued ++ read_right max_length ∷ [])
    unfolding text encryptor_key
    reads-delivered n p q [] tail key l sized kind h k st hk =
        let e = handle-last c.rand n p q tail l sized.0 h st kind.0 k in
        let ready = ensure_encryptor env l in
        let (same_issued, same_status) = ensured-same l in
        let back : env.aes_decrypt key q.payload
            ≡ env.aes_decrypt (encryptor_key env ready) q.payload =
          ap (λ k. env.aes_decrypt k q.payload) (sym (ensured-key l ∙ hk)) in
        let written = env.aes_decrypt (encryptor_key env ready) q.payload in
        let s = (issue (write_left written left_write_handler) ready).1 in
        let t = record ready { issued = ready.issued ++ read_right max_length ∷ [] } in
        let w : Writes c s (written ∷ []) t =
          write s t ready.issued [] written left_write_handler [] refl
            (rw (last-reads s ready.issued written) (done t)) in
        rw (e, back) (t, w, ap (λ i. i ++ read_right max_length ∷ []) same_issued)
    reads-delivered n p q (r ∷ qs) tail key l sized kind h k st hk =
        let tail' = buffers r ++ (stream qs ++ tail) in
        let h' : Holds p n (buffers q ++ tail') =
          rw (append_assoc (buffers r) (stream qs) tail) at h in
        let (p', held, e) =
          handle-more c.rand n p q tail' l sized.0 h' st kind.0
            (four_bytes r (stream qs ++ tail)) in
        let ready = ensure_encryptor env l in
        let (same_issued, same_status) = ensured-same l in
        let back : env.aes_decrypt key q.payload
            ≡ env.aes_decrypt (encryptor_key env ready) q.payload =
          ap (λ k. env.aes_decrypt k q.payload) (sym (ensured-key l ∙ hk)) in
        let written = env.aes_decrypt (encryptor_key env ready) q.payload in
        let bound = right_read_handler (length tail') p' in
        let s = (issue (write_left written bound) ready).1 in
        let (t, later, pending) =
          reads-delivered (length tail') p' r qs tail key ready sized.1 kind.1 held k
            (same_status ∙ st) (ensured-key l ∙ hk) in
        let w : Writes c s (written ∷ decrypted key (r ∷ qs)) t =
          write s t ready.issued [] written bound (decrypted key (r ∷ qs)) refl
            (rw (more-handles s ready.issued written (length tail') p') later) in
        rw (e, back) (t, w, pending ∙ ap (λ i. i ++ read_right max_length ∷ []) same_issued)
