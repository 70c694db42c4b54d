-- ===== src/Server/Delivered.antt =====
-- The reads of the server from the local end in a connected CONNECT session, run by its handlers:
-- `left_read_handler`, the writes to the remote host, and what is bound to these.
use lproxy.Base.{
  ℕ, ◌≤◌, ◌<◌, ◌≡◌, refl, ◌∙◌, true, false, List, [], ◌∷◌, ◌++◌, length, map, arith, inl, inr,
  append_assoc, append-nil,
}
use lproxy.Packet.{Packet, RequestType, request_type, buffers}
use lproxy.Packet.Codec.{Holds, Holds-Receives}
use lproxy.Session.{max_length}
use lproxy.Session.Stream.{IsSized, whole_packet}
use lproxy.Session.Stream.Delivery.{IsData, AllData, stream, AllSized}
use lproxy.Session.{rectify}
use lproxy.Server.Streamed.{Forwards, on_data-more, on_data-last}
use lproxy.Server.State.{
  Session, Env, Answers, Op, AfterRightWrite, cmd_connect, write_right_tcp, read_left,
  left_read_handler, right_write_handler, issue,
}
use lproxy.Server.Left.{handle_packet, on_packet, left_read}
use lproxy.Server.Right.{after_right_write, read_left_again}
use lproxy.Server.World.{Completion, complete, handler, after_right}

module _ (env : Env) where
  abbrev pub decrypted : List ℕ → List Packet → List (List ℕ)
  decrypted key = map (λ q. env.aes_decrypt key q.payload)

  -- Writes to the remote host complete, one after the other, each as `c` says, and the handlers that
  -- are bound to them run; the texts are those that were written.
  pub data Writes (c : Completion) : Session → List (List ℕ) → Session → Type 0 where
    done : (s : Session) → Writes c s [] s
    write :
        (s t : Session) (before rest : List Op) (text : List ℕ) (bound : AfterRightWrite)
        (texts : List (List ℕ))
        → s.issued ≡ before ++ write_right_tcp text bound ∷ rest
        → Writes c (complete env s before (write_right_tcp text bound) rest c).1 texts t
        → Writes c s (text ∷ texts) t

  plain-type : (p : Packet) → p.type ≡ 0x06 → request_type p ≡ RequestType.plain_data
  unfolding request_type
  plain-type p h = rw h refl

  zip-type : (p : Packet) → p.type ≡ 0x17 → request_type p ≡ RequestType.zipdata
  unfolding request_type
  zip-type p h = rw h refl

  module _ (answers : Answers) (n : ℕ) (p q : Packet) (tail key : List ℕ) (s : Session)
      (sized : IsSized q) (h : Holds p n (buffers q ++ tail)) (f : Forwards key s) where
    handle-more :
        IsData q
        → 4 ≤ length tail
        → (p' : Packet) × Holds p' (length tail) tail
          × (handle_packet env answers n p s
              ≡ issue
                  (write_right_tcp
                    (env.aes_decrypt key q.payload)
                    (left_read_handler (length tail) p'))
                  s)
    unfolding handle_packet
    handle-more (inl t) k =
        let (p', held, e) = on_data-more env answers n p q tail key s sized h f false k in
        let type = plain-type p ((Holds-Receives p q n tail h).type ∙ t) in
        (p', held, rw (whole_packet p q n tail sized h, type, on_packet, e) refl)
    handle-more (inr t) k =
        let (p', held, e) = on_data-more env answers n p q tail key s sized h f true k in
        let type = zip-type p ((Holds-Receives p q n tail h).type ∙ t) in
        (p', held, rw (whole_packet p q n tail sized h, type, on_packet, e) refl)

    handle-last :
        IsData q
        → length tail < 4
        → handle_packet env answers n p s
          ≡ issue (write_right_tcp (env.aes_decrypt key q.payload) right_write_handler) s
    unfolding handle_packet
    handle-last (inl t) k =
        let e = on_data-last env answers n p q tail key s sized h f false k in
        let type = plain-type p ((Holds-Receives p q n tail h).type ∙ t) in
        rw (whole_packet p q n tail sized h, type, on_packet, e) refl
    handle-last (inr t) k =
        let e = on_data-last env answers n p q tail key s sized h f true k in
        let type = zip-type p ((Holds-Receives p q n tail h).type ∙ t) in
        rw (whole_packet p q n tail sized h, type, on_packet, e) refl

  module _ (c : Completion) (good : c.error ≡ false) where
    last-reads :
        (s : Session) (before : List Op) (text : List ℕ)
        → s.socks5_cmd ≡ cmd_connect
        → (complete env s before (write_right_tcp text right_write_handler) [] c).1.issued
          ≡ before ++ read_left max_length ∷ []
    unfolding complete handler after_right after_right_write read_left_again
    last-reads s before text h = rw (good, append-nil before, h) refl

    more-handles :
        (s : Session) (before : List Op) (text : List ℕ) (m : ℕ) (p' : Packet)
        → (complete env s before (write_right_tcp text (left_read_handler m p')) [] c).1
          ≡ (handle_packet env c.answers m p' (record s { issued = before })).1
    unfolding complete handler after_right left_read rectify
    more-handles s before text m p' = rw (good, append-nil before) refl

    four_bytes : (q : Packet) (s : List ℕ) → 4 ≤ length (buffers q ++ s)
    unfolding buffers
    four_bytes q s = omega arith

    -- A read of a connected CONNECT session in `status_data` that holds whole data packets and fewer
    -- than four bytes behind them, when the writes to the remote host succeed: the handlers write the
    -- decrypted payload of every packet to the remote host, in order, and then read from the local
    -- end again. The other pending operations stay as they are.
    pub reads-forwarded :
        (n : ℕ) (p q : Packet) (qs : List Packet) (tail key : List ℕ) (s : Session)
        → AllSized (q ∷ qs)
        → AllData (q ∷ qs)
        → Holds p n (buffers q ++ (stream qs ++ tail))
        → length tail < 4
        → Forwards key s
        → (t : Session) × Writes c (handle_packet env c.answers n p s).1 (decrypted key (q ∷ qs)) t
          × (t.issued ≡ s.issued ++ read_left max_length ∷ [])
    reads-forwarded n p q [] tail key s sized kind h k f =
        let e = handle-last c.answers n p q tail key s sized.0 h f kind.0 k in
        let written = env.aes_decrypt key q.payload in
        let u = (issue (write_right_tcp written right_write_handler) s).1 in
        let t = (complete env u s.issued (write_right_tcp written right_write_handler) [] c).1 in
        let w : Writes c u (written ∷ []) t =
          write u t s.issued [] written right_write_handler [] refl (done t) in
        rw e (t, w, last-reads u s.issued written f.socks5_cmd)
    reads-forwarded n p q (r ∷ qs) tail key s sized kind h k f =
        let tail' = buffers r ++ (stream qs ++ tail) in
        let h' : Holds p n (buffers q ++ tail') =
          rw (append_assoc (buffers r) (stream qs) tail) at h in
        let (p', held, e) =
          handle-more c.answers n p q tail' key s sized.0 h' f kind.0
            (four_bytes r (stream qs ++ tail)) in
        let written = env.aes_decrypt key q.payload in
        let bound = left_read_handler (length tail') p' in
        let u = (issue (write_right_tcp written bound) s).1 in
        let (t, later, pending) =
          reads-forwarded (length tail') p' r qs tail key s sized.1 kind.1 held k f in
        let w : Writes c u (written ∷ decrypted key (r ∷ qs)) t =
          write u t s.issued [] written bound (decrypted key (r ∷ qs)) refl
            (rw (more-handles u s.issued written (length tail') p') later) in
        rw e (t, w, pending)
