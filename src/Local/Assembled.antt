-- ===== src/Local/Assembled.antt =====
-- The reads of one packet that comes in pieces, run by the handlers of the local end: `right_read_handler` and the
-- further reads that it starts.
use lproxy.Base.{
  ℕ, ◌+◌, ◌-◌, ◌≤◌, ◌<◌, ◌≡◌, refl, ap, sym, ◌∙◌, false, List, [], ◌∷◌, ◌++◌, length, arith,
  length-append, append_assoc, append-nil, lt→ltb,
}
use lproxy.Packet.{Packet, data_len, buffers}
use lproxy.Packet.Codec.{Holds}
use lproxy.Session.{rectify, trim_incomplete}
use lproxy.Session.Framing.{
  rest_buffer, integrity_check-incomplete, trim_incomplete-Holds, rectify-Holds,
}
use lproxy.Session.Stream.{IsSized, length-Holds}
use lproxy.Session.Stream.Delivery.{flat, NonEmpty, header, length-buffers}
use lproxy.Local.State.{Session, Env, Op, read_right_rest, issue}
use lproxy.Local.Right.{handle_packet, on_exception, right_read}
use lproxy.Local.World.{Completion, complete, handler}

module _ (env : Env) (c : Completion) where
  -- A further read that brings a chunk into its buffer of `less` bytes.
  abbrev pub arrived : ℕ → List ℕ → Completion
  arrived less chunk = record c {
    error = false;
    bytes = length chunk;
    bytes_read = rest_buffer less chunk;
  }

  -- Further reads complete, one after the other, each with the next chunk.
  pub data Chunks : Session → List (List ℕ) → Session → Type 0 where
    done : (s : Session) → Chunks s [] s
    read :
        (s t : Session) (before rest : List Op) (less : ℕ) (p : Packet) (chunk : List ℕ)
        (chunks : List (List ℕ))
        → s.issued ≡ before ++ read_right_rest less p ∷ rest
        → Chunks
            (complete env s before (read_right_rest less p) rest (arrived less chunk)).1
            chunks
            t
        → Chunks s (chunk ∷ chunks) t

  handle-incomplete :
      (n : ℕ) (p : Packet) (l : Session)
      → 4 ≤ n
      → n < 4 + data_len p
      → handle_packet env c.rand n p l
        ≡ issue (read_right_rest (data_len p + 4 - n) (trim_incomplete n p)) l
  unfolding handle_packet
  handle-incomplete n p l h k =
      rw
        (
          integrity_check-incomplete n p h k,
          on_exception,
          lt→ltb 0 (data_len p + 4 - n) (omega arith),
        )
        refl

  chunk-handles :
      (l : Session) (less m : ℕ) (p : Packet) (chunk : List ℕ)
      → (rectify (length chunk) p (rest_buffer less chunk)).0 ≡ m
      → (complete env
          (issue (read_right_rest less p) l).1
          l.issued
          (read_right_rest less p)
          []
          (arrived less chunk)).1
        ≡ (handle_packet env c.rand m (rectify (length chunk) p (rest_buffer less chunk)).1 l).1
  unfolding complete handler right_read
  chunk-handles l less m p chunk e =
      let (n', p') = rectify (length chunk) p (rest_buffer less chunk) in
      ap (λ i. (handle_packet env c.rand n' p' (record l { issued = i })).1) (append-nil l.issued)
      ∙ ap (λ k. (handle_packet env c.rand k p' l).1) e

  -- A packet that announces the size of its payload comes in pieces, the first with at least the
  -- header, the others not empty. Whatever its type and their sizes, the further reads bring the
  -- handler to where one read of the whole packet would have brought it, in a buffer that holds
  -- exactly the packet.
  pub reads-assembled :
      (chunks : List (List ℕ)) (n : ℕ) (p q : Packet) (s : List ℕ) (l : Session)
      → IsSized q
      → 4 ≤ n
      → Holds p n s
      → s ++ flat chunks ≡ buffers q
      → NonEmpty chunks
      → (p' : Packet) × Holds p' (4 + length q.payload) (buffers q)
        × Chunks
            (handle_packet env c.rand n p l).1
            chunks
            (handle_packet env c.rand (4 + length q.payload) p' l).1
  reads-assembled [] n p q s l sized k h e ne =
      let e' : s ≡ buffers q = sym (append-nil s) ∙ e in
      let size : n ≡ 4 + length q.payload =
        length-Holds p n s h ∙ ap length e' ∙ length-buffers q in
      (p, rw (e', size) at h, rw size (done _))
  reads-assembled (x ∷ xs) n p q s l sized k h e ne =
      let size : n + length x + length (flat xs) ≡ 4 + data_len p = omega (
        arith,
        sized,
        header p q n s (x ++ flat xs) k h e,
        length-Holds p n s h,
        ap length e,
        length-append s (x ++ flat xs),
        length-append x (flat xs),
        length-buffers q,
      ) in
      let less = data_len p + 4 - n in
      let (kept, room) = trim_incomplete-Holds n p s k h in
      let (n', held) =
        rectify-Holds n less (trim_incomplete n p) s x room kept ne.0 (omega (arith, size)) in
      let p'' = (rectify (length x) (trim_incomplete n p) (rest_buffer less x)).1 in
      let (p', whole, run) =
        reads-assembled xs (n + length x) p'' q (s ++ x) l sized (omega arith) (rw n' at held)
          (append_assoc s x (flat xs) ∙ e) ne.1 in
      let l' = (issue (read_right_rest less (trim_incomplete n p)) l).1 in
      (
        p',
        whole,
        rw (handle-incomplete n p l k (omega (arith, size))) (
            read l' _ l.issued [] less (trim_incomplete n p) x xs refl
              (rw (chunk-handles l less (n + length x) (trim_incomplete n p) x n') run)),
      )
