-- ===== src/Tunnel/Joint/Runs.antt =====
-- Steps of both ends of a connection that have one pending operation each.
use lproxy.Base.{ℕ, ◌+◌, ◌≤◌, ◌≡◌, refl, sym, false, [], ◌∷◌, length, take_all, ok, arith}
use lproxy.Packet.{Packet, buffers, request_type, reply_type}
use lproxy.Packet.Codec.{Receives}
use lproxy.Session.{lss_pack_integrity_check, rectify}
use lproxy.Session.Stream.{IsSized}
use lproxy.Session.Framing.{integrity_check-ok}
use lproxy.Local.State as Near
use lproxy.Local.World as NearWorld
use lproxy.Local.Right as NearRight
use lproxy.Server.State as Far
use lproxy.Server.World as FarWorld
use lproxy.Server.Left as FarLeft
use mathlib.Core.Bool.{true≢false}
use lproxy.Tunnel.Joint.{
  Joint, Brings, still, near_turn, far_turn, near_sends, far_sends, near_receives, far_receives,
  near_reads, far_reads, is_sent, mark, unmark, Reach, next,
}

pub whole-Brings :
    (q : Packet) (n : ℕ)
    → IsSized q
    → length q.payload ≤ n
    → Brings q n false (4 + length q.payload) q
unfolding buffers
whole-Brings q n sized h = record {
  sized = sized;
  succeeds = refl;
  size = refl;
  fits = omega (arith, h);
  held = record {
    within = omega arith;
    read = take_all (4 + length q.payload) (buffers q) (omega arith);
  };
}

pub whole-Receives : (q : Packet) → Receives q q
whole-Receives q = record {
  version = refl;
  type = refl;
  data_len = refl;
  payload = take_all (length q.payload) q.payload (omega arith);
}

-- A completion that brings a packet.
abbrev pub near_brings : NearWorld.Completion → Packet → NearWorld.Completion
near_brings c q = record c { error = false; bytes = 4 + length q.payload; packet = q }

abbrev pub far_brings : FarWorld.Completion → Packet → FarWorld.Completion
far_brings d q = record d { error = false; bytes = 4 + length q.payload; packet = q }

module _ (near : Near.Env) (far : Far.Env) where
  pub far_read-turns :
      (d : FarWorld.Completion) (q : Packet) (n : ℕ) (s t : Far.Session)
      → IsSized q
      → s.issued ≡ Far.read_left n ∷ []
      → FarLeft.on_packet far d.answers
          (request_type q)
          (4 + length q.payload)
          q
          (record s { issued = [] })
        ≡ (ok tt, t)
      → (FarWorld.complete far s [] (Far.read_left n) [] (far_brings d q)).1 ≡ t
  unfolding FarWorld.complete FarWorld.handler FarLeft.left_read FarLeft.handle_packet
      lss_pack_integrity_check rectify
  far_read-turns d q n s t sized i e =
      rw (integrity_check-ok (4 + length q.payload) q (omega (arith, sized)), e) refl

  pub near_read-turns :
      (c : NearWorld.Completion) (q : Packet) (n : ℕ) (l u : Near.Session)
      → IsSized q
      → l.issued ≡ Near.read_right n ∷ []
      → NearRight.on_packet near c.rand
          (reply_type q)
          (4 + length q.payload)
          q
          (record l { issued = [] })
        ≡ (ok tt, u)
      → (NearWorld.complete near l [] (Near.read_right n) [] (near_brings c q)).1 ≡ u
  unfolding NearWorld.complete NearWorld.handler NearRight.right_read NearRight.handle_packet
      lss_pack_integrity_check rectify
  near_read-turns c q n l u sized i e =
      rw (integrity_check-ok (4 + length q.payload) q (omega (arith, sized)), e) refl

  -- A packet that goes up, and one that goes down, between two sessions with one operation each.
  pub go_up :
      {j : Joint} (q : Packet) (l l' : Near.Session) (s s' : Far.Session) (n : ℕ)
      (bound : Near.AfterRightWrite) (c : NearWorld.Completion) (d : FarWorld.Completion)
      → Reach near far j (still near far l s)
      → l.issued ≡ Near.write_right q bound ∷ []
      → s.issued ≡ Far.read_left n ∷ []
      → IsSized q
      → length q.payload ≤ n
      → (NearWorld.complete near l [] (Near.write_right q bound) [] c).1 ≡ l'
      → (FarWorld.complete far s [] (Far.read_left n) [] (far_brings d q)).1 ≡ s'
      → Reach near far j (still near far l' s')
  unfolding is_sent mark unmark near_reads
  go_up q l l' s s' n bound c d r i k sized b near_ends far_ends =
      let put = next r (near_sends (still near far l s) q [] [] bound i refl) in
      let taken =
        next put (far_receives _ q [] n [] [] (far_brings d q) k refl (whole-Brings q n sized b)) in
      let done = next taken (
        near_turn _ [] (Near.write_right q bound) [] c i (λ e. absurd (true≢false (sym e)))
          (λ e f. refl)) in
      rw (near_ends, far_ends) at done

  pub go_down :
      {j : Joint} (q : Packet) (l l' : Near.Session) (s s' : Far.Session) (n : ℕ)
      (bound : Far.AfterLeftWrite) (c : NearWorld.Completion) (d : FarWorld.Completion)
      → Reach near far j (still near far l s)
      → l.issued ≡ Near.read_right n ∷ []
      → s.issued ≡ Far.write_left q bound ∷ []
      → IsSized q
      → length q.payload ≤ n
      → (NearWorld.complete near l [] (Near.read_right n) [] (near_brings c q)).1 ≡ l'
      → (FarWorld.complete far s [] (Far.write_left q bound) [] d).1 ≡ s'
      → Reach near far j (still near far l' s')
  unfolding is_sent mark unmark far_reads
  go_down q l l' s s' n bound c d r i k sized b near_ends far_ends =
      let put = next r (far_sends (still near far l s) q [] [] bound k refl) in
      let taken =
        next put
          (near_receives _ q [] n [] [] (near_brings c q) i refl (whole-Brings q n sized b)) in
      let done = next taken (
        far_turn _ [] (Far.write_left q bound) [] d k (λ e. absurd (true≢false (sym e)))
          (λ e f. refl)) in
      rw (near_ends, far_ends) at done
