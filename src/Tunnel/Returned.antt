-- ===== src/Tunnel/Returned.antt =====
-- The data of a remote host on its way to the client: `right_read_handler` and `left_write_handler` of
-- core/lss/session_server.cpp, and the reads of session_local.cpp from the server.
use lproxy.Base.{
  ℕ, ◌≤◌, ◌<◌, ◌≡◌, refl, ap, ap₂, ◌∙◌, if◌then◌else◌, false, Bool-cases, inl, inr, List, [], ◌∷◌,
  ◌++◌, length, take, map, arith, length-take, append-nil, append_assoc,
}
use lproxy.Packet.{Packet, make_packet, buffers, reply_code, ReplyType}
use lproxy.Packet.Codec.{Holds, data_len-make_packet}
use lproxy.Session.{max_length, status_data}
use lproxy.Session.Stream.{IsSized}
use lproxy.Session.Stream.Delivery.{IsData, AllSized, AllData, stream}
use lproxy.Local.State as Near
use lproxy.Local.Pack.{encryptor_key}
use lproxy.Local.World as NearWorld
use lproxy.Local.Right as NearRight
use lproxy.Local.Delivered.{Writes, decrypted, reads-delivered}
use lproxy.Server.State as Far
use lproxy.Server.State.{Session, Op, read_right_tcp, write_left, left_write_handler}
use lproxy.Server.Pack.{pack_data}
use lproxy.Server.Right.{right_read, after_left_write, read_right}
use lproxy.Server.World as FarWorld
use lproxy.Server.World.{complete}
use lproxy.Server.Streamed.{Forwards}
use lproxy.Tunnel.Agreed.{Agrees}

module _ (far : Far.Env) where
  -- The bytes that a read has brought.
  abbrev pub text_of : FarWorld.Completion → List ℕ
  text_of c = take c.bytes c.bytes_read

  -- The server reads from the remote host and writes to the local end, a packet for each read: the
  -- completions are those of its reads, and `d` that of its writes.
  pub data Sends (d : FarWorld.Completion)
      : Session → List FarWorld.Completion → List Packet → Session → Type 0 where
    done : (s : Session) → Sends d s [] [] s
    send :
        (s u s' : Session) (before others : List Op) (c : FarWorld.Completion)
        (cs : List FarWorld.Completion) (q : Packet) (qs : List Packet)
        → s.issued ≡ before ++ read_right_tcp max_length ∷ []
        → u ≡ (complete far s before (read_right_tcp max_length) [] c).1
        → u.issued ≡ others ++ write_left q left_write_handler ∷ []
        → Sends d (complete far u others (write_left q left_write_handler) [] d).1 cs qs s'
        → Sends d s (c ∷ cs) (q ∷ qs) s'

  -- Reads that succeed, of less than 2^16 bytes.
  abbrev pub AllRead : List FarWorld.Completion → Type 0
  AllRead [] = Unit
  AllRead (c ∷ cs) =
      (c.error ≡ false) × (c.bytes ≤ length c.bytes_read) × (c.bytes < 65536) × AllRead cs

  abbrev pub packet_of : List ℕ → FarWorld.Completion → Packet
  packet_of key c =
      let cipher = far.aes_encrypt key (text_of c) in
      let type = if far.config.zip_on then ReplyType.zipdata else ReplyType.plain_data in
      make_packet 0 (reply_code type) (length cipher) cipher

  -- What the server keeps between its reads: that it answered a success is part of it.
  pub record Returns (key : List ℕ) (s : Session) : Type 0 where
    pub forwards : Forwards key s
    pub reply : s.socks5_resp_reply ≡ 0

  -- The state behind a read and its write.
  has_sent :
      (d c : FarWorld.Completion) (s : Session) (before : List Op) (key : List ℕ)
      → c.error ≡ false
      → d.error ≡ false
      → Returns key s
      → let u = (complete far s before (read_right_tcp max_length) [] c).1 in
        let t = (complete far u before (write_left (packet_of key c) left_write_handler) [] d).1 in
        (u ≡ record s { issued = before ++ write_left (packet_of key c) left_write_handler ∷ [] })
        × (t ≡ record s { issued = before ++ read_right_tcp max_length ∷ [] })
  unfolding complete FarWorld.handler FarWorld.after_left right_read after_left_write pack_data
      read_right
  has_sent d c s before key hc hd r =
      rw
        (
          hc,
          hd,
          append-nil before,
          r.forwards.aes_encryptor,
          r.reply,
          r.forwards.status,
          r.forwards.socks5_state,
          r.forwards.socks5_cmd,
        )
        (refl, refl)

  Returns-issued :
      (key : List ℕ) (s : Session) (ops : List Op)
      → Returns key s
      → Returns key (record s { issued = ops })
  Returns-issued key s ops r = record {
    forwards = record {
      status = r.forwards.status;
      socks5_state = r.forwards.socks5_state;
      socks5_cmd = r.forwards.socks5_cmd;
      aes_encryptor = r.forwards.aes_encryptor;
    };
    reply = r.reply;
  }

  all_sent :
      (d : FarWorld.Completion) (s : Session) (before : List Op) (key : List ℕ)
      (cs : List FarWorld.Completion)
      → d.error ≡ false
      → s.issued ≡ before ++ read_right_tcp max_length ∷ []
      → Returns key s
      → AllRead cs
      → (s' : Session) × Sends d s cs (map (packet_of key) cs) s'
        × (s'.issued ≡ before ++ read_right_tcp max_length ∷ [])
  all_sent d s before key [] hd i r h = (s, done s, i)
  all_sent d s before key (c ∷ cs) hd i r (e, n, b, rest) =
      let u = (complete far s before (read_right_tcp max_length) [] c).1 in
      let t = record s { issued = before ++ read_right_tcp max_length ∷ [] } in
      let (written, reading) = has_sent d c s before key e hd r in
      let (s', later, pending) =
        all_sent d t before key cs hd refl (Returns-issued key s _ r) rest in
      (
        s',
        send s u s' before before c cs (packet_of key c) (map (packet_of key) cs) i refl
            (ap (λ v. v.issued) written) (rw reading later),
        pending,
      )

  packet_of-IsSized :
      (near : Near.Env) (agrees : Agrees near far) (key : List ℕ) (c : FarWorld.Completion)
      → c.bytes ≤ length c.bytes_read
      → c.bytes < 65536
      → IsSized (packet_of key c)
  unfolding make_packet
  packet_of-IsSized near agrees key c h b =
      data_len-make_packet 0 _ (length (far.aes_encrypt key (text_of c)))
        (far.aes_encrypt key (text_of c))
      ∙ omega (arith, agrees.down_length key (text_of c), length-take c.bytes c.bytes_read)

  packet_of-IsData : (key : List ℕ) (c : FarWorld.Completion) → IsData (packet_of key c)
  unfolding make_packet reply_code
  packet_of-IsData key c = elim (Bool-cases far.config.zip_on) [
    | inl e ↦ rw e (inr refl)
    | inr e ↦ rw e (inl refl)
  ]

  all_data : (key : List ℕ) (cs : List FarWorld.Completion) → AllData (map (packet_of key) cs)
  all_data key [] = tt
  all_data key (c ∷ cs) = (packet_of-IsData key c, all_data key cs)

  module _ (near : Near.Env) (agrees : Agrees near far) where
    all_sized :
        (key : List ℕ) (cs : List FarWorld.Completion)
        → AllRead cs
        → AllSized (map (packet_of key) cs)
    all_sized key [] h = tt
    all_sized key (c ∷ cs) (e, h, b, rest) =
        (packet_of-IsSized near agrees key c h b, all_sized key cs rest)

    all_decrypted :
        (key : List ℕ) (cs : List FarWorld.Completion)
        → decrypted near key (map (packet_of key) cs) ≡ map text_of cs
    unfolding make_packet
    all_decrypted key [] = refl
    all_decrypted key (c ∷ cs) =
        ap₂ (λ x xs. x ∷ xs) (agrees.down key (text_of c)) (all_decrypted key cs)

    -- The data of a remote host, in any number of reads of the server that succeed, of less than 2^16
    -- bytes each, in a connected CONNECT session: the server writes a packet for each read, and then
    -- reads on. A read of the local end, in `status_data` with the same data key, that holds these
    -- packets and fewer than four bytes behind them, writes the bytes of every read to the client, in
    -- order, and then reads on. The writes succeed, and the ciphers keep what `Agrees` says.
    pub reads-returned :
        (d : FarWorld.Completion) (e : NearWorld.Completion) (s : Session) (before : List Op)
        (key : List ℕ) (c : FarWorld.Completion) (cs : List FarWorld.Completion)
        → d.error ≡ false
        → e.error ≡ false
        → s.issued ≡ before ++ read_right_tcp max_length ∷ []
        → Returns key s
        → AllRead (c ∷ cs)
        → (n : ℕ) (p : Packet) (tail : List ℕ) (l : Near.Session)
        → Holds p n (stream (map (packet_of key) (c ∷ cs)) ++ tail)
        → length tail < 4
        → l.status ≡ status_data
        → encryptor_key near l ≡ key
        → ((s' : Session) × Sends d s (c ∷ cs) (map (packet_of key) (c ∷ cs)) s'
            × (s'.issued ≡ before ++ read_right_tcp max_length ∷ []))
          × ((t : Near.Session) × Writes near e
                (NearRight.handle_packet near e.rand n p l).1
                (map text_of (c ∷ cs))
                t
              × (t.issued ≡ l.issued ++ Near.read_right max_length ∷ []))
    reads-returned d e s before key c cs hd he i r h n p tail l held short st hk =
        let qs = map (packet_of key) cs in
        let held' : Holds p n (buffers (packet_of key c) ++ (stream qs ++ tail)) =
          rw (append_assoc (buffers (packet_of key c)) (stream qs) tail) at held in
        let delivered =
          reads-delivered near e he n p (packet_of key c) qs tail key l (all_sized key (c ∷ cs) h)
            (all_data key (c ∷ cs)) held' short st hk in
        (all_sent d s before key (c ∷ cs) hd i r h, rw (all_decrypted key (c ∷ cs)) at delivered)
