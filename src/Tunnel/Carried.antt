-- ===== src/Tunnel/Carried.antt =====
-- The data of a client on its way to the remote host: `left_read_handler` and `right_write_handler` of
-- core/lss/session_local.cpp, and the reads of session_server.cpp from the local end.
use lproxy.Base.{
  ℕ, ◌≤◌, ◌<◌, ◌≡◌, refl, ap, ap₂, ◌∙◌, if◌then◌else◌, false, Bool-cases, Option-cases, inl, inr,
  List, [], ◌∷◌, ◌++◌, length, take, map, arith, length-take, append-nil, append_assoc,
}
use lproxy.Packet.{Packet, buffers, make_packet, request_code, RequestType}
use lproxy.Packet.Codec.{Holds, data_len-make_packet}
use lproxy.Session.{max_length}
use lproxy.Session.Stream.{IsSized}
use lproxy.Session.Stream.Delivery.{IsData, AllSized, AllData, stream}
use lproxy.Local.State as Near
use lproxy.Local.State.{Session, Op, read_left, left_read_handler, write_right, right_write_handler}
use lproxy.Local.Pack.{encryptor_key, ensure_encryptor, pack_data}
use lproxy.Local.World as NearWorld
use lproxy.Local.World.{complete}
use lproxy.Local.Left.{left_read, after_right_write}
use lproxy.Server.State as Far
use lproxy.Server.World as FarWorld
use lproxy.Server.Left as FarLeft
use lproxy.Server.Streamed.{Forwards}
use lproxy.Server.Delivered.{Writes, decrypted, reads-forwarded}
use lproxy.Tunnel.Agreed.{Agrees}

module _ (near : Near.Env) where
  -- The bytes that a read has brought.
  abbrev pub text_of : NearWorld.Completion → List ℕ
  text_of c = take c.bytes c.bytes_read

  -- The local end reads from the client and writes to the server, a packet for each read: the
  -- completions are those of its reads, and `d` that of its writes.
  pub data Sends (d : NearWorld.Completion)
      : Session → List NearWorld.Completion → List Packet → Session → Type 0 where
    done : (l : Session) → Sends d l [] [] l
    send :
        (l u l' : Session) (before others : List Op) (c : NearWorld.Completion)
        (cs : List NearWorld.Completion) (q : Packet) (qs : List Packet)
        → l.issued ≡ before ++ read_left max_length left_read_handler ∷ []
        → u ≡ (complete near l before (read_left max_length left_read_handler) [] c).1
        → u.issued ≡ others ++ write_right q right_write_handler ∷ []
        → Sends d (complete near u others (write_right q right_write_handler) [] d).1 cs qs l'
        → Sends d l (c ∷ cs) (q ∷ qs) l'

  -- Reads that succeed, of less than 2^16 bytes.
  abbrev pub AllRead : List NearWorld.Completion → Type 0
  AllRead [] = Unit
  AllRead (c ∷ cs) =
      (c.error ≡ false) × (c.bytes ≤ length c.bytes_read) × (c.bytes < 65536) × AllRead cs

  abbrev pub data_type : ℕ
  data_type =
      request_code (if near.config.zip_on then RequestType.zipdata else RequestType.plain_data)

  abbrev pub packet_of : List ℕ → NearWorld.Completion → Packet
  packet_of key c = make_packet 0 data_type c.bytes (near.aes_encrypt key (text_of c))

  abbrev writes : List Op → NearWorld.Completion → List ℕ → List Op
  writes before c key = before ++ write_right (packet_of key c) right_write_handler ∷ []

  -- The state behind a read and its write.
  has_sent :
      (d c : NearWorld.Completion) (l : Session) (before : List Op) (key : List ℕ)
      → c.error ≡ false
      → d.error ≡ false
      → encryptor_key near l ≡ key
      → let u = (complete near l before (read_left max_length left_read_handler) [] c).1 in
        let t =
          (complete near u before (write_right (packet_of key c) right_write_handler) [] d).1 in
        (u.issued ≡ before ++ write_right (packet_of key c) right_write_handler ∷ [])
        × (t.issued ≡ before ++ read_left max_length left_read_handler ∷ [])
        × (encryptor_key near t ≡ key)
  unfolding complete NearWorld.handler NearWorld.left_has_read NearWorld.after_right left_read
      after_right_write pack_data ensure_encryptor encryptor_key
  has_sent d c l before key hc hd hk = elim (Option-cases l.aes_encryptor) [
    | inl e ↦
        let k : l.data_key ≡ key = rw e at hk in
        rw (hc, hd, append-nil before, e) (ap (writes before c) k, refl, k)
    | inr (k, e) ↦
        let same : k ≡ key = rw e at hk in
        rw (hc, hd, append-nil before, e) (ap (writes before c) hk, refl, same)
  ]

  module _ (far : Far.Env) (agrees : Agrees near far) where
    packet_of-IsSized :
        (key : List ℕ) (c : NearWorld.Completion)
        → c.bytes ≤ length c.bytes_read
        → c.bytes < 65536
        → IsSized (packet_of key c)
    unfolding make_packet
    packet_of-IsSized key c h b =
        data_len-make_packet 0 data_type c.bytes (near.aes_encrypt key (text_of c))
        ∙ omega (arith, agrees.up_length key (text_of c), length-take c.bytes c.bytes_read)

    packet_of-IsData : (key : List ℕ) (c : NearWorld.Completion) → IsData (packet_of key c)
    unfolding make_packet request_code
    packet_of-IsData key c = elim (Bool-cases near.config.zip_on) [
      | inl e ↦ rw e (inr refl)
      | inr e ↦ rw e (inl refl)
    ]

    all_sized :
        (key : List ℕ) (cs : List NearWorld.Completion)
        → AllRead cs
        → AllSized (map (packet_of key) cs)
    all_sized key [] h = tt
    all_sized key (c ∷ cs) (e, h, b, rest) = (packet_of-IsSized key c h b, all_sized key cs rest)

    all_data : (key : List ℕ) (cs : List NearWorld.Completion) → AllData (map (packet_of key) cs)
    all_data key [] = tt
    all_data key (c ∷ cs) = (packet_of-IsData key c, all_data key cs)

    all_decrypted :
        (key : List ℕ) (cs : List NearWorld.Completion)
        → decrypted far key (map (packet_of key) cs) ≡ map text_of cs
    unfolding make_packet
    all_decrypted key [] = refl
    all_decrypted key (c ∷ cs) =
        ap₂ (λ x xs. x ∷ xs) (agrees.up key (text_of c)) (all_decrypted key cs)

  all_sent :
      (d : NearWorld.Completion) (l : Session) (before : List Op) (key : List ℕ)
      (cs : List NearWorld.Completion)
      → d.error ≡ false
      → l.issued ≡ before ++ read_left max_length left_read_handler ∷ []
      → encryptor_key near l ≡ key
      → AllRead cs
      → (l' : Session) × Sends d l cs (map (packet_of key) cs) l'
        × (l'.issued ≡ before ++ read_left max_length left_read_handler ∷ [])
  all_sent d l before key [] hd i hk h = (l, done l, i)
  all_sent d l before key (c ∷ cs) hd i hk (e, s, b, rest) =
      let u = (complete near l before (read_left max_length left_read_handler) [] c).1 in
      let t = (complete near u before (write_right (packet_of key c) right_write_handler) [] d).1 in
      let (written, reading, same) = has_sent d c l before key e hd hk in
      let (l', later, pending) = all_sent d t before key cs hd reading same rest in
      (
        l',
        send l u l' before before c cs (packet_of key c) (map (packet_of key) cs) i refl written
            later,
        pending,
      )

  module _ (far : Far.Env) (agrees : Agrees near far) where
    -- The data of a client, in any number of reads of the local end that succeed, of less than 2^16
    -- bytes each: the local end writes a packet for each read, and then reads on. A read of the
    -- server, in a connected CONNECT session with the same data key, that holds these packets and
    -- fewer than four bytes behind them, writes the bytes of every read to the remote host, in order,
    -- and then reads on. The writes succeed, and the ciphers keep what `Agrees` says.
    pub reads-carried :
        (d : NearWorld.Completion) (e : FarWorld.Completion) (l : Session) (before : List Op)
        (key : List ℕ) (c : NearWorld.Completion) (cs : List NearWorld.Completion)
        → d.error ≡ false
        → e.error ≡ false
        → l.issued ≡ before ++ read_left max_length left_read_handler ∷ []
        → encryptor_key near l ≡ key
        → AllRead (c ∷ cs)
        → (n : ℕ) (p : Packet) (tail : List ℕ) (s : Far.Session)
        → Holds p n (stream (map (packet_of key) (c ∷ cs)) ++ tail)
        → length tail < 4
        → Forwards key s
        → ((l' : Session) × Sends d l (c ∷ cs) (map (packet_of key) (c ∷ cs)) l'
            × (l'.issued ≡ before ++ read_left max_length left_read_handler ∷ []))
          × ((t : Far.Session) × Writes far e
                (FarLeft.handle_packet far e.answers n p s).1
                (map text_of (c ∷ cs))
                t
              × (t.issued ≡ s.issued ++ Far.read_left max_length ∷ []))
    reads-carried d e l before key c cs hd he i hk h n p tail s held short f =
        let qs = map (packet_of key) cs in
        let held' : Holds p n (buffers (packet_of key c) ++ (stream qs ++ tail)) =
          rw (append_assoc (buffers (packet_of key c)) (stream qs) tail) at held in
        let forwarded =
          reads-forwarded far e he n p (packet_of key c) qs tail key s
            (all_sized far agrees key (c ∷ cs) h) (all_data far agrees key (c ∷ cs)) held' short
            f in
        (
          all_sent d l before key (c ∷ cs) hd i hk h,
          rw (all_decrypted far agrees key (c ∷ cs)) at forwarded,
        )
