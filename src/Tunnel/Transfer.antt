-- ===== src/Tunnel/Transfer.antt =====
-- Data packets, from `pack_data` of one end to the unpacking of the other.
use lproxy.Base.{
  inl, inr, if◌then◌else◌, Option-cases, ℕ, ◌+◌, ◌≤◌, ◌<◌, ◌≡◌, refl, ap, ◌∙◌, Bool, some, List,
  length, take, ok, arith, length-take,
}
use lproxy.Packet.{reply_code, ReplyType, request_code, RequestType, Packet, data_len, make_packet}
use lproxy.Packet.Codec.{Receives, data_len-make_packet}
use lproxy.Session.{sub_ℕ}
use lproxy.Local.State as Near
use lproxy.Server.State as Far
use lproxy.Local.Pack as NearPack
use lproxy.Server.Pack as FarPack
use lproxy.Tunnel.Agreed.{Agrees}

-- What a received packet of a cipher text holds.
received :
    (p : Packet) (type len : ℕ) (cipher : List ℕ)
    → Receives p (make_packet 0 type len cipher)
    → len ≡ length cipher
    → len < 65536
    → (data_len p ≡ len) × (take len p.payload ≡ cipher)
unfolding make_packet
received p type len cipher r e h = (
  r.data_len ∙ data_len-make_packet 0 type len cipher ∙ omega arith,
  ap (λ k. take k p.payload) e ∙ r.payload,
)

module _ (near : Near.Env) where
  data_type : RequestType
  data_type = if near.config.zip_on then RequestType.zipdata else RequestType.plain_data

  ensured-key :
      (l : Near.Session)
      → NearPack.encryptor_key near (NearPack.ensure_encryptor near l)
        ≡ NearPack.encryptor_key near l
  unfolding NearPack.encryptor_key NearPack.ensure_encryptor
  ensured-key l = elim (Option-cases l.aes_encryptor) [ inl e ↦ rw e refl | inr (k, e) ↦ rw e refl ]

  near_packed :
      (l : Near.Session) (text : List ℕ) (n : ℕ)
      → (NearPack.pack_data near text n l).0
        ≡ ok (
            make_packet 0
              (request_code data_type)
              n
              (near.aes_encrypt (NearPack.encryptor_key near l) (take n text)))
  unfolding NearPack.pack_data data_type
  near_packed l text n = rw (ensured-key l) refl

module _ (near : Near.Env) (far : Far.Env) (agrees : Agrees near far) where
  -- What the local end packs, the server unpacks to the same bytes, when both have the same data key:
  -- for at most 65535 bytes of the buffer, whatever the received packet's buffer has behind the
  -- cipher text, and with ciphers as in `Agrees`. The server's session does not change, and the count
  -- of bytes left is exact.
  pub up-roundtrip :
      (l : Near.Session) (s : Far.Session) (key text : List ℕ) (n m : ℕ) (p packet : Packet)
      (is_zip : Bool)
      → NearPack.encryptor_key near l ≡ key
      → s.aes_encryptor ≡ some key
      → n ≤ length text
      → n < 65536
      → (NearPack.pack_data near text n l).0 ≡ ok packet
      → Receives p packet
      → FarPack.unpack_data far m p is_zip s ≡ (ok (take n text, sub_ℕ m (4 + n)), s)
  unfolding FarPack.unpack_data
  up-roundtrip l s key text n m p packet is_zip hk hs h b e r =
      let sent = near_packed near l text n in
      let which : packet
          ≡ make_packet 0 (request_code (data_type near)) n
              (near.aes_encrypt (NearPack.encryptor_key near l) (take n text)) =
        cc in
      let (len, body) =
        received p _ n _ (rw which at r)
          (omega (
            arith,
            agrees.up_length (NearPack.encryptor_key near l) (take n text),
            length-take n text,
          ))
          b in
      rw (hs, len, body, hk, agrees.up key (take n text)) refl

  far_packed :
      (s : Far.Session) (key text : List ℕ) (n : ℕ)
      → s.aes_encryptor ≡ some key
      → (FarPack.pack_data far text n s).0 ≡ (
          let cipher = far.aes_encrypt key (take n text) in
          let type = if far.config.zip_on then ReplyType.zipdata else ReplyType.plain_data in
          ok (make_packet 0 (reply_code type) (length cipher) cipher))
  unfolding FarPack.pack_data
  far_packed s key text n h = rw h refl

  -- What the server packs, the local end unpacks to the same bytes, when both have the same data
  -- key: for at most 65535 bytes of the buffer, and whatever the received packet's buffer has
  -- behind the cipher text, and with ciphers as in `Agrees`. The count of bytes left is exact.
  pub down-roundtrip :
      (l : Near.Session) (s : Far.Session) (key text : List ℕ) (n m : ℕ) (p packet : Packet)
      (is_zip : Bool)
      → NearPack.encryptor_key near l ≡ key
      → s.aes_encryptor ≡ some key
      → n ≤ length text
      → n < 65536
      → (FarPack.pack_data far text n s).0 ≡ ok packet
      → Receives p packet
      → (NearPack.unpack_reply_data near m p is_zip l).0 ≡ ok (take n text, sub_ℕ m (4 + n))
  unfolding NearPack.unpack_reply_data
  down-roundtrip l s key text n m p packet is_zip hk hs h b e r =
      let sent = far_packed s key text n hs in
      let type = if far.config.zip_on then ReplyType.zipdata else ReplyType.plain_data in
      let cipher = far.aes_encrypt key (take n text) in
      let which : packet ≡ make_packet 0 (reply_code type) (length cipher) cipher = cc in
      let size : length cipher ≡ n =
        omega (arith, agrees.down_length key (take n text), length-take n text) in
      let (len, body) = received p _ _ cipher (rw which at r) refl (omega (arith, size)) in
      rw (ensured-key near l, hk, len, body, size, agrees.down key (take n text)) refl
