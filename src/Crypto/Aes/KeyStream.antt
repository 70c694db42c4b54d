-- ===== src/Crypto/Aes/KeyStream.antt =====
-- Messages that the class Aes carries, and the key stream that every message of a key has in common.
use lproxy.Base.{
  ℕ, suc, ◌-◌, ◌==◌, ◌≡◌, ◌≢◌, refl, ap, ap₂, List, [], ◌∷◌, ◌++◌, length, take, replicate, codes,
  bit_xor, bit_xor_cancel, bit_xor_shared, ok, fault, arith, Bool-cases, inl, inr, ◌⊎◌,
}
use lproxy.Crypto.Stream.{Passes, all-Passes}
use lproxy.Crypto.{encrypt_all, decrypt_all}
use lproxy.Crypto.Aes.{
  Aes, with_stream, encrypt, decrypt, aes, new_raw, initialize_counter, make_md5cipher,
}

with_stream_twice :
    (stream : ℕ → ℕ) (i : ℕ) (src : List ℕ) → with_stream stream i (with_stream stream i src) ≡ src
unfolding with_stream
with_stream_twice stream i [] = refl
with_stream_twice stream i (x ∷ src) =
    ap₂ ◌∷◌ (bit_xor_cancel x (stream i)) (with_stream_twice stream (suc i) src)

length-with_stream :
    (stream : ℕ → ℕ) (i : ℕ) (src : List ℕ) → length (with_stream stream i src) ≡ length src
unfolding with_stream
length-with_stream stream i [] = refl
length-with_stream stream i (x ∷ src) = ap suc (length-with_stream stream (suc i) src)

-- Byte by byte, as far as both go.
abbrev pub xor_bytes : List ℕ → List ℕ → List ℕ
xor_bytes [] ys = []
xor_bytes (x ∷ xs) [] = []
xor_bytes (x ∷ xs) (y ∷ ys) = bit_xor x y ∷ xor_bytes xs ys

xor_bytes-with_stream :
    (stream : ℕ → ℕ) (i : ℕ) (xs ys : List ℕ)
    → xor_bytes (with_stream stream i xs) (with_stream stream i ys) ≡ xor_bytes xs ys
unfolding with_stream
xor_bytes-with_stream stream i [] ys = refl
xor_bytes-with_stream stream i (x ∷ xs) [] = refl
xor_bytes-with_stream stream i (x ∷ xs) (y ∷ ys) =
    ap₂ ◌∷◌ (bit_xor_shared x y (stream i)) (xor_bytes-with_stream stream (suc i) xs ys)

module _ (md5 : List ℕ → List ℕ) (ctr_mode : List ℕ → List ℕ → ℕ → ℕ) where
  -- Two messages under one key, from one object or from both ends: the exclusive or of their cipher
  -- texts is that of the messages, whatever the key is.
  pub encrypt_all-repeats :
      (s : Aes) (first second : List ℕ)
      → (one two : List ℕ) × (encrypt_all (aes md5 ctr_mode) (first ∷ second ∷ []) s
          ≡ (ok (one ∷ two ∷ []), s))
        × (xor_bytes one two ≡ xor_bytes first second)
  unfolding encrypt_all aes encrypt
  encrypt_all-repeats s first second =
      let stream = ctr_mode s.aes_key s.ctr in
      (
        with_stream stream 0 first,
        with_stream stream 0 second,
        refl,
        xor_bytes-with_stream stream 0 first second,
      )

  md5_is :
      (text : List ℕ) → length (md5 text) ≡ 32 → make_md5cipher md5 ctr_mode text ≡ ok (md5 text)
  unfolding make_md5cipher
  md5_is text h = rw h refl

  abbrev AesPasses : Aes → Aes → List ℕ → Type 0
  AesPasses = Passes (aes md5 ctr_mode) (λ a b. a ≡ b)

  aes-Passes : (a b : Aes) (src : List ℕ) → a ≡ b → AesPasses a b src
  unfolding aes encrypt decrypt
  aes-Passes a b src h = rw h (record {
    dest = with_stream (ctr_mode b.aes_key b.ctr) 0 src;
    sent = b;
    received = b;
    encrypts = refl;
    decrypts = ap (λ t. (ok t, b)) (with_stream_twice (ctr_mode b.aes_key b.ctr) 0 src);
    aligned = refl;
  })

  -- From a key of 32 bytes the two ends make the same object, where MD5 gives 32 bytes: the messages
  -- that the one encrypts, one call for each, the other decrypts in the same order, and each cipher
  -- text is as long as its message. No object is made from a key of another length.
  pub aes-roundtrip :
      (key text : List ℕ) (messages : List (List ℕ))
      → ((input : List ℕ) → length (md5 input) ≡ 32)
      → ((length key ≡ 32)
          × ((s : Aes) × (new_raw md5 ctr_mode key ≡ ok s)
              × ((dests : List (List ℕ)) × ((encrypt_all (aes md5 ctr_mode) messages s).0
                    ≡ ok dests)
                  × ((decrypt_all (aes md5 ctr_mode) dests s).0 ≡ ok messages))
              × ((dest : List ℕ) × (encrypt md5 ctr_mode text s ≡ (ok dest, s))
                  × (length dest ≡ length text))))
        ⊎ (length key ≢ 32) × (new_raw md5 ctr_mode key ≡ fault)
  unfolding new_raw initialize_counter encrypt
  aes-roundtrip key text messages sized = elim (Bool-cases (length key == 32)) [
    | inl e ↦
        let salted = key ++ codes "lproxy_crypto_2bbb8318cccb968" in
        let cipher = md5 salted in
        let s : Aes = record {
          aes_key = key;
          ctr = take 16 cipher ++ replicate (16 - length cipher) 28;
        } in
        let stream = ctr_mode s.aes_key s.ctr in
        let made : new_raw md5 ctr_mode key ≡ ok s = rw (e, md5_is salted (sized salted)) refl in
        inl (
          ground (arith, e),
          (
            s,
            made,
            all-Passes (aes md5 ctr_mode) (λ a b. a ≡ b) aes-Passes messages s s refl,
            (with_stream stream 0 text, refl, length-with_stream stream 0 text),
          ),
        )
    | inr e ↦ inr ((λ h. ground (arith, e, h)), rw e refl)
  ]
