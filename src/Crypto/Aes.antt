-- ===== src/Crypto/Aes.antt =====
-- core/crypto/aes_crypto.h and aes_crypto.cpp. MD5, as upper-case hexadecimal text, is a parameter,
-- and so is the CTR mode of CryptoPP: its bytes are those of the text, each with one of a stream
-- that the key and the first counter determine.
pub mod KeyStream
use lproxy.Base.{
  ℕ, suc, ◌-◌, ◌==◌, ◌++◌, if◌then◌else◌, List, [], ◌∷◌, length, take, replicate, codes, bit_xor,
  Outcome, ok, throw, fault, ◌>>=◌,
}
use lproxy.Base.Handler.{read}
use lproxy.Crypto.{Exception, M, Encrypt}

pub record Aes : Type 0 where
  pub aes_key : List ℕ
  pub ctr : List ℕ

unfoldable pub with_stream : (ℕ → ℕ) → ℕ → List ℕ → List ℕ
with_stream stream i [] = []
with_stream stream i (x ∷ src) = bit_xor x (stream i) ∷ with_stream stream (suc i) src

module _ (md5 : List ℕ → List ℕ) (ctr_mode : List ℕ → List ℕ → ℕ → ℕ) where
  unfoldable pub make_md5cipher : List ℕ → Outcome Exception (List ℕ)
  make_md5cipher key = let cipher = md5 key in if length cipher == 32 then ok cipher else fault

  -- The 16 bytes of the counter.
  unfoldable pub initialize_counter : List ℕ → Outcome Exception (List ℕ)
  unfolding make_md5cipher
  initialize_counter something = do
    c ← make_md5cipher (something ++ codes "lproxy_crypto_2bbb8318cccb968")
    ok (take 16 c ++ replicate (16 - length c) 28)

  -- The constructors: from any key, and from one of 256 bits.
  unfoldable pub new_aes : List ℕ → Outcome Exception Aes
  unfolding make_md5cipher initialize_counter
  new_aes key = do
    aes_key ← make_md5cipher key
    ctr ← initialize_counter key
    ok (record { aes_key = aes_key; ctr = ctr })

  unfoldable pub new_raw : List ℕ → Outcome Exception Aes
  unfolding initialize_counter
  new_raw raw256key =
      if length raw256key == 32
      then (do ctr ← initialize_counter raw256key; ok (record { aes_key = raw256key; ctr = ctr }))
      else fault

  -- Each call sets the key and the first counter again.
  unfoldable pub encrypt : List ℕ → M Aes (List ℕ)
  unfolding with_stream
  encrypt src = read (λ s. with_stream (ctr_mode s.aes_key s.ctr) 0 src)

  unfoldable pub decrypt : List ℕ → M Aes (List ℕ)
  unfolding with_stream
  decrypt src = read (λ s. with_stream (ctr_mode s.aes_key s.ctr) 0 src)

  unfoldable pub aes : Encrypt Aes
  unfolding encrypt decrypt
  aes = record { encrypt = encrypt; decrypt = decrypt }
