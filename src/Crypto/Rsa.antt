-- ===== src/Crypto/Rsa.antt =====
-- core/crypto/rsa_crypto.h and rsa_crypto.cpp: long texts in blocks. The OAEP encryption and
-- decryption of one block by CryptoPP, with a key in hexadecimal digits, are parameters; `none` is
-- an exception of CryptoPP. `draw` numbers the uses of the random pool.
pub mod Blocks
use lproxy.Base.{
  ℕ, zero, suc, ◌+◌, ◌-◌, ◌*◌, ◌/◌, ◌%◌, ◌^◌, ◌==◌, ◌&&◌, leb, Bool, true, false, if◌then◌else◌,
  Option, none, some, List, [], ◌∷◌, ◌++◌, length, Outcome, ok, throw, fault, ◌>>=◌, bytes_at,
}
use lproxy.Base.Floats.{to_float, float_add, float_div, truncated}
use lproxy.Crypto.{Exception, encrypt_exception, decrypt_exception, M, Encrypt}

pub record Rsa : Type 0 where
  pub public_key : List ℕ
  pub private_key : List ℕ
  pub keysize : ℕ
  pub flag_private_key_set : Bool

-- The constructors from a public key, from two strings, and from two ranges of bytes. The parameters say
-- of hexadecimal digits whether CryptoPP's `Load` takes them for a public and for a private key; what
-- it throws otherwise leaves the constructor.
module _ (loads : List ℕ → Bool) where
  unfoldable pub with_public : ℕ → List ℕ → Outcome (Unit {0}) Rsa
  with_public keysize public_key =
      if loads public_key
      then ok (record {
        public_key = public_key;
        private_key = [];
        keysize = keysize;
        flag_private_key_set = false;
      })
      else throw tt

  module _ (loads_private : List ℕ → Bool) where
    unfoldable pub with_strings : ℕ → List ℕ → List ℕ → Outcome (Unit {0}) Rsa
    with_strings keysize public_key private_key =
        if loads public_key && loads_private private_key
        then ok (record {
          public_key = public_key;
          private_key = private_key;
          keysize = keysize;
          flag_private_key_set = true;
        })
        else throw tt

    unfoldable pub with_bytes : ℕ → List ℕ → List ℕ → Outcome (Unit {0}) Rsa
    with_bytes keysize public_key private_key =
        if loads public_key && loads_private private_key
        then ok (record {
          public_key = public_key;
          private_key = private_key;
          keysize = keysize;
          flag_private_key_set = false;
        })
        else throw tt

-- `size_t` subtraction.
unfoldable pub sub_size : ℕ → ℕ → ℕ
sub_size a b = (a + 2 ^ 64 - b) % 2 ^ 64

unfoldable pub max_block_size : ℕ → ℕ
unfolding sub_size
max_block_size keysize = sub_size (keysize / 8) 42

-- `max_loop` of `encrypt`, for a block size that is not 0.
unfoldable pub max_loop : ℕ → ℕ → ℕ
unfolding to_float float_add float_div truncated
max_loop src_len block =
    if src_len % block == 0
    then src_len / block
    else truncated (float_add (float_div (to_float src_len) (to_float block)) (to_float 1))

module _ (encrypt_block : ℕ → List ℕ → List ℕ → Option (List ℕ))
    (decrypt_block : List ℕ → List ℕ → Option (List ℕ)) where
  -- `rounds` more rounds, from `loop` on.
  unfoldable pub encrypt_loop : List ℕ → List ℕ → ℕ → ℕ → ℕ → Outcome Exception (List ℕ)
  unfolding sub_size bytes_at
  encrypt_loop key src block zero loop = ok []
  encrypt_loop key src block (suc rounds) loop =
      let unproc_data = sub_size (length src) (loop * block) in
      let offset = if leb block unproc_data then block else unproc_data in
      let current = sub_size (length src) unproc_data in
      (do
        text ← bytes_at src current offset
        cipher ← elim (encrypt_block loop key text) [
          | none ↦ throw encrypt_exception
          | some c ↦ ok c
        ]
        others ← encrypt_loop key src block rounds (suc loop)
        ok (cipher ++ others))

  unfoldable pub decrypt_loop : List ℕ → List ℕ → ℕ → ℕ → ℕ → Outcome Exception (List ℕ)
  unfolding bytes_at
  decrypt_loop key src block zero loop = ok []
  decrypt_loop key src block (suc rounds) loop = do
    cipher ← bytes_at src (loop * block) block
    recovered ← elim (decrypt_block key cipher) [ none ↦ throw decrypt_exception | some t ↦ ok t ]
    others ← decrypt_loop key src block rounds (suc loop)
    ok (recovered ++ others)

  -- A division by zero is not defined.
  unfoldable pub encrypt : List ℕ → M Rsa (List ℕ)
  unfolding max_block_size max_loop encrypt_loop
  encrypt src s =
      let block = max_block_size s.keysize in
      (
        if block == 0
            then fault
            else encrypt_loop s.public_key src block (max_loop (length src) block) 0,
        s,
      )

  unfoldable pub decrypt : List ℕ → M Rsa (List ℕ)
  unfolding decrypt_loop
  decrypt src s =
      let block = s.keysize / 8 in
      let recovered = decrypt_loop s.private_key src block (length src / block) 0 in
      (
        if s.flag_private_key_set
            then (if block == 0
                then fault
                else if length src % block == 0
                then recovered
                else throw decrypt_exception)
            else throw decrypt_exception,
        s,
      )

  unfoldable pub rsa : Encrypt Rsa
  unfolding encrypt decrypt
  rsa = record { encrypt = encrypt; decrypt = decrypt }
