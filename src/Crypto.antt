-- ===== src/Crypto.antt =====
-- core/crypto: the interface `Encrypt` of the ciphers, and what they throw. A cipher is
-- an object with a state; `encrypt` and `decrypt` are its virtual functions.
pub mod Stream
pub mod Xor
pub mod Aes
pub mod Rsa
pub mod Md5
pub mod Rc4
pub mod Base64
pub mod Encryptor
use lproxy.Base.{List, [], ◌∷◌, ℕ}
use lproxy.Base.Handler.{Handler, ret, ◌>>=◌}

-- core/except/except.h, without the messages.
pub data Exception : Type 0 where
  encrypt_exception decrypt_exception : Exception

abbrev pub M : Type 0 → Type 0 → Type 0
M S A = Handler Exception S A

pub record Encrypt (S : Type 0) : Type 0 where
  pub encrypt : List ℕ → M S (List ℕ)
  pub decrypt : List ℕ → M S (List ℕ)

-- The messages of a connection, one call for each.
module _ {S : Type 0} (crypto : Encrypt S) where
  unfoldable pub encrypt_all : List (List ℕ) → M S (List (List ℕ))
  encrypt_all [] = ret []
  encrypt_all (src ∷ rest) = do
    dest ← crypto.encrypt src
    others ← encrypt_all rest
    ret (dest ∷ others)

  unfoldable pub decrypt_all : List (List ℕ) → M S (List (List ℕ))
  decrypt_all [] = ret []
  decrypt_all (src ∷ rest) = do
    dest ← crypto.decrypt src
    others ← decrypt_all rest
    ret (dest ∷ others)
