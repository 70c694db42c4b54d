-- ===== src/Tunnel/Agreed.antt =====
-- What CryptoPP documents of its ciphers, where the two ends use them on each other's bytes:
-- decryption under the same key undoes encryption, AES in a stream mode keeps the length, and the
-- private key undoes the public key. `plain` is what the local end has encrypted for the exchange.
use lproxy.Base.{ℕ, ◌≡◌, List, length, some}
use lproxy.Local.State as Near
use lproxy.Server.State as Far

pub record Agrees (near : Near.Env) (far : Far.Env) : Type 0 where
  pub up : (key text : List ℕ) → far.aes_decrypt key (near.aes_encrypt key text) ≡ text
  pub down : (key text : List ℕ) → near.aes_decrypt key (far.aes_encrypt key text) ≡ text
  pub up_length : (key text : List ℕ) → length (near.aes_encrypt key text) ≡ length text
  pub down_length : (key text : List ℕ) → length (far.aes_encrypt key text) ≡ length text
  pub exchange :
      (size : ℕ) (plain cipher : List ℕ)
      → near.rsa_encrypt size far.config.rsa_publickey_hex plain ≡ some cipher
      → far.rsa_decrypt cipher ≡ some plain
