-- ===== src/Crypto/Md5.antt =====
-- core/crypto/md5_crypto.h and md5_crypto.cpp. CryptoPP's MD5, which gives 16 bytes, and its
-- `HexEncoder` are parameters.
use lproxy.Base.{ℕ, ◌==◌, if◌then◌else◌, List, length, ok, fault}
use lproxy.Base.Handler.{lift, raise}
use lproxy.Crypto.{M, Encrypt, decrypt_exception}

module _ (calculate_digest hex_encode : List ℕ → List ℕ) where
  unfoldable pub encrypt : List ℕ → M (Unit {0}) (List ℕ)
  encrypt src =
      let dest = hex_encode (calculate_digest src) in
      lift (if length dest == 32 then ok dest else fault)

  unfoldable pub decrypt : List ℕ → M (Unit {0}) (List ℕ)
  decrypt src = raise decrypt_exception

  unfoldable pub md5 : Encrypt (Unit {0})
  unfolding encrypt decrypt
  md5 = record { encrypt = encrypt; decrypt = decrypt }
