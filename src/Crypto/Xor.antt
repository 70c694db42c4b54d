-- ===== src/Crypto/Xor.antt =====
-- core/crypto/xor_crypto.h and xor_crypto.cpp. `key_len` is the length of `key`. A position within
-- the key, plus the length of a buffer, is far below the size of `size_t`.
pub mod Positions
pub mod OneStream
use lproxy.Base.{
  ℕ, suc, ◌+◌, ◌%◌, ◌==◌, Bool, ◌&&◌, ◌||◌, true, false, if◌then◌else◌, List, [], ◌∷◌, length,
  get_or, bit_xor, Outcome, ok, fault,
}
use lproxy.Base.Handler.{lift, read, update, ret, ◌>>=◌, ◌>>◌}
use lproxy.Crypto.{Exception, M, Encrypt}

pub record Xor : Type 0 where
  pub key : List ℕ
  pub encry_loc : ℕ
  pub decry_loc : ℕ
  pub is_synchro : Bool

unfoldable pub new_xor : List ℕ → Bool → Xor
new_xor key is_synchro = record { key = key; encry_loc = 0; decry_loc = 0; is_synchro = is_synchro }

-- The loop, from the index `i` on.
unfoldable pub xor_from : List ℕ → ℕ → ℕ → List ℕ → List ℕ
xor_from key loc i [] = []
xor_from key loc i (x ∷ src) =
    bit_xor x (get_or key ((i + loc) % length key) 0) ∷ xor_from key loc (suc i) src

unfoldable pub is_empty : List ℕ → Bool
is_empty [] = true
is_empty (x ∷ xs) = false

-- The bytes, and the new `*loc`. `% key_len` is not defined for an empty key.
unfoldable pub xor_encrypt : Xor → List ℕ → ℕ → Outcome Exception (List ℕ × ℕ)
unfolding xor_from is_empty
xor_encrypt s src loc =
    if length s.key == 0
    then (if is_empty src then (if s.is_synchro then fault else ok ([], loc)) else fault)
    else ok
        (xor_from s.key loc 0 src, if s.is_synchro then (length src + loc) % length s.key else loc)

unfoldable pub encrypt : List ℕ → M Xor (List ℕ)
unfolding xor_encrypt
encrypt src = do
  s ← read (λ s. s)
  r ← lift (xor_encrypt s src s.encry_loc)
  update (λ s. record s { encry_loc = r.1 })
  ret r.0

unfoldable pub decrypt : List ℕ → M Xor (List ℕ)
unfolding xor_encrypt
decrypt src = do
  s ← read (λ s. s)
  r ← lift (xor_encrypt s src s.decry_loc)
  update (λ s. record s { decry_loc = r.1 })
  ret r.0

unfoldable pub xor : Encrypt Xor
unfolding encrypt decrypt
xor = record { encrypt = encrypt; decrypt = decrypt }
