-- ===== src/Crypto/Base64.antt =====
-- core/crypto/base64_crypto.h and base64_crypto.cpp. CryptoPP's encoder, which puts line feeds into its
-- output, and its decoder are parameters.
use lproxy.Base.{
  ℕ, ◌≡◌, ◌==◌, refl, false, Bool, Bool-cases, inl, inr, if◌then◌else◌, List, [], ◌∷◌, ok, All,
}
use lproxy.Base.Handler.{read, ret, ◌>>=◌}
use lproxy.Crypto.{M, Encrypt}

abbrev pub line_feed : ℕ
line_feed = 10

-- `std::remove`, up to the new end.
unfoldable pub remove : ℕ → List ℕ → List ℕ
remove value [] = []
remove value (x ∷ xs) = let rest = remove value xs in if x == value then rest else x ∷ rest

pub remove-All : (value : ℕ) (xs : List ℕ) → All (λ x. (x == value) ≡ false) (remove value xs)
unfolding remove
remove-All value [] = tt
remove-All value (x ∷ xs) = elim (Bool-cases (x == value)) [
  | inl e ↦ rw e (remove-All value xs)
  | inr e ↦ rw e (e, remove-All value xs)
]

pub record Base64 : Type 0 where
  pub lf : Bool

module _ (encode decode : List ℕ → List ℕ) where
  unfoldable pub encrypt : List ℕ → M Base64 (List ℕ)
  unfolding remove
  encrypt src = do
    kept ← read (λ s. s.lf)
    let output = encode src
    ret (if kept then output else remove line_feed output)

  unfoldable pub decrypt : List ℕ → M Base64 (List ℕ)
  decrypt src = ret (decode src)

  unfoldable pub base64 : Encrypt Base64
  unfolding encrypt decrypt
  base64 = record { encrypt = encrypt; decrypt = decrypt }

  -- An object decrypts what another one encrypts, whichever of them allows line feeds; without them
  -- there is none in the output. The decoder reads what the encoder writes, and takes no notice of
  -- line feeds.
  pub base64-roundtrip :
      ((text : List ℕ) → decode (encode text) ≡ text)
      → ((text : List ℕ) → decode (remove line_feed text) ≡ decode text)
      → (a b : Base64) (text : List ℕ)
      → (dest : List ℕ) × (base64.encrypt text a ≡ (ok dest, a))
        × (base64.decrypt dest b ≡ (ok text, b))
        × (a.lf ≡ false → All (λ x. (x == line_feed) ≡ false) dest)
  unfolding base64 encrypt decrypt
  base64-roundtrip reads ignores a b text = elim (Bool-cases a.lf) [
    | inl e ↦ (encode text, rw e refl, rw (reads text) refl, λ f. cc)
    | inr e ↦ (
      remove line_feed (encode text),
      rw e refl,
      rw (ignores (encode text), reads text) refl,
      λ f. remove-All line_feed (encode text),
    )
  ]
