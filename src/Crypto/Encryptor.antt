-- ===== src/Crypto/Encryptor.antt =====
-- core/crypto/encryptor.h and encryptor.cpp: `Encryptor`, which passes its calls on to a cipher, and
-- assigns to the caller's string what the cipher writes to a vector of its own. A char is a byte.
use lproxy.Base.{ℕ, ◌≡◌, refl, Option, none, some, List, Outcome, ok, throw, fault}
use lproxy.Base.Handler.{Handler, update, ◌>>=◌}
use lproxy.Crypto.{Exception, Encrypt, M}
use lproxy.Crypto.Stream.{Passes}

pub record Encryptor (S : Type 0) : Type 0 where
  pub crypto : Encrypt S

-- The cipher, and the caller's string.
pub record Call (S : Type 0) : Type 0 where
  pub object : S
  pub dest : List ℕ

module _ {S : Type 0} where
  -- A null pointer is against the assertion.
  unfoldable pub new_encryptor : Option (Encrypt S) → Outcome (Unit {0}) (Encryptor S)
  new_encryptor none = fault
  new_encryptor (some crypto) = ok (record { crypto = crypto })

  unfoldable pub encrypt : Encryptor S → List ℕ → M S (List ℕ)
  encrypt e src = e.crypto.encrypt src

  unfoldable pub decrypt : Encryptor S → List ℕ → M S (List ℕ)
  decrypt e src = e.crypto.decrypt src

  abbrev on_object : {A : Type 0} → M S A → Handler Exception (Call S) A
  on_object m s = ((m s.object).0, record s { object = (m s.object).1 })

  unfoldable pub encrypt_string : Encryptor S → List ℕ → Handler Exception (Call S) (Unit {0})
  unfolding encrypt
  encrypt_string e src = do
    output ← on_object (encrypt e src)
    update (λ s. record s { dest = output })

  unfoldable pub decrypt_string : Encryptor S → List ℕ → Handler Exception (Call S) (Unit {0})
  unfolding decrypt
  decrypt_string e src = do
    output ← on_object (decrypt e src)
    update (λ s. record s { dest = output })

  -- Strings get through wherever the cipher's messages do, whatever the caller's strings held.
  pub strings-roundtrip :
      (Aligned : S → S → Type 0) (e : Encryptor S) (a b : Call S) (src : List ℕ)
      → Passes e.crypto Aligned a.object b.object src
      → (s : Call S) × (t : Call S) × (encrypt_string e src a ≡ (ok tt, s))
        × (decrypt_string e s.dest b ≡ (ok tt, t))
        × (t.dest ≡ src)
        × Aligned s.object t.object
  unfolding encrypt_string decrypt_string encrypt decrypt
  strings-roundtrip Aligned e a b src p =
      let sent : Call S = record { object = p.sent; dest = p.dest } in
      let received : Call S = record { object = p.received; dest = src } in
      (sent, received, rw (p.encrypts) refl, rw (p.decrypts) refl, refl, p.aligned)

  -- A cipher that throws leaves the caller's string as it was.
  pub encrypt_string-throws :
      (e : Encryptor S) (a : Call S) (src : List ℕ) (x : Exception)
      → (e.crypto.encrypt src a.object).0 ≡ throw x
      → ((encrypt_string e src a).0 ≡ throw x) × ((encrypt_string e src a).1.dest ≡ a.dest)
  unfolding encrypt_string encrypt
  encrypt_string-throws e a src x h = rw h (refl, refl)
