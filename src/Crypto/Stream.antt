-- ===== src/Crypto/Stream.antt =====
-- Messages that one object encrypts and another one decrypts.
use lproxy.Base.{List, [], ◌∷◌, ℕ, ◌≡◌, refl, ok}
use lproxy.Crypto.{Encrypt, encrypt_all, decrypt_all}

module _ {S : Type 0} (crypto : Encrypt S) (Aligned : S → S → Type 0) where
  -- One message gets through, and leaves both ends aligned.
  pub record Passes (a b : S) (src : List ℕ) : Type 0 where
    pub dest : List ℕ
    pub sent : S
    pub received : S
    pub encrypts : crypto.encrypt src a ≡ (ok dest, sent)
    pub decrypts : crypto.decrypt dest b ≡ (ok src, received)
    pub aligned : Aligned sent received

  pub all-Passes :
      ((a b : S) (src : List ℕ) → Aligned a b → Passes a b src)
      → (messages : List (List ℕ)) (a b : S) → Aligned a b
      → (dests : List (List ℕ)) × ((encrypt_all crypto messages a).0 ≡ ok dests)
        × ((decrypt_all crypto dests b).0 ≡ ok messages)
  unfolding encrypt_all decrypt_all
  all-Passes one [] a b h = ([], refl, refl)
  all-Passes one (src ∷ rest) a b h =
      let p = one a b src h in
      let (dests, e, d) = all-Passes one rest p.sent p.received p.aligned in
      (p.dest ∷ dests, rw (p.encrypts, e) refl, rw (p.decrypts, d) refl)
