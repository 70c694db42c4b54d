-- ===== src/Crypto/Rc4.antt =====
-- core/crypto/rc4_crypto.h and rc4_crypto.cpp. `rc4_init` and `rc4_crypt` of rc4.c, a copy of
-- FreeBSD's, are parameters; `rc4_crypt` gives the bytes and the state behind them. A null pointer is
-- `none`.
use lproxy.Base.{ℕ, ◌≡◌, refl, Option, none, some, List, Outcome, ok, fault}
use lproxy.Base.Handler.{update, read, ◌>>=◌, ◌>>◌, ret}
use lproxy.Crypto.{M, Encrypt, encrypt_all, decrypt_all}
use lproxy.Crypto.Stream.{Passes, all-Passes}

module _ {State : Type 0} (rc4_init : List ℕ → State)
    (rc4_crypt : State → List ℕ → List ℕ × State) where
  pub record Rc4 : Type 0 where
    pub key : List ℕ
    pub en_state : State
    pub de_state : State

  unfoldable pub new_rc4 : Option (List ℕ) → Outcome (Unit {0}) Rc4
  new_rc4 none = fault
  new_rc4 (some key) = ok (record { key = key; en_state = rc4_init key; de_state = rc4_init key })

  unfoldable pub encrypt : List ℕ → M Rc4 (List ℕ)
  encrypt src = do
    temp ← read (λ s. (rc4_crypt s.en_state src).0)
    update (λ s. record s { en_state = (rc4_crypt s.en_state src).1 })
    ret temp

  unfoldable pub decrypt : List ℕ → M Rc4 (List ℕ)
  decrypt src = do
    temp ← read (λ s. (rc4_crypt s.de_state src).0)
    update (λ s. record s { de_state = (rc4_crypt s.de_state src).1 })
    ret temp

  unfoldable pub rc4 : Encrypt Rc4
  unfolding encrypt decrypt
  rc4 = record { encrypt = encrypt; decrypt = decrypt }

  -- The one is about to decrypt where the other is about to encrypt.
  abbrev Aligned : Rc4 → Rc4 → Type 0
  Aligned a b = a.en_state ≡ b.de_state

  module _
      (undoes : (s : State) (text : List ℕ)
        → rc4_crypt s (rc4_crypt s text).0 ≡ (text, (rc4_crypt s text).1)) where
    rc4-Passes : (a b : Rc4) (src : List ℕ) → Aligned a b → Passes rc4 Aligned a b src
    unfolding rc4 encrypt decrypt
    rc4-Passes a b src h = record {
      dest = (rc4_crypt a.en_state src).0;
      sent = record a { en_state = (rc4_crypt a.en_state src).1 };
      received = record b { de_state = (rc4_crypt a.en_state src).1 };
      encrypts = refl;
      decrypts = rw (← h, undoes a.en_state src) refl;
      aligned = refl;
    }

    -- Two objects of the same key, each in a direction of its own: the messages that the one
    -- encrypts, one call for each, the other decrypts in the same order, and the other way round.
    -- `rc4_crypt` from the same state undoes itself and leaves the same state.
    pub rc4-roundtrip :
        (key : List ℕ) (a b : Rc4) (messages : List (List ℕ))
        → new_rc4 (some key) ≡ ok a
        → new_rc4 (some key) ≡ ok b
        → ((dests : List (List ℕ)) × ((encrypt_all rc4 messages a).0 ≡ ok dests)
            × ((decrypt_all rc4 dests b).0 ≡ ok messages))
          × ((dests : List (List ℕ)) × ((encrypt_all rc4 messages b).0 ≡ ok dests)
              × ((decrypt_all rc4 dests a).0 ≡ ok messages))
    unfolding new_rc4
    rc4-roundtrip key a b messages ha hb =
        let up : Aligned a b = cc in
        let down : Aligned b a = cc in
        (
          all-Passes rc4 Aligned rc4-Passes messages a b up,
          all-Passes rc4 Aligned rc4-Passes messages b a down,
        )
