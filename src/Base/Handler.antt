-- ===== src/Base/Handler.antt =====
-- The code of a handler: it changes the session, and ends in a value or an exception. What was
-- changed before an exception stays changed.
pub mod Keeps
use lproxy.Base.Results.{Outcome, ok, throw, fault}

abbrev pub Handler {ℓ} : Type 0 → Type 0 → Type ℓ → Type ℓ
Handler E S A = S → Outcome E A × S

module _ {E S : Type 0} where
  abbrev pub ret {ℓ} : {A : Type ℓ} → A → Handler E S A
  ret a s = (ok a, s)

  abbrev pub lift {ℓ} : {A : Type ℓ} → Outcome E A → Handler E S A
  lift r s = (r, s)

  abbrev pub after {ℓ κ} :
      {A : Type ℓ} {B : Type κ} → (A → Handler E S B) → Outcome E A → Handler E S B
  after f (ok a) s = f a s
  after f (throw e) s = (throw e, s)
  after f fault s = (fault, s)

  infixl 5 ◌>>=◌ ◌>>◌
  abbrev pub ◌>>=◌ {ℓ κ} :
      {A : Type ℓ} {B : Type κ} → Handler E S A → (A → Handler E S B) → Handler E S B
  ◌>>=◌ m f s = after f (m s).0 (m s).1

  abbrev pub ◌>>◌ {ℓ} : {B : Type ℓ} → Handler E S (Unit {0}) → Handler E S B → Handler E S B
  m >> k = m >>= λ _. k

  abbrev pub raise {ℓ} : {A : Type ℓ} → E → Handler E S A
  raise e s = (throw e, s)

  abbrev pub update : (S → S) → Handler E S (Unit {0})
  update f s = (ok tt, f s)

  abbrev pub read {ℓ} : {A : Type ℓ} → (S → A) → Handler E S A
  read f s = (ok (f s), s)

  abbrev pub caught : (E → Handler E S (Unit {0})) → Outcome E (Unit {0}) → Handler E S (Unit {0})
  caught h (ok a) s = (ok a, s)
  caught h (throw e) s = h e s
  caught h fault s = (fault, s)

  -- `try { m } catch (e) { h e }`
  abbrev pub try_catch :
      Handler E S (Unit {0}) → (E → Handler E S (Unit {0})) → Handler E S (Unit {0})
  try_catch m h s = caught h (m s).0 (m s).1
