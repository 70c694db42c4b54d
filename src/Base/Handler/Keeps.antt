-- ===== src/Base/Handler/Keeps.antt =====
-- Handlers that keep a property of the session, put together from their parts.
use mathlib.Core.Bool.{Bool, true, false, cond}
use lproxy.Base.Tests.{if◌then◌else◌}
use lproxy.Base.Results.{Outcome, ok, throw, fault}
use lproxy.Base.Handler.{
  Handler, ret, lift, raise, update, read, after, caught, try_catch, ◌>>=◌, ◌>>◌,
}

module _ {E S : Type 0} (P : S → Type 0) where
  unfoldable pub Keeps : {A : Type 0} → Handler E S A → Type 0
  Keeps m = (s : S) → P s → P (m s).1

  pub raise-Keeps : (A : Type 0) (e : E) → Keeps {A = A} (raise e)
  unfolding Keeps
  raise-Keeps A e s h = h

  module _ {A : Type 0} where
    pub lift-Keeps : (r : Outcome E A) → Keeps (lift r)
    unfolding Keeps
    lift-Keeps r s h = h

    pub cond-Keeps : (b : Bool) (m n : Handler E S A) → Keeps m → Keeps n → Keeps (cond b m n)
    cond-Keeps true m n hm hn = hm
    cond-Keeps false m n hm hn = hn

    pub if-Keeps : (b : Bool) (m n : Handler E S A) → Keeps m → Keeps n → Keeps (if b then m else n)
    if-Keeps true m n hm hn = hm
    if-Keeps false m n hm hn = hn

  after-kept :
      {A B : Type 0} (f : A → Handler E S B)
      → ((a : A) → Keeps (f a))
      → (r : Outcome E A) (s : S) → P s
      → P (after f r s).1
  unfolding Keeps
  after-kept f k (ok a) s h = k a s h
  after-kept f k (throw e) s h = h
  after-kept f k fault s h = h

  pub bind-Keeps :
      {A B : Type 0} (m : Handler E S A) (f : A → Handler E S B)
      → Keeps m
      → ((a : A) → Keeps (f a))
      → Keeps (m >>= f)
  unfolding Keeps
  bind-Keeps m f km kf s h = after-kept f kf (m s).0 (m s).1 (km s h)

  pub then-Keeps :
      {B : Type 0} (m : Handler E S (Unit {0})) (n : Handler E S B)
      → Keeps m
      → Keeps n
      → Keeps (m >> n)
  then-Keeps m n km kn = bind-Keeps m (λ _. n) km (λ _. kn)

  caught-kept :
      (h : E → Handler E S (Unit {0}))
      → ((e : E) → Keeps (h e))
      → (r : Outcome E (Unit {0})) (s : S) → P s
      → P (caught h r s).1
  unfolding Keeps
  caught-kept f k (ok a) s h = h
  caught-kept f k (throw e) s h = k e s h
  caught-kept f k fault s h = h

  pub try_catch-Keeps :
      (m : Handler E S (Unit {0})) (h : E → Handler E S (Unit {0}))
      → Keeps m
      → ((e : E) → Keeps (h e))
      → Keeps (try_catch m h)
  unfolding Keeps
  try_catch-Keeps m f km kf s h = caught-kept f kf (m s).0 (m s).1 (km s h)

module _ {S : Type 0} (P : S → Type 0) (E : Type 0) where
  pub update-Keeps : (f : S → S) → ((s : S) → P s → P (f s)) → Keeps {E = E} P (update f)
  unfolding Keeps
  update-Keeps f h = h

  pub ret-Keeps : {A : Type 0} (a : A) → Keeps {E = E} P (ret a)
  unfolding Keeps
  ret-Keeps a s h = h

  pub read-Keeps : {A : Type 0} (f : S → A) → Keeps {E = E} P (read f)
  unfolding Keeps
  read-Keeps f s h = h

pub ruleset parts = (
  ret-Keeps, lift-Keeps, raise-Keeps, read-Keeps, cond-Keeps, if-Keeps, bind-Keeps, then-Keeps,
  try_catch-Keeps,
)
