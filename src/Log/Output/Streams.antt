-- ===== src/Log/Output/Streams.antt =====
-- The map of the streams, in the order of its keys.
use lproxy.Base.{
  ℕ, ◌≤◌, ◌<◌, ◌≡◌, refl, ltb, ◌==◌, if◌then◌else◌, Bool-cases, inl, inr, Option, none, some, List,
  [], ◌∷◌, arith,
}
use lproxy.Log.Output.{find, insert, erase}

module _ {V : Type 0} where
  -- All keys are above one.
  abbrev pub Above : ℕ → List (ℕ × V) → Type 0
  Above k [] = Unit
  Above k ((j, v) ∷ m) = (k < j) × Above k m

  abbrev pub Sorted : List (ℕ × V) → Type 0
  Sorted [] = Unit
  Sorted ((j, v) ∷ m) = Above j m × Sorted m

  Above-lower : (i k : ℕ) (m : List (ℕ × V)) → i ≤ k → Above k m → Above i m
  Above-lower i k [] h a = tt
  Above-lower i k ((j, v) ∷ m) h (b, a) = (omega (arith, h, b), Above-lower i k m h a)

  pub find-Above : (s k : ℕ) (m : List (ℕ × V)) → s ≤ k → Above k m → find s m ≡ none
  unfolding find
  find-Above s k [] h a = refl
  find-Above s k ((j, v) ∷ m) h (b, a) = ground (arith, b, h, find-Above s k m h a)

  Above-insert : (i k : ℕ) (v : V) (m : List (ℕ × V)) → i < k → Above i m → Above i (insert k v m)
  unfolding insert
  Above-insert i k v [] h a = (h, tt)
  Above-insert i k v ((j, w) ∷ m) h (b, a) = elim (Bool-cases (ltb k j)) [
    | inl e ↦ rw e (h, (b, a))
    | inr e ↦ elim (Bool-cases (j == k)) [
      | inl q ↦ rw (e, q) (b, a)
      | inr q ↦ rw (e, q) (b, Above-insert i k v m h a)
    ]
  ]

  pub Sorted-insert : (k : ℕ) (v : V) (m : List (ℕ × V)) → Sorted m → Sorted (insert k v m)
  unfolding insert
  Sorted-insert k v [] h = (tt, tt)
  Sorted-insert k v ((j, w) ∷ m) (a, h) = elim (Bool-cases (ltb k j)) [
    | inl e ↦
        let less : k < j = ground arith in
        rw e ((less, Above-lower k j m (omega (arith, less)) a), (a, h))
    | inr e ↦ elim (Bool-cases (j == k)) [
      | inl q ↦ rw (e, q) (a, h)
      | inr q ↦ rw (e, q) (Above-insert j k v m (ground arith) a, Sorted-insert k v m h)
    ]
  ]

  Above-erase : (i k : ℕ) (m : List (ℕ × V)) → Above i m → Above i (erase k m)
  unfolding erase
  Above-erase i k [] a = tt
  Above-erase i k ((j, w) ∷ m) (b, a) = elim (Bool-cases (j == k)) [
    | inl q ↦ rw q a
    | inr q ↦ rw q (b, Above-erase i k m a)
  ]

  pub Sorted-erase : (k : ℕ) (m : List (ℕ × V)) → Sorted m → Sorted (erase k m)
  unfolding erase
  Sorted-erase k [] h = tt
  Sorted-erase k ((j, w) ∷ m) (a, h) = elim (Bool-cases (j == k)) [
    | inl q ↦ rw q h
    | inr q ↦ rw q (Above-erase j k m a, Sorted-erase k m h)
  ]

  -- The value that `insert` leaves.
  abbrev pub or_new : Option V → V → V
  or_new none v = v
  or_new (some w) v = w

  pub find-insert :
      (s k : ℕ) (v : V) (m : List (ℕ × V))
      → Sorted m
      → find s (insert k v m) ≡ (if k == s then some (or_new (find s m) v) else find s m)
  unfolding find insert
  find-insert s k v [] h = refl
  find-insert s k v ((j, w) ∷ m) (a, h) = ground (arith, a, find-Above s j m, find-insert s k v m h)

  pub find-erase :
      (s k : ℕ) (m : List (ℕ × V))
      → Sorted m
      → find s (erase k m) ≡ (if k == s then none else find s m)
  unfolding find erase
  find-erase s k [] h = ground arith
  find-erase s k ((j, w) ∷ m) (a, h) = ground (arith, a, find-Above s j m, find-erase s k m h)
