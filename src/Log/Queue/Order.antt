-- ===== src/Log/Queue/Order.antt =====
-- The order in which a priority queue gives its values back: those of the first factor in the order
-- of their insertion, then those of the second, and so on, and in the end all others.
use lproxy.Base.{
  ap₂, ◌⊎◌, ℕ, zero, suc, ◌≤◌, ◌≡◌, refl, ap, sym, ◌==◌, if◌then◌else◌, Option, none, some, List,
  [], ◌∷◌, ◌++◌, length, ok, arith, Bool-cases, inl, inr,
}
use lproxy.Log.Queue.{find, find_max, at, erase, pop, top, drain}

module _ {A : Type 0} (factor_of : A → ℕ) where
  -- The values with a factor, and those without it, in their order.
  abbrev pub of_factor : ℕ → List A → List A
  of_factor factor [] = []
  of_factor factor (x ∷ c) =
      if factor_of x == factor then x ∷ of_factor factor c else of_factor factor c

  abbrev pub others : ℕ → List A → List A
  others factor [] = []
  others factor (x ∷ c) = if factor_of x == factor then others factor c else x ∷ others factor c

  abbrev pub in_order : List ℕ → List A → List A
  in_order [] c = c
  in_order (factor ∷ vfactor) c = of_factor factor c ++ in_order vfactor (others factor c)

  -- The value at a place is the first of those that `part` keeps, and the only one that goes with it.
  pub record Taken (c : List A) (i : ℕ) (part : List A → List A) : Type 0 where
    pub value : A
    pub at_place : at c i ≡ some value
    pub first : part c ≡ value ∷ part (erase c i)
    pub shorter : length c ≡ suc (length (erase c i))

  -- There is no value of a factor, or the search finds the first one.
  find-cases :
      (factor : ℕ) (c : List A)
      → (find factor_of factor c ≡ none) × (of_factor factor c ≡ []) × (others factor c ≡ c)
        ⊎ (i : ℕ) × (find factor_of factor c ≡ some i)
          × Taken c i (of_factor factor)
          × (others factor c ≡ others factor (erase c i))
  unfolding find at erase
  find-cases factor [] = inl (refl, refl, refl)
  find-cases factor (x ∷ c) = elim (Bool-cases (factor_of x == factor)) [
    | inl e ↦ inr (
      0,
      rw e refl,
      record { value = x; at_place = refl; first = rw e refl; shorter = refl },
      rw e refl,
    )
    | inr e ↦ elim (find-cases factor c) [
      | inl (f, p, q) ↦ inl (rw (e, f) refl, rw e p, rw e (ap (λ t. x ∷ t) q))
      | inr (i, f, t, q) ↦ inr (
        suc i,
        rw (e, f) refl,
        record {
          value = t.value;
          at_place = t.at_place;
          first = rw e t.first;
          shorter = ap suc t.shorter;
        },
        rw e (ap (λ t. x ∷ t) q),
      )
    ]
  ]

  absent : (factor : ℕ) (c : List A) → of_factor factor c ≡ [] → others factor c ≡ c
  absent factor [] h = refl
  absent factor (x ∷ c) h = elim (Bool-cases (factor_of x == factor)) [
    | inl e ↦ absurd (omega (arith, ap length (rw e at h)))
    | inr e ↦ rw e (ap (λ t. x ∷ t) (absent factor c (rw e at h)))
  ]

  absent-erase :
      (factor i : ℕ) (c : List A) → of_factor factor c ≡ [] → of_factor factor (erase c i) ≡ []
  unfolding erase
  absent-erase factor i [] h = refl
  absent-erase factor zero (x ∷ c) h = elim (Bool-cases (factor_of x == factor)) [
    | inl e ↦ absurd (omega (arith, ap length (rw e at h)))
    | inr e ↦ rw e at h
  ]
  absent-erase factor (suc i) (x ∷ c) h = elim (Bool-cases (factor_of x == factor)) [
    | inl e ↦ absurd (omega (arith, ap length (rw e at h)))
    | inr e ↦ rw e (absent-erase factor i c (rw e at h))
  ]

  pub find_max-takes :
      (vfactor : List ℕ) (z : A) (c : List A)
      → Taken (z ∷ c) (find_max factor_of vfactor (z ∷ c)) (in_order vfactor)
  unfolding find_max at erase
  find_max-takes [] z c = record { value = z; at_place = refl; first = refl; shorter = refl }
  find_max-takes (factor ∷ vfactor) z c = elim (find-cases factor (z ∷ c)) [
    | inl (f, p, q) ↦
        let t = find_max-takes vfactor z c in
        let p' = absent-erase factor (find_max factor_of vfactor (z ∷ c)) (z ∷ c) p in
        let q' = absent factor (erase (z ∷ c) (find_max factor_of vfactor (z ∷ c))) p' in
        rw (find_max, f)
          (record {
            value = t.value;
            at_place = t.at_place;
            first = rw (in_order, p, q, p', q') t.first;
            shorter = t.shorter;
          })
    | inr (i, f, t, q) ↦
        rw (find_max, f)
          (record {
            value = t.value;
            at_place = t.at_place;
            first = ap₂ (λ u v. u ++ in_order vfactor v) t.first q;
            shorter = t.shorter;
          })
  ]

  pub in_order-nil : (vfactor : List ℕ) → in_order vfactor [] ≡ []
  in_order-nil [] = refl
  in_order-nil (factor ∷ vfactor) = in_order-nil vfactor

  pub top-found :
      (vfactor : List ℕ) (c : List A) (place : Option ℕ) (x : A)
      → at c (find_max factor_of vfactor c) ≡ some x
      → top factor_of vfactor (record { c = c; max_value = place })
        ≡ ok (x, record { c = c; max_value = some (find_max factor_of vfactor c) })
  unfolding top
  top-found vfactor c place x h = rw (top, h) refl

  -- Taken with `top` and `pop` until the queue is empty, with fuel for every value, the values come
  -- in the order of their factors, and in the order of their insertion within a factor; those
  -- without a factor come last. No call meets the end of the list or an erased iterator.
  pub drain-in_order :
      (vfactor : List ℕ) (fuel : ℕ) (c : List A) (place : Option ℕ)
      → length c ≤ fuel
      → drain factor_of vfactor fuel (record { c = c; max_value = place }) ≡ ok (in_order vfactor c)
  unfolding drain pop
  drain-in_order vfactor zero [] place h = ap (λ l. ok l) (sym (in_order-nil vfactor))
  drain-in_order vfactor (suc fuel) [] place h = ap (λ l. ok l) (sym (in_order-nil vfactor))
  drain-in_order vfactor zero (z ∷ c) place h = absurd (omega arith)
  drain-in_order vfactor (suc fuel) (z ∷ c) place h =
      let t = find_max-takes vfactor z c in
      let rest =
        drain-in_order vfactor fuel (erase (z ∷ c) (find_max factor_of vfactor (z ∷ c))) none
          (omega (arith, t.shorter)) in
      rw (drain, top-found vfactor (z ∷ c) place t.value t.at_place, rest)
        (ap (λ l. ok l) (sym t.first))
