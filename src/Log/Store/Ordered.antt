-- ===== src/Log/Store/Ordered.antt =====
-- `Ordered`, an invariant of the store of core/store/store.h, against its operations.
use lproxy.Base.{
  ℕ, zero, suc, ◌+◌, ◌≤◌, ◌<◌, ◌≡◌, ◌⊎◌, refl, ap, leb, leb→le, leb→gt, Bool-cases, inl, inr, List,
  [], ◌∷◌, length, ok, arith,
}
use lproxy.Log.Store.{
  Container, Store, wake, notify_full, notify_empty, push, pop, full, pushed, popped,
}
use lproxy.Log.Store.Serves.{IsContainer, size-push, size-Taken, container_cases}

pub ℕ-cases : (n : ℕ) → (n ≡ 0) ⊎ (m : ℕ) × (n ≡ suc m)
ℕ-cases zero = inl refl
ℕ-cases (suc m) = inr (m, refl)

wake-cases :
    {T : Type 0} (i : ℕ) (asleep awake : List T)
    → (length asleep ≡ 0)
        × (length (wake i asleep awake).0 ≡ 0)
        × (length (wake i asleep awake).1 ≡ length awake)
      ⊎ (suc (length (wake i asleep awake).0) ≡ length asleep)
        × (length (wake i asleep awake).1 ≡ suc (length awake))
unfolding wake
wake-cases i [] awake = inl (refl, refl, refl)
wake-cases zero (x ∷ asleep) awake = inr (refl, refl)
wake-cases (suc i) (x ∷ []) awake = inr (refl, refl)
wake-cases (suc i) (x ∷ y ∷ asleep) awake = elim (wake-cases i (y ∷ asleep) awake) [
  | inl (e, _, _) ↦ absurd (omega (arith, e))
  | inr (e, f) ↦ inr (ap suc e, f)
]

module _ {T C : Type 0} (container : Container T C) (capacity : ℕ) where
  -- The store is within the capacity. A thread waits only where enough others are awake to fill the
  -- store, or to empty it.
  pub record Ordered (s : Store T C) : Type 0 where
    pub no_larger : s.capacity ≤ capacity
    pub bounded : container.size s.store ≤ capacity
    pub for_room :
        0 < length s.waiting_full → s.capacity ≤ container.size s.store + length s.pushing
    pub for_element : 0 < s.waiting_empty → container.size s.store ≤ s.popping

  pub notify_full-Ordered :
      (i : ℕ) (s : Store T C)
      → s.capacity ≤ capacity
      → container.size s.store ≤ capacity
      → (0 < length s.waiting_full → s.capacity ≤ suc (container.size s.store + length s.pushing))
      → (0 < s.waiting_empty → container.size s.store ≤ s.popping)
      → Ordered (notify_full i s)
  unfolding notify_full
  notify_full-Ordered i s c b r e = record {
    no_larger = c;
    bounded = b;
    for_room = λ h. elim (wake-cases i s.waiting_full s.pushing) [
      | inl (_, p, _) ↦ absurd (omega (arith, p, h))
      | inr (p, q) ↦ omega (arith, p, q, r (omega (arith, p, h)))
    ];
    for_element = e;
  }

  pub notify_empty-Ordered :
      (s : Store T C)
      → s.capacity ≤ capacity
      → container.size s.store ≤ capacity
      → (0 < length s.waiting_full → s.capacity ≤ container.size s.store + length s.pushing)
      → (0 < s.waiting_empty → container.size s.store ≤ suc s.popping)
      → Ordered (notify_empty s)
  unfolding notify_empty
  notify_empty-Ordered s c b r e = elim (ℕ-cases s.waiting_empty) [
    | inl z ↦
        rw (notify_empty, z)
          (record {
            no_larger = c;
            bounded = b;
            for_room = r;
            for_element = λ h. absurd (omega (arith, z, h));
          })
    | inr (n, z) ↦
        rw (notify_empty, z)
          (record {
            no_larger = c;
            bounded = b;
            for_room = r;
            for_element = λ h. e (omega (arith, z));
          })
  ]

  module _ (insert : T → List T → List T) (laws : IsContainer insert container) where
    pub push-Ordered :
        (x : T) (s : Store T C)
        → s.capacity ≤ capacity
        → container.size s.store ≤ capacity
        → (0 < length s.waiting_full → s.capacity ≤ suc (container.size s.store + length s.pushing))
        → (0 < s.waiting_empty → container.size s.store ≤ s.popping)
        → Ordered (push container x s)
    unfolding push full
    push-Ordered x s c b r e = elim (Bool-cases (leb s.capacity (container.size s.store))) [
      | inl f ↦ rw f (record {
        no_larger = c;
        bounded = b;
        for_room = λ h. omega (arith, leb→le s.capacity (container.size s.store) f);
        for_element = e;
      })
      | inr f ↦
          let stored = record s {
            store = container.push x s.store;
            history = pushed x ∷ s.history;
          } in
          let size = size-push insert container laws x s.store in
          rw f (
            notify_empty-Ordered stored c
              (omega (arith, c, size, leb→gt s.capacity (container.size s.store) f))
              (λ h. omega (arith, size, r h)) (λ h. omega (arith, size, e h)))
    ]

    pub pop-Ordered :
        (i : ℕ) (s : Store T C)
        → s.capacity ≤ capacity
        → container.size s.store ≤ capacity
        → (0 < length s.waiting_full → s.capacity ≤ container.size s.store + length s.pushing)
        → (0 < s.waiting_empty → container.size s.store ≤ suc s.popping)
        → (t : Store T C) × (pop container i s ≡ ok t) × Ordered t
    unfolding pop
    pop-Ordered i s c b r e = elim (container_cases insert container laws s.store) [
      | inl (z, size) ↦ (
        record s { waiting_empty = suc s.waiting_empty },
        rw z refl,
        record { no_larger = c; bounded = b; for_room = r; for_element = λ h. omega (arith, size) },
      )
      | inr (z, taken) ↦
          let size = size-Taken insert container laws s.store taken in
          let left = record s { store = taken.rest; history = popped taken.value ∷ s.history } in
          (
            notify_full i left,
            rw (z, taken.fronts, taken.pops) refl,
            notify_full-Ordered i left c (omega (arith, size, b)) (λ h. omega (arith, size, r h))
                (λ h. omega (arith, size, e h)),
          )
    ]
