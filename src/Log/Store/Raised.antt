-- ===== src/Log/Store/Raised.antt =====
-- `reserve` of core/store/store.h with a larger capacity, while a thread waits.
use lproxy.Base.{
  ℕ, zero, suc, ◌≤◌, ◌<◌, ◌≡◌, refl, ap, ◌∙◌, lt→leb, le→leb, List, [], ◌∷◌, length, arith,
}
use lproxy.Log.Store.{
  Container, Store, new_store, push_called, push_turn, reserved, reserve, push, full, notify_empty,
  Reach, here, next,
}
use lproxy.Log.Store.Serves.{IsContainer, size-new, size-push}

-- The capacity stays the same or is raised.
abbrev pub Larger : ℕ → ℕ → Type 0
Larger old new = old ≤ new

module _ {T C : Type 0} (container : Container T C) (insert : T → List T → List T)
    (laws : IsContainer insert container) (capacity : ℕ) (x : T) where
  -- Nobody is awake, and of those that push a number waits.
  record Quiet (held waiting : ℕ) (s : Store T C) : Type 0 where
    holds : container.size s.store ≡ held
    waits : length s.waiting_full ≡ waiting
    within : s.capacity ≡ capacity
    nobody : s.pushing ≡ []
    nobody_pops : s.popping ≡ 0
    no_pop : s.waiting_empty ≡ 0

  push-stored :
      (held : ℕ) (s : Store T C)
      → held < capacity
      → Quiet held 0 s
      → Quiet (suc held) 0 (push container x (record s { pushing = [] }))
  unfolding push full notify_empty
  push-stored held s h q =
      let room = lt→leb capacity held h in
      rw (push, full, q.holds, q.within, room, notify_empty, q.no_pop)
        (record {
          holds = size-push insert container laws x s.store ∙ ap suc q.holds;
          waits = q.waits;
          within = q.within;
          nobody = refl;
          nobody_pops = q.nobody_pops;
          no_pop = q.no_pop;
        })

  push-waits :
      (s : Store T C)
      → Quiet capacity 0 s
      → Quiet capacity 1 (push container x (record s { pushing = [] }))
  unfolding push full
  push-waits s q =
      rw (push, full, q.holds, q.within, le→leb capacity capacity (omega arith))
        (record {
          holds = q.holds;
          waits = ap suc q.waits;
          within = refl;
          nobody = refl;
          nobody_pops = q.nobody_pops;
          no_pop = q.no_pop;
        })

  -- One thread calls `push`, and takes its turn.
  pushes :
      (s : Store T C) (held waiting : ℕ)
      → Quiet held waiting s
      → Reach container Larger (new_store container capacity) s
      → Reach container Larger
          (new_store container capacity)
          (push container x (record s { pushing = [] }))
  pushes s held waiting q r =
      next (next r (push_called s x))
        (push_turn (record s { pushing = x ∷ s.pushing }) [] x [] (ap (λ l. x ∷ l) q.nobody))

  fills :
      (held : ℕ)
      → held ≤ capacity
      → (s : Store T C) × Reach container Larger (new_store container capacity) s × Quiet held 0 s
  unfolding new_store
  fills zero h = (
    new_store container capacity,
    here,
    record {
      holds = size-new insert container laws;
      waits = refl;
      within = refl;
      nobody = refl;
      nobody_pops = refl;
      no_pop = refl;
    },
  )
  fills (suc held) h =
      let (s, r, q) = fills held (omega (arith, h)) in
      (
        push container x (record s { pushing = [] }),
        pushes s held 0 q r,
        push-stored held s (omega (arith, h)) q,
      )

  -- In a store of any capacity, over any container that is a list in an order, a thread comes to wait
  -- for room although the store is not full, and no thread is
  -- awake that pushes or pops, when the capacity is raised.
  pub reserve-strands :
      (larger : ℕ)
      → capacity < larger
      → (s : Store T C) × Reach container Larger (new_store container capacity) s
        × (0 < length s.waiting_full)
        × (container.size s.store < s.capacity)
        × (s.pushing ≡ [])
        × (s.popping ≡ 0)
  unfolding reserve
  reserve-strands larger h =
      let (s, r, q) = fills capacity (omega arith) in
      let blocked = push container x (record s { pushing = [] }) in
      let w = push-waits s q in
      (
        reserve larger blocked,
        next (pushes s capacity 0 q r) (reserved blocked larger (omega (arith, h, w.within))),
        omega (arith, w.waits),
        omega (arith, w.holds, h),
        w.nobody,
        w.nobody_pops,
      )
