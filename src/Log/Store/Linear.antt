-- ===== src/Log/Store/Linear.antt =====
-- The elements of the store of core/store/store.h, in their order.
use lproxy.Base.{ℕ, suc, ◌≡◌, refl, Bool-cases, inl, inr, leb, List, ◌∷◌, ok}
use lproxy.Log.Store.{
  Container, Store, pushed, popped, new_store, Step, push_called, pop_called, push_turn, pop_turn,
  push_wakes, pop_wakes, reserved, reserve, notify_full, notify_empty, push, pop, full, Reach, here,
  next,
}
use lproxy.Log.Store.Ordered.{ℕ-cases}
use lproxy.Log.Store.Serves.{Serves, nothing, put, took, IsContainer, container_cases}

module _ {T C : Type 0} (container : Container T C) (insert : T → List T → List T)
    (laws : IsContainer insert container) where
  abbrev Served : Store T C → Type 0
  Served s = Serves insert s.history (laws.order s.store)

  same_elements :
      (s t : Store T C) → t.history ≡ s.history → t.store ≡ s.store → Served s → Served t
  same_elements s t h c served = rw (h, c) served

  notify_empty-same :
      (s : Store T C) → ((notify_empty s).history ≡ s.history) × ((notify_empty s).store ≡ s.store)
  unfolding notify_empty
  notify_empty-same s = elim (ℕ-cases s.waiting_empty) [
    | inl z ↦ rw (notify_empty, z) (refl, refl)
    | inr (n, z) ↦ rw (notify_empty, z) (refl, refl)
  ]

  notify_empty-Served : (s : Store T C) → Served s → Served (notify_empty s)
  notify_empty-Served s h =
      let (history, store) = notify_empty-same s in same_elements s (notify_empty s) history store h

  push-Served : (x : T) (s : Store T C) → Served s → Served (push container x s)
  unfolding push full
  push-Served x s h = elim (Bool-cases (leb s.capacity (container.size s.store))) [
    | inl f ↦ rw f h
    | inr f ↦
        let stored = record s {
          store = container.push x s.store;
          history = pushed x ∷ s.history;
        } in
        let held : Served stored =
          rw (laws.push_order x s.store) (put x s.history (laws.order s.store) h) in
        rw f (notify_empty-Served stored held)
  ]

  pop-Served :
      (i : ℕ) (s : Store T C) → Served s → (t : Store T C) × (pop container i s ≡ ok t) × Served t
  unfolding pop notify_full
  pop-Served i s h = elim (container_cases insert container laws s.store) [
    | inl (z, size) ↦ (record s { waiting_empty = suc s.waiting_empty }, rw z refl, h)
    | inr (z, taken) ↦
        let left = record s { store = taken.rest; history = popped taken.value ∷ s.history } in
        (
          notify_full i left,
          rw (z, taken.fronts, taken.pops) refl,
          took taken.value s.history (laws.order taken.rest) (rw taken.first at h),
        )
  ]

  Step-Served :
      {Allowed : ℕ → ℕ → Type 0} {s t : Store T C}
      → Step container Allowed s t
      → Served s
      → Served t
  unfolding notify_full reserve
  Step-Served (push_called s x) h = h
  Step-Served (pop_called s) h = h
  Step-Served (push_turn s before x rest e) h = push-Served x _ h
  Step-Served (pop_turn s t n i e ends) h =
      let (t', ends', served) = pop-Served i (record s { popping = n }) h in
      let same : t' ≡ t = cc in rw same at served
  Step-Served (push_wakes s i) h = h
  Step-Served (pop_wakes s) h = notify_empty-Served s h
  Step-Served (reserved s capacity allowed) h = h

  -- Whatever turns the threads take, in whatever order, and however the capacity is changed, the
  -- elements are those that the sequence of the elements that went in and out leaves of a list in
  -- the container's order: an element goes to its place in it, and the first one comes out.
  pub store-Serves :
      {Allowed : ℕ → ℕ → Type 0} (capacity : ℕ) (s : Store T C)
      → Reach container Allowed (new_store container capacity) s
      → Serves insert s.history (laws.order s.store)
  unfolding new_store
  store-Serves capacity s here = rw laws.new_order nothing
  store-Serves capacity s (next r x) = Step-Served x (store-Serves capacity _ r)
