-- ===== src/Log/Store/Waking.antt =====
-- The threads that wait for the store of core/store/store.h.
use lproxy.Base.{ℕ, ◌≤◌, ◌<◌, ◌≡◌, ap, List, ◌∷◌, length, ok, arith, length-append}
use lproxy.Log.Store.{
  Container, Store, new_store, Step, push_called, pop_called, push_turn, pop_turn, push_wakes,
  pop_wakes, reserved, reserve, pop, Reach, here, next,
}
use lproxy.Log.Store.Serves.{IsContainer, size-new}
use lproxy.Log.Store.Ordered.{
  Ordered, notify_full-Ordered, notify_empty-Ordered, push-Ordered, pop-Ordered,
}

-- The capacity stays the same or is lowered.
abbrev pub Lowered : ℕ → ℕ → Type 0
Lowered old new = new ≤ old

module _ {T C : Type 0} (container : Container T C) (insert : T → List T → List T)
    (laws : IsContainer insert container) (capacity : ℕ) where
  Step-Ordered :
      {s t : Store T C}
      → Step container Lowered s t
      → Ordered container capacity s
      → Ordered container capacity t
  unfolding reserve
  Step-Ordered (push_called s x) h = record {
    no_larger = h.no_larger;
    bounded = h.bounded;
    for_room = λ w. omega (arith, h.for_room w);
    for_element = h.for_element;
  }
  Step-Ordered (pop_called s) h = record {
    no_larger = h.no_larger;
    bounded = h.bounded;
    for_room = h.for_room;
    for_element = λ w. omega (arith, h.for_element w);
  }
  Step-Ordered (push_turn s before x rest e) h =
      push-Ordered container capacity insert laws x _ h.no_larger h.bounded
        (λ w. omega (
          arith,
          h.for_room w,
          ap length e,
          length-append before (x ∷ rest),
          length-append before rest,
        ))
        h.for_element
  Step-Ordered (pop_turn s t n i e ends) h =
      let (t', ends', ordered) =
        pop-Ordered container capacity insert laws i (record s { popping = n }) h.no_larger
          h.bounded h.for_room (λ w. omega (arith, h.for_element w, e)) in
      let same : t' ≡ t = cc in rw same at ordered
  Step-Ordered (push_wakes s i) h =
      notify_full-Ordered container capacity i s h.no_larger h.bounded
        (λ w. omega (arith, h.for_room w)) h.for_element
  Step-Ordered (pop_wakes s) h =
      notify_empty-Ordered container capacity s h.no_larger h.bounded h.for_room
        (λ w. omega (arith, h.for_element w))
  Step-Ordered (reserved s lower allowed) h = record {
    no_larger = omega (arith, allowed, h.no_larger);
    bounded = h.bounded;
    for_room = λ w. omega (arith, allowed, h.for_room w);
    for_element = h.for_element;
  }

  pub Reach-Ordered :
      {s : Store T C}
      → Reach container Lowered (new_store container capacity) s
      → Ordered container capacity s
  unfolding new_store
  Reach-Ordered here = record {
    no_larger = omega arith;
    bounded = omega (arith, size-new insert container laws);
    for_room = λ w. absurd (omega (arith, w));
    for_element = λ w. absurd (omega (arith, w));
  }
  Reach-Ordered (next r x) = Step-Ordered x (Reach-Ordered r)

  -- Whatever turns the threads take, in whatever order, over whatever container that is a list in an
  -- order: no wake-up is lost. Where a thread waits to push and the store is not full, a thread that
  -- pushes is awake, and where a thread waits to pop and the store is not empty, a thread that pops
  -- is awake. The store never holds more than its first capacity, and a turn of `pop` ends without a
  -- fault. The capacity stays the same or is lowered.
  pub store-no_lost_wakeup :
      (s : Store T C) (i : ℕ)
      → Reach container Lowered (new_store container capacity) s
      → (0 < length s.waiting_full → container.size s.store < s.capacity → 0 < length s.pushing)
        × (0 < s.waiting_empty → 0 < container.size s.store → 0 < s.popping)
        × (container.size s.store ≤ capacity)
        × ((t : Store T C) × (pop container i s ≡ ok t))
  store-no_lost_wakeup s i r =
      let h = Reach-Ordered r in
      let (t, ends, _) =
        pop-Ordered container capacity insert laws i s h.no_larger h.bounded h.for_room
          (λ w. omega (arith, h.for_element w)) in
      (
        λ w room. omega (arith, h.for_room w, room),
        λ w held. omega (arith, h.for_element w, held),
        h.bounded,
        (t, ends),
      )
