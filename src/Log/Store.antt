-- ===== src/Log/Store.antt =====
-- core/store/store.h: the bounded store between the threads that write log lines and the one that
-- takes them out, over the class of its container. What a thread does between taking the mutex and
-- giving it back, by the end or by a wait on a condition variable, is one turn. `pushing` and
-- `popping` are the threads that are about to take the mutex, at the call or behind a wait; the two
-- `waiting` are those asleep at the condition variables. `history` records the elements that went in
-- and out, the last one first.
pub mod Serves
pub mod Ordered
pub mod Waking
pub mod Raised
pub mod Linear
pub mod Fifo
pub mod Prioritized
use lproxy.Base.{
  ℕ, zero, suc, Bool, leb, if◌then◌else◌, ◌≡◌, List, [], ◌∷◌, ◌++◌, Outcome, ok, throw, fault,
  ◌>>=◌,
}

-- The template argument `Container`: what the store calls of it.
pub record Container (T C : Type 0) : Type 0 where
  pub new : C
  pub push : T → C → C
  pub front : C → Outcome (Unit {0}) (T × C)
  pub pop : C → Outcome (Unit {0}) C
  pub empty : C → Bool
  pub size : C → ℕ

pub data Event (T : Type 0) : Type 0 where
  pushed popped : T → Event T

pub record Store (T C : Type 0) : Type 0 where
  pub store : C
  pub capacity : ℕ
  pub pushing : List T
  pub waiting_full : List T
  pub popping : ℕ
  pub waiting_empty : ℕ
  pub history : List (Event T)

-- Which of the waiting threads wakes is not defined: that at the place, or the last.
unfoldable pub wake : {T : Type 0} → ℕ → List T → List T → List T × List T
wake i [] awake = ([], awake)
wake zero (x ∷ asleep) awake = (asleep, x ∷ awake)
wake (suc i) (x ∷ []) awake = ([], x ∷ awake)
wake (suc i) (x ∷ y ∷ asleep) awake = let rest = wake i (y ∷ asleep) awake in (x ∷ rest.0, rest.1)

module _ {T C : Type 0} where
  -- `_cond_full.notify_one()` and `_cond_empty.notify_one()`.
  unfoldable pub notify_full : ℕ → Store T C → Store T C
  unfolding wake
  notify_full i s =
      let woken = wake i s.waiting_full s.pushing in
      record s { waiting_full = woken.0; pushing = woken.1 }

  unfoldable pub notify_empty : Store T C → Store T C
  notify_empty s = elim s.waiting_empty [
    | zero ↦ s
    | suc n ↦ record s { waiting_empty = n; popping = suc s.popping }
  ]

  -- Nobody is notified.
  unfoldable pub reserve : ℕ → Store T C → Store T C
  reserve capacity s = record s { capacity = capacity }

module _ {T C : Type 0} (container : Container T C) where
  unfoldable pub new_store : ℕ → Store T C
  new_store capacity = record {
    store = container.new;
    capacity = capacity;
    pushing = [];
    waiting_full = [];
    popping = 0;
    waiting_empty = 0;
    history = [];
  }

  unfoldable pub full : Store T C → Bool
  full s = leb s.capacity (container.size s.store)

  -- A turn of `push` and of `pop`.
  unfoldable pub push : T → Store T C → Store T C
  unfolding full notify_empty
  push x s =
      if full s
      then record s { waiting_full = x ∷ s.waiting_full }
      else notify_empty
          (record s { store = container.push x s.store; history = pushed x ∷ s.history })

  unfoldable pub pop : ℕ → Store T C → Outcome (Unit {0}) (Store T C)
  unfolding notify_full
  pop i s =
      if container.empty s.store then ok (record s { waiting_empty = suc s.waiting_empty }) else (do
        found ← container.front s.store
        rest ← container.pop found.1
        ok (notify_full i (record s { store = rest; history = popped found.0 ∷ s.history })))

  -- Threads call and take turns in any order, and wake up without a reason too. The capacity changes
  -- as `Allowed` says.
  module _ (Allowed : ℕ → ℕ → Type 0) where
    pub data Step : Store T C → Store T C → Type 0 where
      push_called : (s : Store T C) (x : T) → Step s (record s { pushing = x ∷ s.pushing })
      pop_called : (s : Store T C) → Step s (record s { popping = suc s.popping })
      push_turn :
          (s : Store T C) (before : List T) (x : T) (rest : List T)
          → s.pushing ≡ before ++ x ∷ rest
          → Step s (push x (record s { pushing = before ++ rest }))
      pop_turn :
          (s t : Store T C) (n i : ℕ)
          → s.popping ≡ suc n
          → pop i (record s { popping = n }) ≡ ok t
          → Step s t
      push_wakes : (s : Store T C) (i : ℕ) → Step s (notify_full i s)
      pop_wakes : (s : Store T C) → Step s (notify_empty s)
      reserved :
          (s : Store T C) (capacity : ℕ) → Allowed s.capacity capacity → Step s (reserve capacity s)

    pub data Reach (s : Store T C) : Store T C → Type 0 where
      here : Reach s s
      next : {t u : Store T C} → Reach s t → Step t u → Reach s u
