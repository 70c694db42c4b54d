-- ===== src/Log/Queue.antt =====
-- core/log/priority_queue.h: a list of values in the order of their insertion, from which `top`
-- finds the next one by the priority factors, the most important first. An iterator is the place of
-- a value; `none` is the end of the list, or an iterator that was erased. The member and the factors
-- that `settings` stores are parameters.
pub mod Order
pub mod Ranked
use lproxy.Base.{
  ℕ, zero, suc, ◌+◌, Bool, true, false, ◌==◌, if◌then◌else◌, Option, none, some, List, [], ◌∷◌,
  ◌++◌, length, ◌>>=◌, Outcome, ok, throw, fault,
}

module _ {A : Type 0} (factor_of : A → ℕ) where
  -- The inner loop of `top`.
  unfoldable pub find : ℕ → List A → Option ℕ
  find factor [] = none
  find factor (x ∷ c) =
      if factor_of x == factor
      then some 0
      else (elim (find factor c) [ none ↦ none | some i ↦ some (suc i) ])

  -- Both loops; `c.begin()` where nothing is found.
  unfoldable pub find_max : List ℕ → List A → ℕ
  unfolding find
  find_max [] c = 0
  find_max (factor ∷ vfactor) c = elim (find factor c) [ none ↦ find_max vfactor c | some i ↦ i ]

-- `*it` and `c.erase(it)`.
unfoldable pub at : {A : Type 0} → List A → ℕ → Option A
at [] i = none
at (x ∷ c) zero = some x
at (x ∷ c) (suc i) = at c i

unfoldable pub erase : {A : Type 0} → List A → ℕ → List A
erase [] i = []
erase (x ∷ c) zero = c
erase (x ∷ c) (suc i) = x ∷ erase c i

pub record PriorityQueue (A : Type 0) : Type 0 where
  pub c : List A
  pub max_value : Option ℕ

unfoldable pub new_queue : {A : Type 0} → PriorityQueue A
new_queue = record { c = []; max_value = none }

unfoldable pub push : {A : Type 0} → A → PriorityQueue A → PriorityQueue A
push x q = record q { c = q.c ++ x ∷ [] }

unfoldable pub pop : {A : Type 0} → PriorityQueue A → Outcome (Unit {0}) (PriorityQueue A)
pop q = elim q.max_value [
  | none ↦ fault
  | some i ↦ ok (record { c = erase q.c i; max_value = none })
]

unfoldable pub size : {A : Type 0} → PriorityQueue A → ℕ
size q = length q.c

unfoldable pub empty : {A : Type 0} → PriorityQueue A → Bool
empty q = length q.c == 0

module _ {A : Type 0} (factor_of : A → ℕ) (vfactor : List ℕ) where
  unfoldable pub top : PriorityQueue A → Outcome (Unit {0}) (A × PriorityQueue A)
  unfolding find_max
  top q =
      let i = find_max factor_of vfactor q.c in
      elim (at q.c i) [ none ↦ fault | some x ↦ ok (x, record q { max_value = some i }) ]

  -- `top` and `pop`, until the queue is empty.
  unfoldable pub drain : ℕ → PriorityQueue A → Outcome (Unit {0}) (List A)
  drain zero q = elim q.c [ [] ↦ ok [] | _ ↦ fault ]
  drain (suc fuel) q = elim q.c [
    | [] ↦ ok []
    | _ ↦ (do found ← top q; popped ← pop found.1; rest ← drain fuel popped; ok (found.0 ∷ rest))
  ]
