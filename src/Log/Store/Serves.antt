-- ===== src/Log/Store/Serves.antt =====
-- What the container of core/store/store.h has to be: a list in an order, into which `insert` puts an
-- element and from which the first one is taken.
use lproxy.Base.{
  ℕ, suc, ◌⊎◌, ◌≡◌, ap, sym, ◌∙◌, true, false, ◌==◌, List, [], ◌∷◌, length, ok, arith, Bool-cases,
  inl, inr,
}
use lproxy.Log.Store.{Container, Event, pushed, popped}

zero_size : (n : ℕ) → n == 0 ≡ true → n ≡ 0
zero_size n h = ground arith

module _ {T : Type 0} (insert : T → List T → List T) where
  -- The elements that are there after a history, in their order: each that went out was the first.
  pub data Serves : List (Event T) → List T → Type 0 where
    nothing : Serves [] []
    put :
        (x : T) (h : List (Event T)) (l : List T) → Serves h l → Serves (pushed x ∷ h) (insert x l)
    took : (x : T) (h : List (Event T)) (l : List T) → Serves h (x ∷ l) → Serves (popped x ∷ h) l

  module _ {C : Type 0} (container : Container T C) where
    -- `front` and `pop` on a container that is not empty.
    pub record Taken (order : C → List T) (c : C) : Type 0 where
      pub value : T
      pub found : C
      pub rest : C
      pub fronts : container.front c ≡ ok (value, found)
      pub pops : container.pop found ≡ ok rest
      pub first : order c ≡ value ∷ order rest

    pub record IsContainer : Type 0 where
      pub order : C → List T
      pub new_order : order container.new ≡ []
      pub push_order : (x : T) (c : C) → order (container.push x c) ≡ insert x (order c)
      pub size_order : (c : C) → container.size c ≡ length (order c)
      pub empty_size : (c : C) → container.empty c ≡ (container.size c == 0)
      pub inserted : (x : T) (l : List T) → length (insert x l) ≡ suc (length l)
      pub takes : (c : C) → (container.empty c ≡ false) → Taken order c

    module _ (laws : IsContainer) where
      pub size-new : container.size container.new ≡ 0
      size-new = laws.size_order container.new ∙ ap length laws.new_order

      pub size-push : (x : T) (c : C) → container.size (container.push x c) ≡ suc (container.size c)
      size-push x c =
          laws.size_order (container.push x c)
          ∙ ap length (laws.push_order x c)
          ∙ laws.inserted x (laws.order c)
          ∙ ap suc (sym (laws.size_order c))

      pub size-Taken :
          (c : C) (t : Taken laws.order c) → container.size c ≡ suc (container.size t.rest)
      size-Taken c t = laws.size_order c ∙ ap length t.first ∙ ap suc (sym (laws.size_order t.rest))

      -- An empty container, or one with a first element.
      pub container_cases :
          (c : C)
          → (container.empty c ≡ true) × (container.size c ≡ 0)
            ⊎ (container.empty c ≡ false) × Taken laws.order c
      container_cases c = elim (Bool-cases (container.empty c)) [
        | inl e ↦ inl (e, zero_size (container.size c) (sym (laws.empty_size c) ∙ e))
        | inr e ↦ inr (e, laws.takes c e)
      ]
