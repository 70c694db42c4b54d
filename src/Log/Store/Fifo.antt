-- ===== src/Log/Store/Fifo.antt =====
-- core/store/store.h on a `std::queue`, its default.
use mathlib.Core.Bool.{true≢false}
use lproxy.Base.{
  ℕ, ◌≡◌, refl, ap, sym, ◌∙◌, ◌==◌, false, List, [], ◌∷◌, ◌++◌, length, Outcome, ok, fault, arith,
  append_assoc, length-append,
}
use lproxy.Log.Store.{Container, Store, Event, pushed, popped, new_store, Reach}
use lproxy.Log.Store.Serves.{Serves, nothing, put, took, IsContainer, Taken}
use lproxy.Log.Store.Linear.{store-Serves}

module _ {T : Type 0} where
  unfoldable pub front : List T → Outcome (Unit {0}) (T × List T)
  front [] = fault
  front (x ∷ l) = ok (x, x ∷ l)

  unfoldable pub pop : List T → Outcome (Unit {0}) (List T)
  pop [] = fault
  pop (x ∷ l) = ok l

  unfoldable pub queue : Container T (List T)
  unfolding front pop
  queue = record {
    new = [];
    push = λ x l. l ++ x ∷ [];
    front = front;
    pop = pop;
    empty = λ l. length l == 0;
    size = λ l. length l;
  }

  abbrev pub put_last : T → List T → List T
  put_last x l = l ++ x ∷ []

  takes : (l : List T) → queue.empty l ≡ false → Taken put_last queue (λ l. l) l
  unfolding queue front pop
  takes [] h = absurd (true≢false h)
  takes (x ∷ l) h = record {
    value = x;
    found = x ∷ l;
    rest = l;
    fronts = refl;
    pops = refl;
    first = refl;
  }

  pub queue-IsContainer : IsContainer put_last queue
  unfolding queue
  queue-IsContainer = record {
    order = λ l. l;
    new_order = refl;
    push_order = λ x l. refl;
    size_order = λ l. refl;
    empty_size = λ l. refl;
    inserted = λ x l. omega (arith, length-append l (x ∷ []));
    takes = takes;
  }

  -- The elements that went in, and those that came out, the first ones first.
  abbrev pub ins : List (Event T) → List T
  ins [] = []
  ins (pushed x ∷ h) = ins h ++ x ∷ []
  ins (popped x ∷ h) = ins h

  abbrev pub outs : List (Event T) → List T
  outs [] = []
  outs (pushed x ∷ h) = outs h
  outs (popped x ∷ h) = outs h ++ x ∷ []

  Serves-in_order : {h : List (Event T)} {l : List T} → Serves put_last h l → outs h ++ l ≡ ins h
  Serves-in_order nothing = refl
  Serves-in_order (put x h l served) =
      sym (append_assoc (outs h) l (x ∷ [])) ∙ ap (put_last x) (Serves-in_order served)
  Serves-in_order (took x h l served) = append_assoc (outs h) (x ∷ []) l ∙ Serves-in_order served

  -- Whatever turns the threads of a store on a `std::queue` take, in whatever order, and however the
  -- capacity is changed, what came out of it and what is in it are what went in, in order.
  pub store-in_order :
      {Allowed : ℕ → ℕ → Type 0} (capacity : ℕ) (s : Store T (List T))
      → Reach queue Allowed (new_store queue capacity) s
      → outs s.history ++ s.store ≡ ins s.history
  unfolding queue queue-IsContainer
  store-in_order capacity s r =
      Serves-in_order (store-Serves queue put_last queue-IsContainer capacity s r)
