-- ===== src/Base/Every.antt =====
-- What holds of every element of a list.
use mathlib.Core.List.{List, [], ◌∷◌, ◌++◌}

module _ {A : Type 0} (P : A → Type 0) where
  abbrev pub All : List A → Type 0
  All [] = Unit {0}
  All (x ∷ xs) = P x × All xs

  pub All-append : (xs ys : List A) → All xs → All ys → All (xs ++ ys)
  All-append [] ys h k = k
  All-append (x ∷ xs) ys (p, h) k = (p, All-append xs ys h k)

  pub All-front : (xs ys : List A) → All (xs ++ ys) → All xs × All ys
  All-front [] ys h = (tt, h)
  All-front (x ∷ xs) ys (p, h) = let (a, b) = All-front xs ys h in ((p, a), b)

pub All-map :
    {A : Type 0} {P Q : A → Type 0} (xs : List A) → ((x : A) → P x → Q x) → All P xs → All Q xs
All-map [] h a = tt
All-map (x ∷ xs) h (p, a) = (h x p, All-map xs h a)

pub All-every : {A : Type 0} {P : A → Type 0} (xs : List A) → ((x : A) → P x) → All P xs
All-every [] h = tt
All-every (x ∷ xs) h = (h x, All-every xs h)
