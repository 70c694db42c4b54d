-- ===== src/Log/Queue/Ranked.antt =====
-- The order of the priority queue of core/log/priority_queue.h, kept by inserting: a value goes behind
-- all those of its factor and of the factors before it.
use lproxy.Base.{
  ℕ, suc, ◌≡◌, refl, ap, sym, ◌∙◌, leb, le→leb, lt→leb, leb→le, leb→gt, ◌==◌, if◌then◌else◌, true,
  false, Bool, Bool-cases, inl, inr, List, [], ◌∷◌, ◌++◌, length, arith, append_assoc, All,
  All-append, All-map, All-every, append-nil, length-append, ◌+◌,
}
use lproxy.Log.Queue.Order.{of_factor, others, in_order}

leb-suc : (a b : ℕ) → leb (suc a) (suc b) ≡ leb a b
leb-suc a b = elim (Bool-cases (leb a b)) [
  | inl e ↦ le→leb (suc a) (suc b) (omega (arith, leb→le a b e)) ∙ sym e
  | inr e ↦ lt→leb (suc a) (suc b) (omega (arith, leb→gt a b e)) ∙ sym e
]

module _ {A : Type 0} (factor_of : A → ℕ) where
  -- The place of a value's factor; that behind the last one without a factor.
  abbrev pub rank : List ℕ → A → ℕ
  rank [] x = 0
  rank (factor ∷ vfactor) x = if factor_of x == factor then 0 else suc (rank vfactor x)

  abbrev pub insert_ranked : List ℕ → A → List A → List A
  insert_ranked vfactor x [] = x ∷ []
  insert_ranked vfactor x (y ∷ l) =
      if leb (rank vfactor y) (rank vfactor x) then y ∷ insert_ranked vfactor x l else x ∷ y ∷ l

  pub length-insert_ranked :
      (vfactor : List ℕ) (x : A) (l : List A) → length (insert_ranked vfactor x l) ≡ suc (length l)
  length-insert_ranked vfactor x [] = refl
  length-insert_ranked vfactor x (y ∷ l) =
      elim (Bool-cases (leb (rank vfactor y) (rank vfactor x))) [
        | inl e ↦ rw e (ap suc (length-insert_ranked vfactor x l))
        | inr e ↦ rw e refl
      ]

  abbrev Has : Bool → ℕ → A → Type 0
  Has b factor x = (factor_of x == factor) ≡ b

  of_factor-All : (factor : ℕ) (c : List A) → All (Has true factor) (of_factor factor_of factor c)
  of_factor-All factor [] = tt
  of_factor-All factor (x ∷ c) = elim (Bool-cases (factor_of x == factor)) [
    | inl e ↦ rw e (e, of_factor-All factor c)
    | inr e ↦ rw e (of_factor-All factor c)
  ]

  others-All : (factor : ℕ) (c : List A) → All (Has false factor) (others factor_of factor c)
  others-All factor [] = tt
  others-All factor (x ∷ c) = elim (Bool-cases (factor_of x == factor)) [
    | inl e ↦ rw e (others-All factor c)
    | inr e ↦ rw e (e, others-All factor c)
  ]

  -- What holds of all values holds of those of a factor, of the others, and of all in their order.
  module _ (P : A → Type 0) where
    parts-All :
        (factor : ℕ) (c : List A)
        → All P c
        → All P (of_factor factor_of factor c) × All P (others factor_of factor c)
    parts-All factor [] h = (tt, tt)
    parts-All factor (x ∷ c) (p, h) =
        let (a, b) = parts-All factor c h in
        elim (Bool-cases (factor_of x == factor)) [
          | inl e ↦ rw e ((p, a), b)
          | inr e ↦ rw e (a, (p, b))
        ]

    in_order-All : (vfactor : List ℕ) (c : List A) → All P c → All P (in_order factor_of vfactor c)
    in_order-All [] c h = h
    in_order-All (factor ∷ vfactor) c h =
        let (a, b) = parts-All factor c h in
        All-append P (of_factor factor_of factor c) _ a
          (in_order-All vfactor (others factor_of factor c) b)

  insert-past :
      (vfactor : List ℕ) (x : A) (before l : List A)
      → All (λ y. leb (rank vfactor y) (rank vfactor x) ≡ true) before
      → insert_ranked vfactor x (before ++ l) ≡ before ++ insert_ranked vfactor x l
  insert-past vfactor x [] l h = refl
  insert-past vfactor x (y ∷ before) l (p, h) =
      rw p (ap (λ t. y ∷ t) (insert-past vfactor x before l h))

  insert-front :
      (vfactor : List ℕ) (x : A) (l : List A)
      → All (λ y. leb (rank vfactor y) (rank vfactor x) ≡ false) l
      → insert_ranked vfactor x l ≡ x ∷ l
  insert-front vfactor x [] h = refl
  insert-front vfactor x (y ∷ l) (p, h) = rw p refl

  -- Without a value of the first factor, the other factors decide.
  insert-rest :
      (factor : ℕ) (vfactor : List ℕ) (x : A) (l : List A)
      → Has false factor x
      → All (Has false factor) l
      → insert_ranked (factor ∷ vfactor) x l ≡ insert_ranked vfactor x l
  insert-rest factor vfactor x [] e h = refl
  insert-rest factor vfactor x (y ∷ l) e (p, h) =
      elim (Bool-cases (leb (rank vfactor y) (rank vfactor x))) [
        | inl b ↦
            rw (e, p, leb-suc (rank vfactor y) (rank vfactor x), b)
              (ap (λ t. y ∷ t) (insert-rest factor vfactor x l e h))
        | inr b ↦ rw (e, p, leb-suc (rank vfactor y) (rank vfactor x), b) refl
      ]

  of_factor-append :
      (factor : ℕ) (c d : List A)
      → of_factor factor_of factor (c ++ d)
        ≡ of_factor factor_of factor c ++ of_factor factor_of factor d
  of_factor-append factor [] d = refl
  of_factor-append factor (x ∷ c) d = elim (Bool-cases (factor_of x == factor)) [
    | inl e ↦ rw e (ap (λ t. x ∷ t) (of_factor-append factor c d))
    | inr e ↦ rw e (of_factor-append factor c d)
  ]

  others-append :
      (factor : ℕ) (c d : List A)
      → others factor_of factor (c ++ d) ≡ others factor_of factor c ++ others factor_of factor d
  others-append factor [] d = refl
  others-append factor (x ∷ c) d = elim (Bool-cases (factor_of x == factor)) [
    | inl e ↦ rw e (others-append factor c d)
    | inr e ↦ rw e (ap (λ t. x ∷ t) (others-append factor c d))
  ]

  all_ranks_0 : (x : A) (c : List A) → c ++ x ∷ [] ≡ insert_ranked [] x c
  all_ranks_0 x c =
      let past = insert-past [] x c [] (All-every c (λ y. refl)) in
      let whole : c ++ [] ≡ c = append-nil c in sym (rw whole at past)

  insert-behind :
      (factor : ℕ) (vfactor : List ℕ) (x : A) (first rest : List A)
      → All (Has true factor) first
      → insert_ranked (factor ∷ vfactor) x (first ++ rest)
        ≡ first ++ insert_ranked (factor ∷ vfactor) x rest
  insert-behind factor vfactor x first rest h =
      insert-past (factor ∷ vfactor) x first rest
        (All-map first (λ y e. rw e (le→leb 0 (rank (factor ∷ vfactor) x) (omega arith))) h)

  insert-before :
      (factor : ℕ) (vfactor : List ℕ) (x : A) (rest : List A)
      → Has true factor x
      → All (Has false factor) rest
      → insert_ranked (factor ∷ vfactor) x rest ≡ x ∷ rest
  insert-before factor vfactor x rest e h = insert-front (factor ∷ vfactor) x rest (
      All-map rest
        (λ y f.
          let f' : (factor_of y == factor) ≡ false = f in
          let e' : (factor_of x == factor) ≡ true = e in
          rw (rank, e', f') (lt→leb (suc (rank vfactor y)) 0 (omega arith)))
        h)

  -- `push` puts a value at the end of the list, and so to its place in the order.
  pub in_order-push :
      (vfactor : List ℕ) (x : A) (c : List A)
      → in_order factor_of vfactor (c ++ x ∷ [])
        ≡ insert_ranked vfactor x (in_order factor_of vfactor c)
  in_order-push [] x c = all_ranks_0 x c
  in_order-push (factor ∷ vfactor) x c =
      let first = of_factor factor_of factor c in
      let left = others factor_of factor c in
      let rest = in_order factor_of vfactor left in
      let apart = in_order-All (Has false factor) vfactor left (others-All factor c) in
      let past = insert-behind factor vfactor x first rest (of_factor-All factor c) in
      elim (Bool-cases (factor_of x == factor)) [
        | inl e ↦
            let front = insert-before factor vfactor x rest e apart in
            rw
              (
                in_order,
                past,
                of_factor-append factor c (x ∷ []),
                others-append factor c (x ∷ []),
                of_factor,
                others,
                e,
                append-nil left,
                front,
              )
              (append_assoc first (x ∷ []) rest)
        | inr e ↦
            let behind = insert-rest factor vfactor x rest e apart in
            rw
              (
                in_order,
                past,
                of_factor-append factor c (x ∷ []),
                others-append factor c (x ∷ []),
                of_factor,
                others,
                e,
                append-nil first,
                behind,
              )
              (ap (λ t. first ++ t) (in_order-push vfactor x left))
      ]

  parts_length :
      (factor : ℕ) (c : List A)
      → length (of_factor factor_of factor c) + length (others factor_of factor c) ≡ length c
  parts_length factor [] = refl
  parts_length factor (x ∷ c) = elim (Bool-cases (factor_of x == factor)) [
    | inl e ↦ rw e (omega (arith, parts_length factor c))
    | inr e ↦ rw e (omega (arith, parts_length factor c))
  ]

  pub length-in_order :
      (vfactor : List ℕ) (c : List A) → length (in_order factor_of vfactor c) ≡ length c
  length-in_order [] c = refl
  length-in_order (factor ∷ vfactor) c =
      let left = others factor_of factor c in
      omega (
        arith,
        length-append (of_factor factor_of factor c) (in_order factor_of vfactor left),
        length-in_order vfactor left,
        parts_length factor c,
      )
