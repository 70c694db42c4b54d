-- ===== src/Log/Output/Refined.antt =====
-- What a stream gets, seen from that stream alone.
use lproxy.Base.{
  ℕ, ◌==◌, ◌≡◌, refl, ap, sym, ◌∙◌, if◌then◌else◌, Bool, true, Bool-cases, Option-cases, inl, inr,
  Option, none, some, List, [], ◌∷◌, ◌++◌, append_assoc, append-nil, arith,
}
use lproxy.Log.Level.{Level}
use lproxy.Log.Output.{
  new_lock, is_some, LogVal, OsProperty, LogOutput, Command, do_bind, do_unbind, do_output, find,
  insert, erase, new_output, bind, unbind, emitted, output_once, run,
}
use lproxy.Log.Output.Streams.{
  Above, Sorted, Sorted-insert, Sorted-erase, or_new, find-insert, find-erase,
}

-- The texts of one stream, in the order of the writes.
abbrev pub text_of : ℕ → List (ℕ × List ℕ) → List ℕ
text_of s [] = []
text_of s ((os, text) ∷ rest) = if os == s then text ++ text_of s rest else text_of s rest

text_of-append :
    (s : ℕ) (xs ys : List (ℕ × List ℕ)) → text_of s (xs ++ ys) ≡ text_of s xs ++ text_of s ys
text_of-append s [] ys = refl
text_of-append s ((os, text) ∷ xs) ys = elim (Bool-cases (os == s)) [
  | inl e ↦ rw (e, text_of-append s xs ys) (sym (append_assoc text (text_of s xs) (text_of s ys)))
  | inr e ↦ rw e (text_of-append s xs ys)
]

module _ {Condition : Type 0} (accepts : Condition → Level → Bool) where
  -- A stream that is bound has a condition and a format.
  abbrev pub Bound : Type 0
  Bound = Option (Condition × (LogVal → List ℕ))

  abbrev pub shown : Bound → LogVal → List ℕ
  shown none val = []
  shown (some (condition, format)) val = if accepts condition val.log_type then format val else []

  -- What a stream should get: every line that its condition accepts, while it is bound; who binds a
  -- stream that is bound changes nothing.
  abbrev pub expected : ℕ → Bound → List (Command Condition) → List ℕ
  expected s b [] = []
  expected s b (do_bind os condition format ∷ rest) =
      expected s (if os == s then some (or_new b (condition, format)) else b) rest
  expected s b (do_unbind os ∷ rest) = expected s (if os == s then none else b) rest
  expected s b (do_output val ∷ rest) = shown b val ++ expected s b rest

  abbrev view : Option (OsProperty Condition) → Bound
  view none = none
  view (some p) = some (p.condition, p.format)

module _ {Condition : Type 0} (accepts : Condition → Level → Bool) (default_condition : Condition)
    (default_format : LogVal → List ℕ) (is_std_outerr : ℕ → Bool) where
  abbrev emits : LogVal → List (ℕ × OsProperty Condition) → List (ℕ × List ℕ)
  emits = emitted accepts default_condition default_format is_std_outerr

  abbrev runs : List (Command Condition) → LogOutput Condition → LogOutput Condition
  runs = run accepts default_condition default_format is_std_outerr

  emitted-Above :
      (s : ℕ) (val : LogVal) (m : List (ℕ × OsProperty Condition))
      → Above s m
      → text_of s (emits val m) ≡ []
  unfolding emitted
  emitted-Above s val [] a = refl
  emitted-Above s val ((j, p) ∷ m) (b, a) = ground (arith, b, emitted-Above s val m a)

  -- A line goes once to each stream.
  emitted-shown :
      (s : ℕ) (val : LogVal) (m : List (ℕ × OsProperty Condition))
      → Sorted m
      → text_of s (emits val m) ≡ shown accepts (view accepts (find s m)) val
  unfolding emitted find
  emitted-shown s val [] h = refl
  emitted-shown s val ((j, p) ∷ m) (a, h) = elim (Bool-cases (j == s)) [
    | inl q ↦
        let same : s ≡ j = ground arith in
        let others : text_of s (emits val m) ≡ [] = emitted-Above s val m (rw same a) in
        elim (Bool-cases (accepts p.condition val.log_type)) [
          | inl e ↦ rw (e, q, e, others) (append-nil (p.format val))
          | inr e ↦ rw (e, q, e) others
        ]
    | inr q ↦ elim (Bool-cases (accepts p.condition val.log_type)) [
      | inl e ↦ rw (e, q) (emitted-shown s val m h)
      | inr e ↦ rw (e, q) (emitted-shown s val m h)
    ]
  ]

  view-bind :
      (s os : ℕ) (p : OsProperty Condition) (m : List (ℕ × OsProperty Condition))
      → Sorted m
      → view accepts (find s (insert os p m)) ≡ (
          if os == s
          then some (or_new (view accepts (find s m)) (p.condition, p.format))
          else view accepts (find s m))
  view-bind s os p m h = rw (find-insert s os p m h) (elim (Bool-cases (os == s)) [
    | inl e ↦ rw e (elim (Option-cases (find s m)) [ inl n ↦ rw n refl | inr (w, n) ↦ rw n refl ])
    | inr e ↦ rw e refl
  ])

  view-unbind :
      (s os : ℕ) (p : OsProperty Condition) (m : List (ℕ × OsProperty Condition))
      → Sorted m
      → view accepts (find s (erase os (insert os p m)))
        ≡ (if os == s then none else view accepts (find s m))
  view-unbind s os p m h =
      rw (find-erase s os (insert os p m) (Sorted-insert os p m h), find-insert s os p m h)
        (elim (Bool-cases (os == s)) [ inl e ↦ rw e refl | inr e ↦ rw e refl ])

  run-expected :
      (s : ℕ) (commands : List (Command Condition)) (st : LogOutput Condition)
      → Sorted st.outstream
      → st.subclasses ≡ 1
      → text_of s (runs commands st).written
        ≡ text_of s st.written ++ expected accepts s (view accepts (find s st.outstream)) commands
  unfolding run bind unbind output_once
  run-expected s [] st h one = sym (append-nil (text_of s st.written))
  run-expected s (do_bind os condition format ∷ rest) st h one =
      let p : OsProperty Condition = record {
        plock = some (new_lock accepts default_condition default_format is_std_outerr os);
        condition = condition;
        format = format;
      } in
      rw one (
        run-expected s rest (record st { outstream = insert os p st.outstream; subclasses = 1 })
          (Sorted-insert os p st.outstream h) refl
        ∙ ap (λ b. text_of s st.written ++ expected accepts s b rest)
            (view-bind s os p st.outstream h))
  run-expected s (do_unbind os ∷ rest) st h one =
      let p : OsProperty Condition = record {
        plock = none;
        condition = default_condition;
        format = default_format;
      } in
      run-expected s rest (record st { outstream = erase os (insert os p st.outstream) })
        (Sorted-erase os (insert os p st.outstream) (Sorted-insert os p st.outstream h)) one
      ∙ ap (λ b. text_of s st.written ++ expected accepts s b rest)
          (view-unbind s os p st.outstream h)
  run-expected s (do_output val ∷ rest) st h one =
      let later = expected accepts s (view accepts (find s st.outstream)) rest in
      run-expected s rest (record st { written = st.written ++ emits val st.outstream }) h one
      ∙ ap (λ t. t ++ later) (text_of-append s st.written (emits val st.outstream))
      ∙ append_assoc (text_of s st.written) (text_of s (emits val st.outstream)) later
      ∙ ap (λ t. text_of s st.written ++ (t ++ later)) (emitted-shown s val st.outstream h)

  -- `unbind` says that it removed the stream, whether the stream was bound or not.
  unbind-true :
      (os : ℕ) (st : LogOutput Condition)
      → Sorted st.outstream
      → (unbind accepts default_condition default_format is_std_outerr os st).0 ≡ true
  unfolding unbind is_some
  unbind-true os st h =
      let p : OsProperty Condition = record {
        plock = none;
        condition = default_condition;
        format = default_format;
      } in
      let same : os == os ≡ true = ground arith in
      rw (find-insert os os p st.outstream h, same) refl

  bind-Sorted :
      (os : ℕ) (condition : Condition) (format : LogVal → List ℕ) (st : LogOutput Condition)
      → Sorted st.outstream
      → Sorted
          (bind accepts default_condition default_format is_std_outerr os condition format
            st).1.outstream
  unfolding bind
  bind-Sorted os condition format st h = elim (Bool-cases (st.subclasses == 1)) [
    | inl e ↦ rw (Sorted, e) (Sorted-insert os _ st.outstream h)
    | inr e ↦ rw (Sorted, e) h
  ]

  run-Sorted :
      (commands : List (Command Condition)) (st : LogOutput Condition)
      → Sorted st.outstream
      → Sorted (runs commands st).outstream
  unfolding run unbind output_once
  run-Sorted [] st h = h
  run-Sorted (do_bind os condition format ∷ rest) st h =
      run-Sorted rest
        (bind accepts default_condition default_format is_std_outerr os condition format st).1
        (bind-Sorted os condition format st h)
  run-Sorted (do_unbind os ∷ rest) st h =
      run-Sorted rest _ (Sorted-erase os _ (Sorted-insert os _ st.outstream h))
  run-Sorted (do_output val ∷ rest) st h =
      run-Sorted rest (record st { written = st.written ++ emits val st.outstream }) h

  -- Whatever the program binds, unbinds and puts out, a stream gets every line that its condition
  -- accepts, once, in order and in its format, while it is bound, and nothing else; and `unbind`
  -- says of any stream that it was bound, even where it was not. One subclass alone is in use.
  pub run-refines :
      (s os : ℕ) (commands : List (Command Condition))
      → (text_of s
            (runs commands
              (new_output accepts default_condition default_format is_std_outerr)).written
          ≡ expected accepts s none commands)
        × ((unbind accepts default_condition default_format is_std_outerr os
              (runs commands (new_output accepts default_condition default_format is_std_outerr))).0
            ≡ true)
  unfolding new_output find
  run-refines s os commands =
      let st = new_output accepts default_condition default_format is_std_outerr in
      (
        run-expected s commands st tt refl,
        unbind-true os (runs commands st) (run-Sorted commands st tt),
      )
