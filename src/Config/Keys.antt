-- ===== src/Config/Keys.antt =====
-- The keys that config_server.cpp puts in its set, in core/lss: which ones the set then contains.
use lproxy.Base.{
  ℕ, ◌==◌, if◌then◌else◌, ◌≡◌, refl, sym, ap, ◌∙◌, Bool, true, false, ◌&&◌, ◌||◌, Bool-cases, inl,
  inr, List, [], ◌∷◌, ◌++◌, length, bytes_eq, bytes_eq→eq, contains, c_string, ok, arith, map,
}
use lproxy.Config.Server.{insert, insert_keys, unnamed}

-- Texts of 32 bytes each.
abbrev pub Sized : List (List ℕ) → Type 0
Sized [] = Unit
Sized (k ∷ ks) = (length k ≡ 32) × Sized ks

contains-append :
    (set : List (List ℕ)) (k key : List ℕ)
    → contains (set ++ k ∷ []) key ≡ contains set key || bytes_eq k key
unfolding contains
contains-append [] k key = ground arith
contains-append (x ∷ set) k key = let ih = contains-append set k key in ground arith

contains-same :
    (set : List (List ℕ)) (k key : List ℕ)
    → bytes_eq k key ≡ true
    → contains set k ≡ contains set key
contains-same set k key h = ap (contains set) (bytes_eq→eq k key h)

contains-insert :
    (set : List (List ℕ)) (k key : List ℕ)
    → contains (insert k set) key ≡ contains set key || bytes_eq k key
unfolding insert
contains-insert set k key =
    let appended = contains-append set k key in let same = contains-same set k key in ground arith

kept_head :
    (b : Bool) (y : ℕ) (xs key : List ℕ)
    → (if b then [] else (y ∷ xs)) ≡ y ∷ key
    → (b ≡ false) × (xs ≡ key)
kept_head true y xs key e = absurd (omega (arith, ap length e))
kept_head false y xs key e = (refl, cc)

-- A text that is as long as a key without a NUL is that key if what stands before its NUL is.
bytes_eq-c_string :
    (k key : List ℕ)
    → length k ≡ length key
    → c_string key ≡ key
    → bytes_eq (c_string k) key ≡ bytes_eq k key
unfolding c_string bytes_eq
bytes_eq-c_string [] key h e = refl
bytes_eq-c_string (x ∷ k) [] h e = absurd (omega arith)
bytes_eq-c_string (x ∷ k) (y ∷ key) h e =
    let (z, t) = kept_head (y == 0) y (c_string key) key e in
    let ih = bytes_eq-c_string k key (omega arith) t in
    elim (Bool-cases (x == 0)) [
      | inl hx ↦ rw hx (ground arith)
      | inr hx ↦ rw hx (ap (λ b. x == y && b) ih)
    ]

-- The set behind the loop.
abbrev pub inserted : List (List ℕ) → List (List ℕ) → List (List ℕ)
inserted [] set = set
inserted (k ∷ ks) set = inserted ks (insert (c_string k) set)

pub insert_keys-inserted :
    (ks set : List (List ℕ)) → Sized ks → insert_keys ks set ≡ ok (inserted ks set)
unfolding insert_keys
insert_keys-inserted [] set h = refl
insert_keys-inserted (k ∷ ks) set (e, h) =
    rw e (insert_keys-inserted ks (insert (c_string k) set) h)

or_assoc : (a b c : Bool) → (a || b) || c ≡ a || (b || c)
or_assoc true b c = refl
or_assoc false b c = refl

pub contains-inserted :
    (ks set : List (List ℕ)) (key : List ℕ)
    → Sized ks
    → length key ≡ 32
    → c_string key ≡ key
    → contains (inserted ks set) key ≡ contains set key || contains ks key
unfolding contains
contains-inserted [] set key h l e = ground arith
contains-inserted (k ∷ ks) set key (z, h) l e =
    contains-inserted ks (insert (c_string k) set) key h l e
    ∙ ap (λ b. b || contains ks key)
        (contains-insert set (c_string k) key
          ∙ ap (λ b. contains set key || b) (bytes_eq-c_string k key (z ∙ sym l) e))
    ∙ or_assoc (contains set key) (bytes_eq k key) (contains ks key)

-- The array of the file, of elements without names.
pub unnamed-texts : (ks : List (List ℕ)) → unnamed (map (λ k. ([], k)) ks) ≡ ok ks
unfolding unnamed
unnamed-texts [] = refl
unnamed-texts (k ∷ ks) = rw (unnamed-texts ks) refl
