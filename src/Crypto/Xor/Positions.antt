-- ===== src/Crypto/Xor/Positions.antt =====
-- The place in the key, over the messages of a connection.
use lproxy.Base.{
  ℕ, suc, ◌+◌, ◌%◌, ◌<◌, ◌==◌, ◌≡◌, refl, ap, ap₂, ◌∙◌, List, [], ◌∷◌, ◌++◌, length, get_or, arith,
  bit_xor_cancel, add-mod-mod, ok, if◌then◌else◌, Bool-cases, inl, inr,
}
use lproxy.Crypto.{encrypt_all, decrypt_all}
use lproxy.Crypto.Stream.{Passes, all-Passes}
use lproxy.Crypto.Xor.{Xor, xor_from, xor_encrypt, encrypt, decrypt, xor}

module _ (key : List ℕ) where
  twice : (loc i : ℕ) (src : List ℕ) → xor_from key loc i (xor_from key loc i src) ≡ src
  unfolding xor_from
  twice loc i [] = refl
  twice loc i (x ∷ src) =
      ap₂ ◌∷◌ (bit_xor_cancel x (get_or key ((i + loc) % length key) 0)) (twice loc (suc i) src)

  pub xor_from-append :
      (loc i : ℕ) (xs ys : List ℕ)
      → xor_from key loc i (xs ++ ys) ≡ xor_from key loc i xs ++ xor_from key loc (i + length xs) ys
  unfolding xor_from
  xor_from-append loc i [] ys = let e : i + 0 ≡ i = omega arith in rw e refl
  xor_from-append loc i (x ∷ xs) ys =
      let e : i + suc (length xs) ≡ suc i + length xs = omega arith in
      rw (e, xor_from-append loc (suc i) xs ys) refl

  -- The position after `d` bytes, reduced, serves like the index `d`.
  pub xor_from_shift :
      (loc d i j : ℕ) (ys : List ℕ)
      → j ≡ i + d
      → xor_from key ((d + loc) % length key) i ys ≡ xor_from key loc j ys
  unfolding xor_from
  xor_from_shift loc d i j [] h = refl
  xor_from_shift loc d i j (y ∷ ys) h =
      let place : (i + (d + loc) % length key) % length key ≡ (j + loc) % length key =
        add-mod-mod i (d + loc) (length key) ∙ ap (λ t. t % length key) (omega (arith, h)) in
      rw (place, xor_from_shift loc d (suc i) (suc j) ys (omega (arith, h))) refl

length-xor_from :
    (key : List ℕ) (loc i : ℕ) (src : List ℕ) → length (xor_from key loc i src) ≡ length src
unfolding xor_from
length-xor_from key loc i [] = refl
length-xor_from key loc i (x ∷ src) = ap suc (length-xor_from key loc (suc i) src)

-- What a call does with a key that is not empty.
abbrev moved : Xor → List ℕ → ℕ → ℕ
moved s src loc = if s.is_synchro then (length src + loc) % length s.key else loc

xor_encrypt-ok :
    (s : Xor) (src : List ℕ) (loc : ℕ)
    → 0 < length s.key
    → xor_encrypt s src loc ≡ ok (xor_from s.key loc 0 src, moved s src loc)
unfolding xor_encrypt
xor_encrypt-ok s src loc h = elim (Bool-cases (length s.key == 0)) [
  | inl e ↦ absurd (ground arith)
  | inr e ↦ rw e refl
]

pub encrypt-ok :
    (src : List ℕ) (s : Xor)
    → 0 < length s.key
    → encrypt src s
      ≡ (ok (xor_from s.key s.encry_loc 0 src), record s { encry_loc = moved s src s.encry_loc })
unfolding encrypt
encrypt-ok src s h = rw (xor_encrypt-ok s src s.encry_loc h) refl

decrypt-ok :
    (src : List ℕ) (s : Xor)
    → 0 < length s.key
    → decrypt src s
      ≡ (ok (xor_from s.key s.decry_loc 0 src), record s { decry_loc = moved s src s.decry_loc })
unfolding decrypt
decrypt-ok src s h = rw (xor_encrypt-ok s src s.decry_loc h) refl

-- One object sends and the other receives.
record Aligned (a b : Xor) : Type 0 where
  same_key : b.key ≡ a.key
  same_mode : b.is_synchro ≡ a.is_synchro
  same_loc : b.decry_loc ≡ a.encry_loc
  has_key : 0 < length a.key

one-Passes : (a b : Xor) (src : List ℕ) → Aligned a b → Passes xor Aligned a b src
unfolding xor
one-Passes a b src h =
    let dest = xor_from a.key a.encry_loc 0 src in
    record {
      dest = dest;
      sent = record a { encry_loc = moved a src a.encry_loc };
      received = record b { decry_loc = moved b dest b.decry_loc };
      encrypts = encrypt-ok src a h.has_key;
      decrypts =
          rw
            (
              decrypt-ok dest b (rw h.same_key h.has_key),
              h.same_key,
              h.same_loc,
              twice a.key a.encry_loc 0 src,
            )
            refl;
      aligned = record {
        same_key = h.same_key;
        same_mode = h.same_mode;
        same_loc =
            rw (h.same_key, h.same_mode, h.same_loc, length-xor_from a.key a.encry_loc 0 src) refl;
        has_key = h.has_key;
      };
    }

-- Whatever is encrypted, message by message, by one object, is decrypted to the same messages by
-- another one with the same key, the same mode and a decryption position that is the encryption
-- position of the first, where the key is not empty.
pub xor-roundtrip :
    (a b : Xor) (messages : List (List ℕ))
    → b.key ≡ a.key
    → b.is_synchro ≡ a.is_synchro
    → b.decry_loc ≡ a.encry_loc
    → 0 < length a.key
    → (dests : List (List ℕ)) × ((encrypt_all xor messages a).0 ≡ ok dests)
      × ((decrypt_all xor dests b).0 ≡ ok messages)
xor-roundtrip a b messages k m l h =
    all-Passes xor Aligned one-Passes messages a b
      (record { same_key = k; same_mode = m; same_loc = l; has_key = h })
