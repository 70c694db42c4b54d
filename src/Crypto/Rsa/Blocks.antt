-- ===== src/Crypto/Rsa/Blocks.antt =====
-- A text through `encrypt` and `decrypt`, block by block, with keys of 1024 bits: blocks of at most
-- 86 bytes become blocks of 128.
use mathlib.Core.Bool.{true≢false}
use lproxy.Base.{
  ℕ, zero, suc, ◌+◌, ◌-◌, ◌*◌, ◌/◌, ◌%◌, ◌≤◌, ◌<◌, ◌==◌, leb, if◌then◌else◌, Bool, true, false, ◌≡◌,
  refl, sym, ap, ◌∙◌, arith, Option, some, List, [], ◌++◌, length, take, drop, ok, throw, bytes_at,
  bytes_at-append, length-append, length-drop, take_all, drop_all, take-append-drop, drop-drop,
  append_assoc, Bool-cases, inl, inr, le→leb, length-take,
}
use lproxy.Crypto.Rsa.{
  Rsa, sub_size, max_block_size, max_loop, encrypt_loop, decrypt_loop, encrypt, decrypt,
  with_public, with_strings, with_bytes,
}
use lproxy.Crypto.{Exception, decrypt_exception}

-- A test that holds at every number below a bound, found by trying them.
abbrev tried : (ℕ → Bool) → ℕ → Bool
tried test zero = true
tried test (suc bound) = if test bound then tried test bound else false

tried-holds :
    (test : ℕ → Bool) (bound : ℕ)
    → tried test bound ≡ true
    → (number : ℕ) → number < bound
    → test number ≡ true
tried-holds test zero all number below = absurd (omega (arith, below))
tried-holds test (suc bound) all number below = elim (Bool-cases (test bound)) [
  | inl e ↦ elim (Bool-cases (number == bound)) [
    | inl q ↦ let same : number ≡ bound = ground arith in rw same e
    | inr q ↦ tried-holds test bound (rw e at all) number (ground arith)
  ]
  | inr e ↦ absurd (true≢false (sym (rw e at all)))
]

-- The arithmetic on `float` rounds up where it should, for any text that fits a read buffer.
counted : tried (λ n. max_loop n 86 == (n + 85) / 86) 4097 ≡ true
unfolding max_loop
counted = refl

max_loop-ceiling : (n : ℕ) → n ≤ 4096 → max_loop n 86 ≡ (n + 85) / 86
max_loop-ceiling n h =
    let t = tried-holds (λ k. max_loop k 86 == (k + 85) / 86) 4097 counted n (omega (arith, h)) in
    ground (arith, t)

-- What the documentation of RSA with OAEP says of one block.
pub record Pairs (encrypt_block : ℕ → List ℕ → List ℕ → Option (List ℕ))
    (decrypt_block : List ℕ → List ℕ → Option (List ℕ)) (public_key private_key : List ℕ)
    : Type 0 where
  pub block :
      (draw : ℕ) (text : List ℕ)
      → length text ≤ 86
      → (cipher : List ℕ) × (encrypt_block draw public_key text ≡ some cipher)
        × (length cipher ≡ 128)
        × (decrypt_block private_key cipher ≡ some text)

-- A round of `encrypt` takes the next 86 bytes, or all that are left.
unproc-lem : (n loop : ℕ) → n ≤ 4096 → loop * 86 < n → sub_size n (loop * 86) ≡ n - loop * 86
unfolding sub_size
unproc-lem n loop b h = omega (arith, b, h)

current-lem : (n loop : ℕ) → n ≤ 4096 → loop * 86 < n → sub_size n (n - loop * 86) ≡ loop * 86
unfolding sub_size
current-lem n loop b h = omega (arith, b, h)

round-taken :
    (src : List ℕ) (loop : ℕ)
    → loop * 86 < length src
    → bytes_at {E = Exception} src
        (loop * 86)
        (if leb 86 (length src - loop * 86) then 86 else (length src - loop * 86))
      ≡ ok (take 86 (drop (loop * 86) src))
unfolding bytes_at
round-taken src loop h = elim (Bool-cases (leb 86 (length src - loop * 86))) [
  | inl e ↦ rw (e, le→leb (loop * 86 + 86) (length src) (ground arith)) refl
  | inr e ↦
      let left = length src - loop * 86 in
      let size : length (drop (loop * 86) src) ≡ left = length-drop (loop * 86) src in
      rw
        (
          e,
          le→leb (loop * 86 + left) (length src) (omega (arith, h)),
          take_all left (drop (loop * 86) src) (omega (arith, size)),
          take_all 86 (drop (loop * 86) src) (ground (arith, size)),
        )
        refl
]

module _ (encrypt_block : ℕ → List ℕ → List ℕ → Option (List ℕ))
    (decrypt_block : List ℕ → List ℕ → Option (List ℕ)) (public_key private_key : List ℕ)
    (pairs : Pairs encrypt_block decrypt_block public_key private_key) where
  -- The cipher text of what is left, and its decryption behind any other blocks.
  record Passed (src : List ℕ) (rounds loop : ℕ) : Type 0 where
    cipher : List ℕ
    encrypts : encrypt_loop encrypt_block decrypt_block public_key src 86 rounds loop ≡ ok cipher
    size : length cipher ≡ rounds * 128
    decrypts :
        (before : List ℕ) (first : ℕ)
        → length before ≡ first * 128
        → decrypt_loop encrypt_block decrypt_block private_key (before ++ cipher) 128 rounds first
          ≡ ok (drop (loop * 86) src)

  passed :
      (src : List ℕ) (rounds loop : ℕ)
      → length src ≤ 4096
      → rounds ≡ (length src - loop * 86 + 85) / 86
      → Passed src rounds loop
  unfolding encrypt_loop decrypt_loop
  passed src zero loop b h = record {
    cipher = [];
    encrypts = refl;
    size = refl;
    decrypts = λ before first k. ap ok (sym (drop_all (loop * 86) src (omega (arith, h))));
  }
  passed src (suc rounds) loop b h =
      let more : loop * 86 < length src = omega (arith, h) in
      let text = take 86 (drop (loop * 86) src) in
      let (cipher, e, size, d) =
        pairs.block loop text (omega (arith, length-take 86 (drop (loop * 86) src))) in
      let rest = passed src rounds (suc loop) b (omega (arith, h)) in
      record {
        cipher = cipher ++ rest.cipher;
        encrypts =
            rw
              (
                unproc-lem (length src) loop b more,
                current-lem (length src) loop b more,
                round-taken src loop more,
                e,
                rest.encrypts,
              )
              refl;
        size = omega (arith, size, rest.size, length-append cipher rest.cipher);
        decrypts = λ before first k.
            let behind =
              ap
                (λ t. decrypt_loop encrypt_block decrypt_block private_key t 128 rounds (suc first))
                (sym (append_assoc before cipher rest.cipher))
              ∙ rest.decrypts (before ++ cipher) (suc first)
                  (omega (arith, k, size, length-append before cipher)) in
            let whole : text ++ drop (suc loop * 86) src ≡ drop (loop * 86) src =
              let z : suc loop * 86 ≡ loop * 86 + 86 = omega arith in
              rw (z, ← drop-drop 86 (loop * 86) src) (take-append-drop 86 (drop (loop * 86) src)) in
            rw
              (
                bytes_at-append {E = Exception} before cipher rest.cipher (first * 128) 128
                    (omega (arith, k)) (omega (arith, size)),
                d,
                behind,
                whole,
              )
              refl;
      }

  -- A text of at most 4096 bytes, the size of a read buffer, is encrypted under a public key of 1024
  -- bits, and what comes out is decrypted to it by an object that is made of the same pair of keys as
  -- strings, while one that is made of the same pair as ranges of bytes throws. CryptoPP loads both
  -- keys, and `Pairs` is what is documented of a single block.
  pub rsa-roundtrip :
      (loads loads_private : List ℕ → Bool) (src : List ℕ)
      → loads public_key ≡ true
      → loads_private private_key ≡ true
      → length src ≤ 4096
      → (sender receiver other : Rsa) × (cipher : List ℕ) × (with_public loads 1024 public_key
          ≡ ok sender)
        × (with_strings loads loads_private 1024 public_key private_key ≡ ok receiver)
        × (with_bytes loads loads_private 1024 public_key private_key ≡ ok other)
        × ((encrypt encrypt_block decrypt_block src sender).0 ≡ ok cipher)
        × ((decrypt encrypt_block decrypt_block cipher receiver).0 ≡ ok src)
        × ((decrypt encrypt_block decrypt_block cipher other).0 ≡ throw decrypt_exception)
  unfolding encrypt decrypt with_public with_strings with_bytes max_block_size
  rsa-roundtrip loads loads_private src h k b =
      let rounds = (length src + 85) / 86 in
      let p = passed src rounds 0 b (omega arith) in
      let count : length p.cipher / 128 ≡ rounds = omega (arith, p.size) in
      let even : length p.cipher % 128 ≡ 0 = omega (arith, p.size) in
      let other : Rsa = record {
        public_key = public_key;
        private_key = private_key;
        keysize = 1024;
        flag_private_key_set = false;
      } in
      (
        record other { private_key = [] },
        record other { flag_private_key_set = true },
        other,
        p.cipher,
        rw h refl,
        rw (h, k) refl,
        rw (h, k) refl,
        rw (max_loop-ceiling (length src) b) p.encrypts,
        rw (even, count) (p.decrypts [] 0 refl),
        refl,
      )
